-- ===== src/Joesph/Tests.antt =====
-- The nine people of `main`, at the addresses 1 to 9 behind a head at 0.
use demo_class.Common.{ℕ, ◌+◌, ◌%◌, ◌≡◌, refl, arith, Option, some, [], ◌∷◌, ◌>>=◌}
use demo_class.Links.{Links, list_del}
use demo_class.Links.Ring.{Ring}
use demo_class.Joesph.{start_loop, continue_loop, while_loop, joesph_loop}
use demo_class.Joesph.Counting.{circle}
use demo_class.Joesph.Survivor.{joesph_loop-circle}

abbrev links : Links
links = record { next = λ p. (p + 1) % 10; prev = λ p. (p + 9) % 10 }

nine : Ring links 0 (1 ∷ 2 ∷ 3 ∷ 4 ∷ 5 ∷ 6 ∷ 7 ∷ 8 ∷ 9 ∷ [])
nine = record {
  distinct = (refl, (refl, (refl, (refl, (refl, (refl, (refl, (refl, (refl, (refl, tt))))))))));
  linked = (
    (refl, refl),
    (
      (refl, refl),
      (
        (refl, refl),
        (
          (refl, refl),
          (
            (refl, refl),
            ((refl, refl), ((refl, refl), ((refl, refl), ((refl, refl), ((refl, refl), tt))))),
          ),
        ),
      ),
    ),
  );
}

joesph_loop-circle_example :
    (v : ℕ) × (m' : Links) × (joesph_loop 41 0 4 4 links ≡ some (v, m'))
    × Ring m' 0 (v ∷ [])
    × ((j : ℕ) × (circle j 4 0 (4 ∷ 5 ∷ 6 ∷ 7 ∷ 8 ∷ 9 ∷ 1 ∷ 2 ∷ 3 ∷ []) ≡ some v))
joesph_loop-circle_example =
    joesph_loop-circle 41 0 4 4 links (1 ∷ 2 ∷ 3 ∷ []) (5 ∷ 6 ∷ 7 ∷ 8 ∷ 9 ∷ []) (omega arith) nine
      (omega arith) (omega arith)

abbrev survivor : ℕ → ℕ → Option ℕ
survivor start step = joesph_loop 41 0 start step links >>= λ r. some r.0

main_last : survivor 4 4 ≡ some 4
unfolding joesph_loop start_loop while_loop continue_loop list_del
main_last = refl

main_circle : circle 40 4 0 (4 ∷ 5 ∷ 6 ∷ 7 ∷ 8 ∷ 9 ∷ 1 ∷ 2 ∷ 3 ∷ []) ≡ some 4
unfolding circle
main_circle = refl

-- with a step of 1 everyone goes, and the head is read as the last one
step_one : survivor 1 1 ≡ some 0
unfolding joesph_loop start_loop while_loop continue_loop list_del
step_one = refl
