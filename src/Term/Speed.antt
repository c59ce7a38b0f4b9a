-- ===== src/Term/Speed.antt =====
-- 03NetPro_thread/03Termios/term.c: the speeds that `term_set_speed` takes.
use demo_class.Common.{
  ℕ, zero, suc, ◌+◌, ◌<◌, ◌≡◌, ◌⊎◌, refl, ap, ◌∙◌, true, false, map, Option, some, none, List, [],
  ◌∷◌, arith, length, get_elem?, ◌==◌, if◌then◌else◌, Bool-cases, inl, inr,
}
use demo_class.Common.Int.{pos, negsuc}
use demo_class.Links.Seg.{has}
use demo_class.Term.Settings.{
  Termios, Codes, Tty, Outcome, returned, undefined, name_arr, speed_arr, speed_loop, use_speed,
  term_set_speed,
}

-- the place of the speed among the names, or the place behind the last
abbrev Found : ℕ → ℕ → List ℕ → ℕ → Type 0
Found speed i names place =
    ((j : ℕ) × (place ≡ i + j) × (j < length names) × (get_elem? names j ≡ some speed))
    ⊎ ((place ≡ i + length names) × (has speed names ≡ false))

speed_loop-Found : (speed i : ℕ) (names : List ℕ) → Found speed i names (speed_loop speed i names)
unfolding speed_loop
speed_loop-Found speed i [] = inr (omega arith, refl)
speed_loop-Found speed i (name ∷ names) = elim (Bool-cases (speed == name)) [
  | inl here ↦
      let same : name ≡ speed = ground arith in
      rw here (inl (0, omega arith, omega arith, ap some same))
  | inr further ↦ elim (speed_loop-Found speed (suc i) names) [
    | inl (j, place, few, e) ↦ rw further (inl (suc j, omega (arith, place), omega arith, e))
    | inr (place, out) ↦ rw further (inr (omega (arith, place), out))
  ]
]

get_elem?-map :
    (f : ℕ → ℕ) (xs : List ℕ) (j x : ℕ)
    → get_elem? xs j ≡ some x
    → get_elem? (map f xs) j ≡ some (f x)
get_elem?-map f [] j x e = ground arith
get_elem?-map f (y ∷ xs) zero x e = cc
get_elem?-map f (y ∷ xs) (suc j) x e = get_elem?-map f xs j x e

-- what `term_set_speed` does with a speed: it uses the code of that speed
abbrev pub SetsSpeed : {D : Type 0} → Tty D → Codes → ℕ → Termios → D → Outcome D → Type 0
SetsSpeed tty codes speed set d result =
    ((has speed name_arr ≡ true)
      × (result ≡ (
          let code = codes.baud speed in
          let set' : Termios = record (tty.tcgetattr d set).1 { ispeed = code; ospeed = code } in
          let (ok, d') = tty.tcsetattr set' (tty.tcflush d) in
          if ok then returned (pos 0) set' (tty.tcflush d') else returned (negsuc 0) set' d')))
    ⊎ ((has speed name_arr ≡ false) × (result ≡ undefined))

has-get_elem? : (xs : List ℕ) (j x : ℕ) → get_elem? xs j ≡ some x → has x xs ≡ true
has-get_elem? [] j x e = ground arith
has-get_elem? (y ∷ xs) zero x e = ground arith
has-get_elem? (y ∷ xs) (suc j) x e = let rest = has-get_elem? xs j x e in ground arith

module _ {D : Type 0} (tty : Tty D) (codes : Codes) where
  speed_at :
      (speed place : ℕ) (set : Termios) (d : D) (code : Option ℕ)
      → speed_loop speed 0 name_arr ≡ place
      → get_elem? (speed_arr codes) place ≡ code
      → term_set_speed tty codes speed set d ≡ use_speed tty codes (tty.tcgetattr d set).1 d code
  unfolding term_set_speed
  speed_at speed place set d code found e =
      ap (use_speed tty codes (tty.tcgetattr d set).1 d)
        (ap (λ (i : ℕ). get_elem? (speed_arr codes) i) found ∙ e)

  -- A speed that `name_arr` names is set by the code that `termios.h` has for it, for both directions, and 0
  -- is returned if the device takes it, else -1. What any other speed does is undefined, since `name_arr` is read
  -- behind its end.
  pub term_set_speed-SetsSpeed :
      (speed : ℕ) (set : Termios) (d : D)
      → SetsSpeed tty codes speed set d (term_set_speed tty codes speed set d)
  unfolding use_speed
  term_set_speed-SetsSpeed speed set d = elim (speed_loop-Found speed 0 name_arr) [
    | inl (j, place, few, name) ↦ inl (
      has-get_elem? name_arr j speed name,
      speed_at speed j set d (some (codes.baud speed)) (place ∙ (omega arith))
          (get_elem?-map codes.baud name_arr j speed name),
    )
    | inr (place, out) ↦ inr (out, speed_at speed 7 set d none place refl)
  ]
