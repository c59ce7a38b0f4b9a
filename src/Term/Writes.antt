-- ===== src/Term/Writes.antt =====
-- 03NetPro_thread/03Termios/term.c: the writing calls write all the bytes, or report an error.
use demo_class.Common.{
  ℕ, zero, suc, ◌≤◌, ◌<◌, ◌≡◌, ◌≢◌, ◌⊎◌, refl, sym, ap, ◌∙◌, inl, inr, true, false, Option, some,
  List, [], ◌∷◌, ◌++◌, arith, length, take, drop, ◌==◌, if◌then◌else◌, Bool-cases,
}
use demo_class.Common.Int.{ℤ, pos, negsuc}
use demo_class.Term.{
  Device, Write, wrote, write_failed, term_write_dev, write_loop, term_write_nbytes,
}

module _ {D : Type 0} (dev : Device D) (output : D → List ℕ) (interrupts : D → ℕ) where
  -- what a call of `write` means that leaves the device as `d'`
  abbrev pub Accepts : List ℕ → D → Write → D → Type 0
  Accepts buf d (wrote n) d' = (n ≤ length buf) × (output d' ≡ output d ++ take n buf)
  Accepts buf d (write_failed errno) d' =
      ((errno ≡ dev.eintr) × (output d' ≡ output d) × (interrupts d' < interrupts d))
      ⊎ (errno ≢ dev.eintr)

-- A device that takes bytes, some of those that it is offered or all; signals interrupt the calls a
-- finite number of times.
pub record IsPort {D : Type 0} (dev : Device D) : Type 0 where
  pub output : D → List ℕ
  pub interrupts : D → ℕ
  pub accepts :
      (buf : List ℕ) (d : D)
      → Accepts dev output interrupts buf d (dev.write buf d).0 (dev.write buf d).1

pub take-length : (xs : List ℕ) → take (length xs) xs ≡ xs
take-length [] = refl
take-length (x ∷ xs) = ap (λ ys. x ∷ ys) (take-length xs)

drop-length : (xs : List ℕ) → drop (length xs) xs ≡ []
drop-length [] = refl
drop-length (x ∷ xs) = drop-length xs

module _ {D : Type 0} (dev : Device D) (port : IsPort dev) where
  -- all the bytes have been written, or the call has failed
  abbrev Wrote : List ℕ → D → ℤ × D → Type 0
  Wrote buf d (v, d') =
      ((v ≡ pos (length buf)) × (port.output d' ≡ port.output d ++ buf)) ⊎ (v ≡ negsuc 0)

  abbrev Writes : List ℕ → D → Option (ℤ × D) → Type 0
  Writes buf d result = (v : ℤ) × (d' : D) × (result ≡ some (v, d')) × Wrote buf d (v, d')

  -- `term_write_dev` behind a call of `write`
  abbrev accepted : ℕ → List ℕ → Write × D → Option (ℤ × D)
  accepted k buf r = elim r.0 [
    | wrote n ↦ if n == length buf then some (pos n, r.1) else some (negsuc 0, dev.flush r.1)
    | write_failed errno ↦ elim (errno == dev.eintr) [
      | true ↦ term_write_dev dev k buf r.1
      | false ↦ some (negsuc 0, r.1)
    ]
  ]

  Wrote-interrupted :
      (buf : List ℕ) (d d' : D) (r : ℤ × D)
      → port.output d' ≡ port.output d
      → Wrote buf d' r
      → Wrote buf d r
  Wrote-interrupted buf d d' r same (inl (v, out)) = inl (v, out ∙ ap (λ q. q ++ buf) same)
  Wrote-interrupted buf d d' r same (inr failed) = inr failed

  accepted-Writes :
      (k : ℕ) (buf : List ℕ) (d : D) (r : Write × D)
      → port.interrupts d < suc k
      → Accepts dev port.output port.interrupts buf d r.0 r.1
      → ((d' : D) → port.interrupts d' < k → Writes buf d' (term_write_dev dev k buf d'))
      → Writes buf d (accepted k buf r)
  accepted-Writes k buf d (wrote n, d') room (few, out) ih = elim (Bool-cases (n == length buf)) [
    | inl all ↦
        let same : n ≡ length buf = ground arith in
        (
          pos n,
          d',
          rw (all, accepted) refl,
          inl (
            ap pos same,
            out ∙ ap (λ q. port.output d ++ q) (ap (λ q. take q buf) same ∙ take-length buf),
          ),
        )
    | inr part ↦ (negsuc 0, dev.flush d', rw (part, accepted) refl, inr refl)
  ]
  accepted-Writes k buf d (write_failed errno, d') room (inl (e, same, fewer)) ih =
      let again : (errno == dev.eintr) ≡ true = ground arith in
      let (v, d'', run, done) = ih d' (omega arith) in
      (v, d'', rw (again, accepted) run, Wrote-interrupted buf d d' (v, d'') same done)
  accepted-Writes k buf d (write_failed errno, d') room (inr ne) ih =
      let final : (errno == dev.eintr) ≡ false = ground arith in
      (negsuc 0, d', rw (final, accepted) refl, inr refl)

  term_write_dev-Writes :
      (k : ℕ) (buf : List ℕ) (d : D)
      → port.interrupts d < k
      → Writes buf d (term_write_dev dev k buf d)
  unfolding term_write_dev
  term_write_dev-Writes zero buf d room = absurd (omega arith)
  term_write_dev-Writes (suc k) buf d room =
      accepted-Writes k buf d (dev.write buf d) room (port.accepts buf d)
        (λ d' fewer. term_write_dev-Writes k buf d' fewer)

  loop_goes_on :
      (k n len c x : ℕ) (xs : List ℕ) (d d' : D)
      → term_write_dev dev n (x ∷ xs) d ≡ some (pos (suc c), d')
      → write_loop dev (suc k) n len (x ∷ xs) d ≡ write_loop dev k n len (drop c xs) d'
  unfolding write_loop
  loop_goes_on k n len c x xs d d' e = rw (e, write_loop) refl

  loop_whole :
      (k n x : ℕ) (xs : List ℕ) (d d' : D)
      → term_write_dev dev n (x ∷ xs) d ≡ some (pos (length (x ∷ xs)), d')
      → write_loop dev (suc (suc k)) n (length (x ∷ xs)) (x ∷ xs) d
        ≡ some (pos (length (x ∷ xs)), d')
  unfolding write_loop
  loop_whole k n x xs d d' e =
      loop_goes_on (suc k) n (suc (length xs)) (length xs) x xs d d' e
      ∙ ap (λ q. write_loop dev (suc k) n (suc (length xs)) q d') (drop-length xs)

  loop_failed :
      (k n x : ℕ) (xs : List ℕ) (d d' : D)
      → term_write_dev dev n (x ∷ xs) d ≡ some (negsuc 0, d')
      → write_loop dev (suc k) n (length (x ∷ xs)) (x ∷ xs) d ≡ some (negsuc 0, d')
  unfolding write_loop
  loop_failed k n x xs d d' e = rw (e, write_loop) refl

  -- For a text that is not empty, `term_write_nbytes` returns the number of the bytes, and all of
  -- them have been written, or it returns -1; it ends after two rounds, so a write that the system
  -- cuts short is never taken up again.
  pub term_write_nbytes_lem :
      (k n x : ℕ) (xs : List ℕ) (d : D)
      → 2 ≤ k
      → port.interrupts d < n
      → (v : ℤ) × (d' : D) × (term_write_nbytes dev k n (x ∷ xs) d ≡ some (v, d'))
        × (((v ≡ pos (length (x ∷ xs))) × (port.output d' ≡ port.output d ++ x ∷ xs))
            ⊎ (v ≡ negsuc 0))
  unfolding term_write_nbytes
  term_write_nbytes_lem zero n x xs d enough room = absurd (omega arith)
  term_write_nbytes_lem (suc zero) n x xs d enough room = absurd (omega arith)
  term_write_nbytes_lem (suc (suc k)) n x xs d enough room =
      let (v, d', run, done) = term_write_dev-Writes n (x ∷ xs) d room in
      elim done [
        | inl (all, out) ↦ (
          v,
          d',
          loop_whole k n x xs d d' (run ∙ ap (λ q. some (q, d')) all)
              ∙ ap (λ q. some (q, d')) (sym all),
          inl (all, out),
        )
        | inr failed ↦ (
          v,
          d',
          loop_failed (suc k) n x xs d d' (run ∙ ap (λ q. some (q, d')) failed)
              ∙ ap (λ q. some (q, d')) (sym failed),
          inr failed,
        )
      ]
