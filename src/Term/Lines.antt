-- ===== src/Term/Lines.antt =====
-- 03NetPro_thread/03Termios/term.c: `term_read_line`.
use demo_class.Common.{
  ℕ, zero, suc, ◌+◌, ◌≤◌, ◌<◌, ◌≡◌, refl, sym, ap, ◌∙◌, inl, inr, Bool, true, false, ◌||◌, Option,
  some, List, [], ◌∷◌, ◌++◌, append_assoc, arith, ◌==◌, if◌then◌else◌, Bool-cases,
}
use demo_class.Common.Int.{ℤ, pos}
use demo_class.Term.{Device, ends_line, term_read_dev, line_loop, term_read_line}
use demo_class.Term.Reads.{IsLine, Piece, term_read_dev-Reads}

-- the first `n` bytes, or those up to the end of the line with it
abbrev pub line_of : ℕ → List ℕ → List ℕ
line_of zero xs = []
line_of (suc n) [] = []
line_of (suc n) (x ∷ xs) = x ∷ (if ends_line x then [] else line_of n xs)

-- there are `n` bytes, or the end of a line before
abbrev pub holds_line : ℕ → List ℕ → Bool
holds_line zero xs = true
holds_line (suc n) [] = false
holds_line (suc n) (x ∷ xs) = ends_line x || holds_line n xs

line_of-last :
    (x left count max : ℕ) (xs : List ℕ)
    → count + suc left ≡ max
    → (ends_line x || count + 1 == max) ≡ true
    → line_of (suc left) (x ∷ xs) ≡ x ∷ []
line_of-last x zero count max xs sum last = ground arith
line_of-last x (suc left) count max xs sum last = ground arith

line_of-more :
    (x left count max : ℕ) (xs : List ℕ)
    → (ends_line x || count + 1 == max) ≡ false
    → line_of (suc left) (x ∷ xs) ≡ x ∷ line_of left xs
line_of-more x left count max xs more = ground arith

more-holds_line :
    (x left count max : ℕ) (xs : List ℕ)
    → count + suc left ≡ max
    → (ends_line x || count + 1 == max) ≡ false
    → holds_line (suc left) (x ∷ xs) ≡ true
    → (1 ≤ left) × (holds_line left xs ≡ true)
more-holds_line x left count max xs sum more holds = ground arith

module _ {D : Type 0} (dev : Device D) (line : IsLine dev) where
  -- the loop behind a byte, as it ends or goes on
  abbrev behind : ℕ → ℕ → ℕ → ℕ → ℕ → List ℕ → D → Bool → Option (ℤ × List ℕ × D)
  behind k n max count x buf d' last = elim last [
    | true ↦ some (pos 0, buf ++ x ∷ [], d')
    | false ↦ line_loop dev k n max (count + 1) x (buf ++ x ∷ []) d'
  ]

  line_loop-behind :
      (k n max count tmp c x : ℕ) (buf xs : List ℕ) (d d' : D)
      → term_read_dev dev n 1 d ≡ some (pos c, x ∷ xs, d')
      → line_loop dev (suc k) n max count tmp buf d
        ≡ behind k n max count x buf d' (ends_line x || count + 1 == max)
  unfolding line_loop
  line_loop-behind k n max count tmp c x buf xs d d' e = rw (e, line_loop) refl

  abbrev Lines : ℕ → List ℕ → D → Option (ℤ × List ℕ × D) → Type 0
  Lines left buf d result =
      (d' : D) × (result ≡ some (pos 0, buf ++ line_of left (line.input d), d'))
      × (line.input d ≡ line_of left (line.input d) ++ line.input d')

  next-Lines :
      (k n max count tmp left : ℕ) (buf : List ℕ) (d : D) (v : ℤ) (bytes : List ℕ) (d' : D)
      → count + suc left ≡ max
      → holds_line (suc left) (line.input d) ≡ true
      → term_read_dev dev n 1 d ≡ some (v, bytes, d')
      → Piece dev line 1 d (v, bytes, d')
      → ((x : ℕ)
          → 1 ≤ left
          → holds_line left (line.input d') ≡ true
          → line.interrupts d' ≤ line.interrupts d
          → Lines left (buf ++ x ∷ []) d' (line_loop dev k n max (count + 1) x (buf ++ x ∷ []) d'))
      → Lines (suc left) buf d (line_loop dev (suc k) n max count tmp buf d)
  next-Lines k n max count tmp left buf d v bytes d' sum holds run (inr (over, e', e)) ih =
      let no_line : holds_line (suc left) [] ≡ true = rw over at holds in absurd (cc)
  next-Lines k n max count tmp left buf d v bytes d' sum holds run
        (inl (x, y ∷ xs, e, e', cut, few, same, fewer)) ih =
      absurd (omega arith)
  next-Lines k n max count tmp left buf d v bytes d' sum holds run
        (inl (x, [], e, e', cut, few, same, fewer)) ih =
      let step = line_loop-behind k n max count tmp 1 x buf [] d d' (rw (e, e') at run) in
      let here : line_of (suc left) (line.input d) ≡ line_of (suc left) (x ∷ line.input d') =
        ap (line_of (suc left)) cut in
      elim (Bool-cases (ends_line x || count + 1 == max)) [
        | inl last ↦
            let one = here ∙ line_of-last x left count max (line.input d') sum last in
            (
              d',
              step
                  ∙ ap (behind k n max count x buf d') last
                  ∙ ap (λ q. some (pos 0, buf ++ q, d')) (sym one),
              cut ∙ ap (λ q. q ++ line.input d') (sym one),
            )
        | inr more ↦
            let longer = here ∙ line_of-more x left count max (line.input d') more in
            let (left', holds') =
              more-holds_line x left count max (line.input d') sum more (rw cut at holds) in
            let (d'', run'', rest) = ih x left' holds' fewer in
            (
              d'',
              step
                  ∙ ap (behind k n max count x buf d') more
                  ∙ run''
                  ∙ ap (λ q. some (pos 0, q, d''))
                      (append_assoc buf (x ∷ []) (line_of left (line.input d'))
                        ∙ ap (λ q. buf ++ q) (sym longer)),
              cut ∙ ap (λ q. x ∷ q) rest ∙ ap (λ q. q ++ line.input d'') (sym longer),
            )
      ]

  line_loop-Lines :
      (k n max count tmp left : ℕ) (buf : List ℕ) (d : D)
      → count + left ≡ max
      → 1 ≤ left
      → left ≤ k
      → line.interrupts d < n
      → holds_line left (line.input d) ≡ true
      → Lines left buf d (line_loop dev k n max count tmp buf d)
  line_loop-Lines zero n max count tmp left buf d sum one enough room holds = absurd (omega arith)
  line_loop-Lines (suc k) n max count tmp zero buf d sum one enough room holds =
      absurd (omega arith)
  line_loop-Lines (suc k) n max count tmp (suc left) buf d sum one enough room holds =
      let ((v, bytes, d'), run, piece) = term_read_dev-Reads dev line n 0 d room in
      next-Lines k n max count tmp left buf d v bytes d' sum holds run piece
        (λ x left' holds' fewer.
          line_loop-Lines k n max (count + 1) x left (buf ++ x ∷ []) d' (omega arith) left'
            (omega arith) (omega arith) holds')

  -- Where the line brings the end of a line within `max` bytes, or `max` bytes, `term_read_line` returns
  -- 0 and the buffer holds the bytes up to that end, or `max` of them; those behind are left to be read.
  pub term_read_line_lem :
      (k n max : ℕ) (d : D)
      → 1 ≤ max
      → max ≤ k
      → line.interrupts d < n
      → holds_line max (line.input d) ≡ true
      → (d' : D) × (term_read_line dev k n max d ≡ some (pos 0, line_of max (line.input d), d'))
        × (line.input d ≡ line_of max (line.input d) ++ line.input d')
  unfolding term_read_line
  term_read_line_lem k n max d one enough room holds =
      line_loop-Lines k n max 0 0 max [] d (omega arith) one enough room holds
