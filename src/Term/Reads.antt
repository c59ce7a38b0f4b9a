-- ===== src/Term/Reads.antt =====
-- 03NetPro_thread/03Termios/term.c: what the reading calls bring in, however the system cuts it.
use demo_class.Common.{
  ℕ, zero, suc, ◌+◌, ◌-◌, ◌≤◌, ◌<◌, ◌≡◌, ◌≢◌, ◌⊎◌, refl, sym, ap, ◌∙◌, inl, inr, Bool, true, false,
  Option, some, List, [], ◌∷◌, ◌++◌, append_assoc, append-nil, arith, length, length-append, take,
  drop, ◌==◌, leb, if◌then◌else◌,
}
use demo_class.Common.Int.{ℤ, pos, negsuc}
use demo_class.Term.{Device, Read, got, read_failed, term_read_dev, read_loop, term_read_nbytes}

module _ {D : Type 0} (dev : Device D) (input : D → List ℕ) (fails : D → Bool)
    (interrupts : D → ℕ) where
  -- what a call of `read` for `len` bytes means that leaves the device as `d'`
  abbrev pub Answers : ℕ → D → Read → D → Type 0
  Answers len d (got []) d' = (input d ≡ []) × (fails d ≡ false)
  Answers len d (got (x ∷ xs)) d' =
      (input d ≡ (x ∷ xs) ++ input d')
      × (length (x ∷ xs) ≤ len)
      × (fails d' ≡ fails d)
      × (interrupts d' ≤ interrupts d)
  Answers len d (read_failed errno) d' =
      ((errno ≡ dev.eintr)
        × (input d' ≡ input d)
        × (fails d' ≡ fails d)
        × (interrupts d' < interrupts d))
      ⊎ ((errno ≢ dev.eintr) × (input d ≡ []) × (fails d ≡ true))

-- A device that brings in a row of bytes, in pieces, and then is silent, or fails; signals interrupt the
-- calls a finite number of times.
pub record IsLine {D : Type 0} (dev : Device D) : Type 0 where
  pub input : D → List ℕ
  pub fails : D → Bool
  pub interrupts : D → ℕ
  pub answers :
      (len : ℕ) (d : D)
      → Answers dev input fails interrupts
          (suc len)
          d
          (dev.read (suc len) d).0
          (dev.read (suc len) d).1

module _ {D : Type 0} (dev : Device D) (line : IsLine dev) where
  -- the first piece of the input has been read, or there is none
  abbrev pub Piece : ℕ → D → ℤ × List ℕ × D → Type 0
  Piece len d (status, bytes, d') =
      ((x : ℕ) × (xs : List ℕ) × (status ≡ pos (suc (length xs)))
        × (bytes ≡ x ∷ xs)
        × (line.input d ≡ (x ∷ xs) ++ line.input d')
        × (length (x ∷ xs) ≤ len)
        × (line.fails d' ≡ line.fails d)
        × (line.interrupts d' ≤ line.interrupts d))
      ⊎ ((line.input d ≡ []) × (bytes ≡ []) × (status ≡ (if line.fails d then negsuc 0 else pos 0)))

  -- `term_read_dev` behind a call of `read`
  abbrev answered : ℕ → ℕ → Read × D → Option (ℤ × List ℕ × D)
  answered k len r = elim r.0 [
    | got xs ↦ some (pos (length xs), xs, r.1)
    | read_failed errno ↦ elim (errno == dev.eintr) [
      | true ↦ term_read_dev dev k len r.1
      | false ↦ some (negsuc 0, [], r.1)
    ]
  ]

  abbrev Reads : ℕ → D → Option (ℤ × List ℕ × D) → Type 0
  Reads len d result = (r : ℤ × List ℕ × D) × (result ≡ some r) × Piece (suc len) d r

  -- the piece that is read after an interrupt
  Piece-interrupted :
      (len : ℕ) (d d' : D) (r : ℤ × List ℕ × D)
      → line.input d' ≡ line.input d
      → line.fails d' ≡ line.fails d
      → line.interrupts d' < line.interrupts d
      → Piece len d' r
      → Piece len d r
  Piece-interrupted len d d' r same same' fewer (inl (x, xs, v, b, cut, few, fails, left)) =
      inl (x, xs, v, b, sym same ∙ cut, few, fails ∙ same', omega arith)
  Piece-interrupted len d d' r same same' fewer (inr (over, none_left, v)) =
      inr (sym same ∙ over, none_left, rw same' at v)

  answered-Reads :
      (k len : ℕ) (d : D) (r : Read × D)
      → line.interrupts d < suc k
      → Answers dev line.input line.fails line.interrupts (suc len) d r.0 r.1
      → ((d' : D) → line.interrupts d' < k → Reads len d' (term_read_dev dev k (suc len) d'))
      → Reads len d (answered k (suc len) r)
  answered-Reads k len d (got [], d') room (over, well) ih =
      ((pos 0, [], d'), refl, inr (over, refl, rw well refl))
  answered-Reads k len d (got (x ∷ xs), d') room (cut, few, same, left) ih =
      ((pos (suc (length xs)), x ∷ xs, d'), refl, inl (x, xs, refl, refl, cut, few, same, left))
  answered-Reads k len d (read_failed errno, d') room (inl (e, same, same', fewer)) ih =
      let again : (errno == dev.eintr) ≡ true = ground arith in
      let (r, run, piece) = ih d' (omega arith) in
      (r, rw (again, answered) run, Piece-interrupted (suc len) d d' r same same' fewer piece)
  answered-Reads k len d (read_failed errno, d') room (inr (ne, over, broken)) ih =
      let final : (errno == dev.eintr) ≡ false = ground arith in
      ((negsuc 0, [], d'), rw (final, answered) refl, inr (over, refl, rw broken refl))

  -- `term_read_dev` ends with a piece of the input; it fails only where the device has.
  pub term_read_dev-Reads :
      (k len : ℕ) (d : D) → line.interrupts d < k → Reads len d (term_read_dev dev k (suc len) d)
  unfolding term_read_dev
  term_read_dev-Reads zero len d room = absurd (omega arith)
  term_read_dev-Reads (suc k) len d room =
      answered-Reads k len d (dev.read (suc len) d) room (line.answers len d)
        (λ d' fewer. term_read_dev-Reads k len d' fewer)

take-piece :
    (n : ℕ) (xs ys : List ℕ) → length xs ≤ n → take n (xs ++ ys) ≡ xs ++ take (n - length xs) ys
take-piece n [] ys few = let same : n - 0 ≡ n = omega arith in rw same refl
take-piece zero (x ∷ xs) ys few = absurd (omega arith)
take-piece (suc n) (x ∷ xs) ys few =
    let same : suc n - suc (length xs) ≡ n - length xs = omega arith in
    rw same (ap (λ zs. x ∷ zs) (take-piece n xs ys (omega arith)))

drop-piece : (n : ℕ) (xs ys : List ℕ) → length xs ≤ n → drop n (xs ++ ys) ≡ drop (n - length xs) ys
drop-piece n [] ys few = let same : n - 0 ≡ n = omega arith in rw same refl
drop-piece zero (x ∷ xs) ys few = absurd (omega arith)
drop-piece (suc n) (x ∷ xs) ys few =
    let same : suc n - suc (length xs) ≡ n - length xs = omega arith in
    rw same (drop-piece n xs ys (omega arith))

module _ {D : Type 0} (dev : Device D) (line : IsLine dev) where
  -- what `len` bytes at once come to: the count of the bytes, or -1 where the device fails before
  abbrev pub returned : ℕ → D → ℤ
  returned len d =
      if leb len (length (line.input d))
      then pos len
      else if line.fails d
      then negsuc 0
      else pos (length (line.input d))

  -- the loop with `buf` read before
  abbrev Rest : ℕ → ℕ → List ℕ → D → Option (ℤ × List ℕ × D) → Type 0
  Rest len nleft buf d result =
      (d' : D) × (v : ℤ) × (result ≡ some (v, buf ++ take nleft (line.input d), d'))
      × (v ≡ (
          if leb nleft (length (line.input d))
          then pos len
          else if line.fails d
          then negsuc 0
          else pos (len - nleft + length (line.input d))))
      × (nleft ≤ length (line.input d) → line.input d' ≡ drop nleft (line.input d))

  loop_more :
      (k n len left c : ℕ) (buf bytes : List ℕ) (d d' : D)
      → term_read_dev dev n (suc left) d ≡ some (pos (suc c), bytes, d')
      → read_loop dev (suc k) n len (suc left) buf d
        ≡ read_loop dev k n len (suc left - suc c) (buf ++ bytes) d'
  unfolding read_loop
  loop_more k n len left c buf bytes d d' e = rw (e, read_loop) refl

  loop_ends :
      (k n len left : ℕ) (buf bytes : List ℕ) (d d' : D) (fails : Bool)
      → term_read_dev dev n (suc left) d ≡ some ((if fails then negsuc 0 else pos 0), bytes, d')
      → read_loop dev (suc k) n len (suc left) buf d
        ≡ some ((if fails then negsuc 0 else pos (len - suc left)), buf, d')
  unfolding read_loop
  loop_ends k n len left buf bytes d d' true e = rw (e, read_loop) refl
  loop_ends k n len left buf bytes d d' false e = rw (e, read_loop) refl

  -- the bytes of a piece, and those behind it
  next-Rest :
      (k n len left : ℕ) (buf : List ℕ) (d : D) (v : ℤ) (bytes : List ℕ) (d' : D)
      → suc left ≤ len
      → term_read_dev dev n (suc left) d ≡ some (v, bytes, d')
      → Piece dev line (suc left) d (v, bytes, d')
      → ((x : ℕ) (xs : List ℕ)
          → line.interrupts d' ≤ line.interrupts d
          → Rest len
              (suc left - suc (length xs))
              (buf ++ x ∷ xs)
              d'
              (read_loop dev k n len (suc left - suc (length xs)) (buf ++ x ∷ xs) d'))
      → Rest len (suc left) buf d (read_loop dev (suc k) n len (suc left) buf d)
  next-Rest k n len left buf d v bytes d' fits run (inl (x, xs, e, e', cut, few, same, fewer)) ih =
      let m = suc left - suc (length xs) in
      let (d'', v', run', returns, rest) = ih x xs fewer in
      let bytes_of : take (suc left) (line.input d) ≡ (x ∷ xs) ++ take m (line.input d') =
        ap (take (suc left)) cut ∙ take-piece (suc left) (x ∷ xs) (line.input d') few in
      let size : length (line.input d) ≡ suc (length xs) + length (line.input d') =
        ap length cut ∙ length-append (x ∷ xs) (line.input d') in
      (
        d'',
        v',
        loop_more k n len left (length xs) buf (x ∷ xs) d d' (rw (e, e') at run)
            ∙ run'
            ∙ ap (λ q. some (v', q, d''))
                (append_assoc buf (x ∷ xs) (take m (line.input d'))
                  ∙ ap (λ q. buf ++ q) (sym bytes_of)),
        ground (arith, returns, size, same),
        λ long.
            rest (omega (arith, size))
            ∙ sym (ap (drop (suc left)) cut ∙ drop-piece (suc left) (x ∷ xs) (line.input d') few),
      )
  next-Rest k n len left buf d v bytes d' fits run (inr (over, e', e)) ih =
      let v' : ℤ = if line.fails d then negsuc 0 else pos (len - suc left) in
      let none_left : length (line.input d) ≡ 0 = ap length over in
      (
        d',
        v',
        loop_ends k n len left buf bytes d d' (line.fails d) (rw e at run)
            ∙ ap (λ q. some (v', q, d'))
                (sym (append-nil buf) ∙ ap (λ q. buf ++ take (suc left) q) (sym over)),
        ground (arith, none_left),
        λ long. absurd (omega (arith, none_left)),
      )

  read_loop-Rest :
      (k n len nleft : ℕ) (buf : List ℕ) (d : D)
      → nleft < k
      → line.interrupts d < n
      → nleft ≤ len
      → Rest len nleft buf d (read_loop dev k n len nleft buf d)
  unfolding read_loop
  read_loop-Rest zero n len nleft buf d enough room fits = absurd (omega arith)
  read_loop-Rest (suc k) n len zero buf d enough room fits =
      (d, pos len, rw append-nil refl, ground arith, λ _. refl)
  read_loop-Rest (suc k) n len (suc left) buf d enough room fits =
      let ((v, bytes, d'), run, piece) = term_read_dev-Reads dev line n left d room in
      next-Rest k n len left buf d v bytes d' fits run piece (λ x xs fewer.
        read_loop-Rest k n len (suc left - suc (length xs)) (buf ++ x ∷ xs) d' (omega arith)
          (omega arith) (omega arith))

  -- `term_read_nbytes` fills the buffer with the next `len` bytes of the line, however the system cuts
  -- them and whatever interrupts it. Where the line brings fewer, the buffer holds those; the call
  -- returns their number if the line falls silent, and -1 if the device fails.
  pub term_read_nbytes_lem :
      (k n len : ℕ) (d : D)
      → len < k
      → line.interrupts d < n
      → (d' : D) × (term_read_nbytes dev k n len d
          ≡ some (returned len d, take len (line.input d), d'))
        × (len ≤ length (line.input d) → line.input d' ≡ drop len (line.input d))
  unfolding term_read_nbytes
  term_read_nbytes_lem k n len d enough room =
      let (d', v, run, returns, rest) = read_loop-Rest k n len len [] d enough room (omega arith) in
      let same : v ≡ returned len d = ground (arith, returns) in
      (d', run ∙ ap (λ q. some (q, take len (line.input d), d')) same, rest)
