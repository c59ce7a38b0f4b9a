-- ===== src/Huff/Archive/RoundTrip.antt =====
-- The codes are read back down the tree, to the bytes that they stand for.
use demo_class.Common.{
  ℕ, suc, ◌+◌, ◌≤◌, ◌<◌, ◌≡◌, refl, ap, ◌∙◌, inl, inr, true, false, List, [], ◌∷◌, ◌++◌,
  append_assoc, append-nil, arith, length, ◌==◌, ltb, leb, if◌then◌else◌, Bool-cases, some,
}
use demo_class.Huff.{Huff}
use demo_class.Huff.Archive.{
  Archive, Reader, read_bit, write_bytes, flush, huff_decompress, hf_unpack_huff_head,
  hf_make_huff_head,
}
use demo_class.Huff.Archive.Reading.{
  read_bits, read_bytes-read_bits, read_bits-more, read_bits-stop, read_bits-none, append-stop,
  append-more,
}
use demo_class.Huff.Archive.Bits.{low_first, coded, write_bytes-coded}

-- the child that a bit stands for
abbrev pub child : Huff → ℕ → ℕ → ℕ
child h x bit = if bit == 1 then h.rchild x else h.lchild x

-- the bits lead from `x` down to the leaf `b`, through inner nodes up to the root
abbrev pub Descends : (ℕ → ℕ) → (ℕ → ℕ) → ℕ → ℕ → List ℕ → ℕ → Type 0
Descends lchild rchild root x [] b = x ≡ b
Descends lchild rchild root x (bit ∷ bits) b =
    (256 ≤ x)
    × (x ≤ root)
    × Descends lchild rchild root (if bit == 1 then rchild x else lchild x) bits b

abbrev pub Leads : Huff → ℕ → List ℕ → ℕ → Type 0
Leads h = Descends h.lchild h.rchild h.root

-- the reader behind a byte
abbrev after : Huff → ℕ → Reader → Reader
after t b r = record {
  cur = t.root;
  written = r.written + 1;
  out = r.out ++ b ∷ [];
  stopped = r.written + 1 == t.file_size;
}

module _ (t : Huff) where
  read_bit-leaf :
      (bit b : ℕ) (r : Reader) → child t r.cur bit ≡ b → b < 256 → read_bit t bit r ≡ after t b r
  unfolding read_bit
  read_bit-leaf bit b r e small =
      let is_leaf : ltb b 256 ≡ true = ground arith in rw (e, is_leaf) refl

  read_bit-inner :
      (bit : ℕ) (r : Reader)
      → 256 ≤ child t r.cur bit
      → read_bit t bit r ≡ record r { cur = child t r.cur bit }
  unfolding read_bit
  read_bit-inner bit r large =
      let is_inner : ltb (child t r.cur bit) 256 ≡ false = ground arith in rw is_inner refl

  read_bits-one : (bit : ℕ) (r : Reader) → read_bits t (bit ∷ []) r ≡ read_bit t bit r
  read_bits-one bit r = elim (Bool-cases ((read_bit t bit r).stopped)) [
    | inl stop ↦ read_bits-stop t bit [] r stop
    | inr more ↦ read_bits-more t bit [] r more ∙ read_bits-none t (read_bit t bit r)
  ]

  read_bits-Leads :
      (bits : List ℕ) (bit b : ℕ) (r : Reader)
      → b < 256
      → r.stopped ≡ false
      → Leads t r.cur (bit ∷ bits) b
      → read_bits t (bit ∷ bits) r ≡ after t b r
  read_bits-Leads [] bit b r small e (low, high, leaf) =
      read_bits-one bit r ∙ read_bit-leaf bit b r leaf small
  read_bits-Leads (bit' ∷ bits) bit b r small e (low, high, path) =
      let step = read_bit-inner bit r (path.0) in
      read_bits-more t bit (bit' ∷ bits) r (ap (λ q. q.stopped) step ∙ e)
      ∙ ap (read_bits t (bit' ∷ bits)) step
      ∙ read_bits-Leads bits bit' b (record r { cur = child t r.cur bit }) small e path

-- the table gives each of the bytes a code that leads to it
abbrev pub Codes : Huff → Huff → List ℕ → Type 0
Codes h t [] = Unit
Codes h t (b ∷ src) =
    (b < 256) × Leads t t.root (low_first (h.code_len b) (h.code b)) b × Codes h t src

module _ (h t : Huff) (inner : 256 ≤ t.root) where
  read_bits-code :
      (bits : List ℕ) (b : ℕ) (r : Reader)
      → b < 256
      → r.stopped ≡ false
      → r.cur ≡ t.root
      → Leads t t.root bits b
      → read_bits t bits r ≡ after t b r
  read_bits-code [] b r small e top path = absurd (omega (arith, path))
  read_bits-code (bit ∷ bits) b r small e top path =
      read_bits-Leads t bits bit b r small e (rw top path)

  pub read_bits-coded :
      (src pad : List ℕ) (b : ℕ) (r : Reader)
      → r.stopped ≡ false
      → r.cur ≡ t.root
      → Codes h t (b ∷ src)
      → r.written + suc (length src) ≡ t.file_size
      → (read_bits t (coded h (b ∷ src) ++ pad) r).out ≡ r.out ++ b ∷ src
  read_bits-coded [] pad b r e top (small, path, rest) size =
      let bits = low_first (h.code_len b) (h.code b) in
      let run = read_bits-code bits b r small e top path in
      let full : (r.written + 1 == t.file_size) ≡ true = ground arith in
      ap (λ q. (read_bits t (q ++ pad) r).out) (append-nil bits)
      ∙ ap (λ q. q.out) (append-stop t bits pad r e (ap (λ q. q.stopped) run ∙ full) ∙ run)
  read_bits-coded (b' ∷ src) pad b r e top (small, path, rest) size =
      let bits = low_first (h.code_len b) (h.code b) in
      let run = read_bits-code bits b r small e top path in
      let open_file : (r.written + 1 == t.file_size) ≡ false = ground arith in
      ap (λ q. (read_bits t q r).out) (append_assoc bits (coded h (b' ∷ src)) pad)
      ∙ ap (λ q. q.out)
          (append-more t bits (coded h (b' ∷ src) ++ pad) r e (ap (λ q. q.stopped) run ∙ open_file))
      ∙ ap (λ q. (read_bits t (coded h (b' ∷ src) ++ pad) q).out) run
      ∙ read_bits-coded src pad b' (after t b r) open_file refl rest (omega (arith, size))
      ∙ append_assoc r.out (b ∷ []) (b' ∷ src)

-- the nodes that the header of a file brings into the table `h`
abbrev unpacked : Huff → ℕ → Huff → Huff
unpacked t size h = record h {
  root = t.root;
  file_size = size;
  lchild = λ i. if leb i t.root then t.lchild i else h.lchild i;
  rchild = λ i. if leb i t.root then t.rchild i else h.rchild i;
  parent = λ i. if leb i t.root then t.parent i else h.parent i;
  weight = λ i. if leb i t.root then t.weight i else h.weight i;
  code = λ i. if leb i t.root then t.code i else h.code i;
  code_len = λ i. if leb i t.root then t.code_len i else h.code_len i;
}

module _ (t h : Huff) (size : ℕ) where
  unpacked-Leads : (bits : List ℕ) (x b : ℕ) → Leads t x bits b → Leads (unpacked t size h) x bits b
  unpacked-Leads [] x b path = path
  unpacked-Leads (bit ∷ bits) x b (low, high, path) =
      let there : leb x t.root ≡ true = ground arith in
      (low, high, rw there (unpacked-Leads bits (child t x bit) b path))

  unpacked-Codes : (src : List ℕ) → Codes t t src → Codes t (unpacked t size h) src
  unpacked-Codes [] c = c
  unpacked-Codes (b ∷ src) (small, path, rest) = (
    small,
    unpacked-Leads (low_first (t.code_len b) (t.code b)) t.root b path,
    unpacked-Codes src rest,
  )

-- what `huff_compress` makes of a file, with the table that `huff_prepare` has built
abbrev pub packed : List ℕ → Huff → Archive
packed src t =
    hf_make_huff_head src t (flush (write_bytes t src (record { wbuf = 0; count = 0; out = [] })))

-- With a table whose codes lead to their bytes, a file that is not empty is read back whole, whatever
-- the table of the reader holds before.
pub huff_decompress-packed :
    (t h : Huff) (b : ℕ) (src : List ℕ)
    → 256 ≤ t.root
    → Codes t t (b ∷ src)
    → huff_decompress (packed (b ∷ src) t) h ≡ some (b ∷ src)
unfolding huff_decompress hf_unpack_huff_head hf_make_huff_head
huff_decompress-packed t h b src inner c =
    let file = flush (write_bytes t (b ∷ src) (record { wbuf = 0; count = 0; out = [] })) in
    let t' = unpacked t (length (b ∷ src)) h in
    let r : Reader = record { cur = t.root; written = 0; out = []; stopped = false } in
    let (pad, bits) = write_bytes-coded t (b ∷ src) in
    ap (λ q. some q.out) (read_bytes-read_bits t' file r refl ∙ ap (λ q. read_bits t' q r) bits)
    ∙ ap some (
        read_bits-coded t t' inner src pad b r refl refl
          (unpacked-Codes t h (length (b ∷ src)) (b ∷ src) c) (omega arith))
