-- ===== src/Huff/Climb.antt =====
-- The walk of `hf_fill_code` up the tree, and the code that it leaves.
use mathlib.Core.Path.{subst}
use demo_class.Common.{
  ℕ, zero, suc, ◌+◌, ◌*◌, ◌/◌, ◌%◌, ◌^◌, ◌≤◌, ◌<◌, ◌≡◌, ◌≢◌, ◌⊎◌, refl, sym, ◌∙◌, inl, inr, true,
  false, some, arith, ◌==◌, if◌then◌else◌, lt_or_eq,
}
use demo_class.Links.{update}
use demo_class.Huff.{Huff, code_loop, fill_loop, fuel}
use demo_class.Huff.Archive.Bits.{two_to, two_to-le, low_first}
use demo_class.Huff.Archive.RoundTrip.{Leads, child}

-- `n` steps lead from `x` up to the root, each from a child to its parent
abbrev pub Climbs : (ℕ → ℕ) → (ℕ → ℕ) → (ℕ → ℕ) → ℕ → ℕ → ℕ → Type 0
Climbs parent lchild rchild root x zero = x ≡ root
Climbs parent lchild rchild root x (suc n) =
    (x ≢ root)
    × (256 ≤ parent x)
    × (parent x ≤ root)
    × ((lchild (parent x) ≡ x) ⊎ (rchild (parent x) ≡ x))
    × Climbs parent lchild rchild root (parent x) n

abbrev pub Climb : Huff → ℕ → ℕ → Type 0
Climb h = Climbs h.parent h.lchild h.rchild h.root

module _ (h : Huff) where
  abbrev bit_of : ℕ → ℕ
  bit_of cur = if h.rchild (h.parent cur) == cur then 1 else 0

  bit_of-child :
      (cur : ℕ)
      → ((h.lchild (h.parent cur) ≡ cur) ⊎ (h.rchild (h.parent cur) ≡ cur))
      → (bit_of cur < 2) × (child h (h.parent cur) (bit_of cur) ≡ cur)
  bit_of-child cur link = ground arith

  -- the bits that the walk has taken lead back to the leaf `x`
  abbrev Taken : ℕ → ℕ → ℕ → ℕ → Type 0
  Taken x cur code len = (code < two_to len) × Leads h cur (low_first len code) x

  Taken-step :
      (x cur code len : ℕ)
      → len < 16
      → 256 ≤ h.parent cur
      → h.parent cur ≤ h.root
      → ((h.lchild (h.parent cur) ≡ cur) ⊎ (h.rchild (h.parent cur) ≡ cur))
      → Taken x cur code len
      → Taken x (h.parent cur) (code * 2 % 2 ^ 16 + bit_of cur) (suc len)
  Taken-step x cur code len short low high link (small, path) =
      let (bit, down) = bit_of-child cur link in
      let fits : code * 2 % 2 ^ 16 ≡ code * 2 = omega (arith, two_to-le len 15) in
      let lowest : (code * 2 + bit_of cur) % 2 ≡ bit_of cur = omega (arith, bit) in
      let rest : (code * 2 + bit_of cur) / 2 ≡ code = omega (arith, bit) in
      rw (fits, lowest, rest) (omega arith, (low, high, rw down path))

  code_loop-Climb :
      (n k x cur code len total : ℕ)
      → Climb h cur n
      → n < k
      → len + n ≡ total
      → total < 256
      → (code' : ℕ) × (code_loop k h cur code len ≡ some (code', total))
        × (total ≤ 16 → Taken x cur code len → Taken x h.root code' total)
  unfolding code_loop
  code_loop-Climb n zero x cur code len total up enough sum few = absurd (omega arith)
  code_loop-Climb zero (suc k) x cur code len total up enough sum few =
      let top : (cur == h.root) ≡ true = ground arith in
      let same : total ≡ len = omega arith in
      rw (top, code_loop, same)
        (code, refl, λ short taken. subst (λ q. Taken x q code len) up taken)
  code_loop-Climb (suc n) (suc k) x cur code len total (below, low, high, link, up) enough sum few =
      let lower : (cur == h.root) ≡ false = ground arith in
      let longer : (len + 1) % 2 ^ 8 ≡ suc len = omega arith in
      let code₁ = code * 2 % 2 ^ 16 + bit_of cur in
      let (code', run, leads) =
        code_loop-Climb n k x (h.parent cur) code₁ (suc len) total up (omega arith) (omega arith)
          few in
      rw (lower, code_loop, longer)
        (
          code',
          run,
          λ short taken. leads short (Taken-step x cur code len (omega arith) low high link taken),
        )

-- every leaf that is used climbs to the root
abbrev pub Climbing : Huff → Type 0
Climbing h = (j : ℕ) → j < 256 → h.weight j ≢ 0 → (n : ℕ) × (n < 256) × Climb h j n

abbrev pub filled : Huff → (ℕ → ℕ) → (ℕ → ℕ) → Huff
filled h code len = record h { code = code; code_len = len }

-- what the loop from `i` on makes of the codes
abbrev pub Fills : Huff → ℕ → ℕ → (ℕ → ℕ) → (ℕ → ℕ) → (ℕ → ℕ) → (ℕ → ℕ) → Type 0
Fills h i k code len code' len' =
    (fill_loop k i (filled h code len) ≡ some (filled h code' len'))
    × ((j : ℕ) → j < i → (code' j ≡ code j) × (len' j ≡ len j))
    × ((j : ℕ)
        → i ≤ j
        → j < i + k
        → h.weight j ≢ 0
        → len' j ≤ 16
        → Leads h h.root (low_first (len' j) (code' j)) j)

fill_loop-skip :
    (k i : ℕ) (h : Huff) → h.weight i ≡ 0 → fill_loop (suc k) i h ≡ fill_loop k (suc i) h
unfolding fill_loop
fill_loop-skip k i h e =
    let free : (h.weight i == 0) ≡ true = ground arith in rw (free, fill_loop) refl

fill_loop-visit :
    (k i : ℕ) (h : Huff) (r : ℕ × ℕ)
    → h.weight i ≢ 0
    → code_loop fuel h i (h.code i) (h.code_len i) ≡ some r
    → fill_loop (suc k) i h
      ≡ fill_loop k (suc i) (filled h (update h.code i r.0) (update h.code_len i r.1))
unfolding fill_loop
fill_loop-visit k i h r ne run =
    let used : (h.weight i == 0) ≡ false = ground arith in rw (used, fill_loop, run) refl

zero_or : (n : ℕ) → (n ≡ 0) ⊎ (n ≢ 0)
zero_or n = ground arith

update_self : (f : ℕ → ℕ) (i v : ℕ) → update f i v i ≡ v
update_self f i v = ground arith

update_other : (f : ℕ → ℕ) (i v j : ℕ) → j ≢ i → update f i v j ≡ f j
update_other f i v j ne = ground arith

same_code :
    (h : Huff) (i j bits n : ℕ) (code len : ℕ → ℕ)
    → i ≡ j
    → code i ≡ bits
    → len i ≡ n
    → len j ≤ 16
    → (n ≤ 16 → Leads h h.root (low_first n bits) i)
    → Leads h h.root (low_first (len j) (code j)) j
same_code h i j bits n code len e c l short leads =
    let short' : n ≤ 16 = subst (λ q. q ≤ 16) l (subst (λ q. len q ≤ 16) (sym e) short) in
    subst (λ q. Leads h h.root (low_first (len q) (code q)) q) e (rw (c, l) (leads short'))

module _ (h : Huff) (climbing : Climbing h) where
  pub fill_loop-Fills :
      (k i : ℕ) (code len : ℕ → ℕ)
      → i + k ≤ 256
      → ((j : ℕ) → i ≤ j → (code j ≡ 0) × (len j ≡ 0))
      → (code' : ℕ → ℕ) × (len' : ℕ → ℕ) × Fills h i k code len code' len'
  unfolding fill_loop
  fill_loop-Fills zero i code len room fresh =
      (code, len, (refl, λ j low. (refl, refl), λ j low high used short. absurd (omega arith)))
  fill_loop-Fills (suc k) i code len room fresh = elim (zero_or (h.weight i)) [
    | inl free ↦
        let (code', len', (run, kept, leads)) =
          fill_loop-Fills k (suc i) code len (omega arith) (λ j low. fresh j (omega arith)) in
        (
          code',
          len',
          (
            fill_loop-skip k i (filled h code len) free ∙ run,
            λ j low. kept j (omega arith),
            λ j low high used short. elim (lt_or_eq low) [
              | inl more ↦ leads j (omega arith) (omega arith) used short
              | inr same ↦ absurd (used (rw (sym same) free))
            ],
          ),
        )
    | inr used ↦
        let (n, few, up) = climbing i (omega arith) used in
        let (start, start') = fresh i (omega arith) in
        let g = filled h code len in
        let (bits, walk, leaf) =
          code_loop-Climb g n fuel i i (code i) (len i) n up (omega arith) (omega (arith, start'))
            few in
        let taken : Taken g i i (code i) (len i) = rw (start, start') (omega arith, refl) in
        let code₁ = update code i bits in
        let len₁ = update len i n in
        let (code', len', (run, kept, leads)) =
          fill_loop-Fills k (suc i) code₁ len₁ (omega arith) (λ j low.
            let (c, l) = fresh j (omega arith) in
            let ne : j ≢ i = omega arith in
            (update_other code i bits j ne ∙ c, update_other len i n j ne ∙ l)) in
        (
          code',
          len',
          (
            fill_loop-visit k i g (bits, n) used walk ∙ run,
            λ j low.
                let (c, l) = kept j (omega arith) in
                let ne : j ≢ i = omega arith in
                (c ∙ update_other code i bits j ne, l ∙ update_other len i n j ne),
            λ j low high used short. elim (lt_or_eq low) [
              | inl more ↦ leads j (omega arith) (omega arith) used short
              | inr same ↦
                  let (c, l) = kept i (omega arith) in
                  same_code h i j bits n code' len' same (c ∙ update_self code i bits)
                    (l ∙ update_self len i n) short (λ few. (leaf few taken).1)
            ],
          ),
        )
  ]
