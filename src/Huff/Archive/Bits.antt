-- ===== src/Huff/Archive/Bits.antt =====
-- The bytes of a compressed file as the bits that were written.
use mathlib.Core.Path.{subst}
use demo_class.Common.{
  lt_or_eq, ℕ, zero, suc, ◌+◌, ◌-◌, ◌*◌, ◌/◌, ◌%◌, ◌≤◌, ◌<◌, ◌≡◌, refl, sym, ap, ◌∙◌, inl, inr,
  true, false, List, [], ◌∷◌, ◌++◌, append_assoc, append-nil, arith, ◌==◌, Bool-cases,
}
use demo_class.Huff.{Huff}
use demo_class.Huff.Archive.{Writer, shr, shl, write_bit, write_code, write_bytes, flush}

abbrev pub two_to : ℕ → ℕ
two_to zero = 1
two_to (suc n) = 2 * two_to n

pub two_to-le : (m n : ℕ) → m ≤ n → two_to m ≤ two_to n
two_to-le zero zero h = omega arith
two_to-le zero (suc n) h = omega (arith, two_to-le zero n (omega arith))
two_to-le (suc m) zero h = absurd (omega arith)
two_to-le (suc m) (suc n) h = omega (arith, two_to-le m n (omega arith))

-- the lowest `k` bits of a number, the highest of them first
abbrev pub low_bits : ℕ → ℕ → List ℕ
low_bits zero x = []
low_bits (suc k) x = shr x k % 2 ∷ low_bits k x

-- the same, the lowest first
abbrev pub low_first : ℕ → ℕ → List ℕ
low_first zero x = []
low_first (suc k) x = x % 2 ∷ low_first k (x / 2)

abbrev pub all_bits : List ℕ → List ℕ
all_bits [] = []
all_bits (b ∷ bs) = low_bits 8 b ++ all_bits bs

shr-half : (x n : ℕ) → shr x n / 2 ≡ shr x (suc n)
unfolding shr
shr-half x zero = refl
shr-half x (suc n) = shr-half (x / 2) n

low_bits-snoc : (c x bit : ℕ) → bit < 2 → low_bits (suc c) (x * 2 + bit) ≡ low_bits c x ++ bit ∷ []
unfolding shr
low_bits-snoc zero x bit h = let same : (x * 2 + bit) % 2 ≡ bit = omega arith in rw same refl
low_bits-snoc (suc c) x bit h =
    let half : (x * 2 + bit) / 2 ≡ x = omega arith in
    rw half (ap (λ bs. shr x c % 2 ∷ bs) (low_bits-snoc c x bit h))

all_bits-append : (xs ys : List ℕ) → all_bits (xs ++ ys) ≡ all_bits xs ++ all_bits ys
all_bits-append [] ys = refl
all_bits-append (x ∷ xs) ys =
    ap (λ bs. low_bits 8 x ++ bs) (all_bits-append xs ys)
    ∙ sym (append_assoc (low_bits 8 x) (all_bits xs) (all_bits ys))

-- `bits` have been written
pub record Written (w : Writer) (bits : List ℕ) : Type 0 where
  pub room : w.count < 8
  pub low : w.wbuf < two_to w.count
  pub holds : all_bits w.out ++ low_bits w.count w.wbuf ≡ bits

all_bits-snoc : (out : List ℕ) (x : ℕ) → all_bits (out ++ x ∷ []) ≡ all_bits out ++ low_bits 8 x
all_bits-snoc out x =
    all_bits-append out (x ∷ []) ∙ ap (λ bs. all_bits out ++ bs) (append-nil (low_bits 8 x))

module _ (w : Writer) (bits : List ℕ) (v : Written w bits) where
  small : w.wbuf < 128
  small = omega (arith, v.low, v.room, two_to-le w.count 7)

  grown :
      (bit : ℕ)
      → bit < 2
      → all_bits w.out ++ low_bits (suc w.count) (w.wbuf * 2 + bit) ≡ bits ++ bit ∷ []
  grown bit h =
      ap (λ bs. all_bits w.out ++ bs) (low_bits-snoc w.count w.wbuf bit h)
      ∙ sym (append_assoc (all_bits w.out) (low_bits w.count w.wbuf) (bit ∷ []))
      ∙ ap (λ bs. bs ++ bit ∷ []) v.holds

  write_bit-Written : (bit : ℕ) → bit < 2 → Written (write_bit bit w) (bits ++ bit ∷ [])
  unfolding write_bit
  write_bit-Written bit h =
      let fits : w.wbuf * 2 % 256 ≡ w.wbuf * 2 = omega (arith, small) in
      let next : w.count + 1 ≡ suc w.count = omega arith in
      elim (lt_or_eq v.room) [
        | inl more ↦
            let open_byte : (suc w.count == 8) ≡ false = ground arith in
            rw (next, open_byte, fits)
              (record { room = more; low = omega (arith, v.low); holds = grown bit h })
        | inr last ↦
            let full : (suc w.count == 8) ≡ true = ground arith in
            rw (next, full, fits)
              (record {
                room = omega arith;
                low = omega arith;
                holds =
                    append-nil (all_bits (w.out ++ (w.wbuf * 2 + bit) ∷ []))
                    ∙ all_bits-snoc w.out (w.wbuf * 2 + bit)
                    ∙ ap (λ k. all_bits w.out ++ low_bits k (w.wbuf * 2 + bit)) (sym last)
                    ∙ grown bit h;
              })
      ]

write_code-Written :
    (k i code : ℕ) (w : Writer) (bits : List ℕ)
    → Written w bits
    → Written (write_code k i code w) (bits ++ low_first k (shr code i))
unfolding write_code
write_code-Written zero i code w bits v = rw append-nil v
write_code-Written (suc k) i code w bits v =
    let bit = shr code i % 2 in
    let assoc = append_assoc bits (bit ∷ []) (low_first k (shr code (suc i))) in
    rw (shr-half code i) (
      subst (Written (write_code k (suc i) code (write_bit bit w))) assoc (
        write_code-Written k (suc i) code (write_bit bit w) (bits ++ bit ∷ [])
          (write_bit-Written w bits v bit (omega arith))))

-- the codes of the bytes, one after the other
abbrev pub coded : Huff → List ℕ → List ℕ
coded h [] = []
coded h (b ∷ bs) = low_first (h.code_len b) (h.code b) ++ coded h bs

write_bytes-Written :
    (h : Huff) (src : List ℕ) (w : Writer) (bits : List ℕ)
    → Written w bits
    → Written (write_bytes h src w) (bits ++ coded h src)
unfolding write_bytes shr
write_bytes-Written h [] w bits v = rw append-nil v
write_bytes-Written h (b ∷ src) w bits v =
    let code = low_first (h.code_len b) (h.code b) in
    let w₁ = write_code (h.code_len b) 0 (h.code b) w in
    subst (Written (write_bytes h src w₁)) (append_assoc bits code (coded h src)) (
      write_bytes-Written h src w₁ (bits ++ code)
        (write_code-Written (h.code_len b) 0 (h.code b) w bits v))

-- zeros shifted in from the right
low_bits-shl :
    (k c x : ℕ)
    → c + k ≡ 8
    → x < two_to c
    → (pad : List ℕ) × (low_bits 8 (shl x k) ≡ low_bits c x ++ pad)
unfolding shl
low_bits-shl zero c x e h =
    let same : c ≡ 8 = omega arith in rw same ([], sym (append-nil (low_bits 8 x)))
low_bits-shl (suc k) c x e h =
    let fits : x * 2 % 256 ≡ x * 2 = omega (arith, two_to-le c 7) in
    let (pad, holds) = low_bits-shl k (suc c) (x * 2) (omega arith) (omega arith) in
    let zero_bit : x * 2 + 0 ≡ x * 2 = omega arith in
    rw fits (
      0 ∷ pad,
      holds
          ∙ ap (λ q. low_bits (suc c) q ++ pad) (sym zero_bit)
          ∙ ap (λ bs. bs ++ pad) (low_bits-snoc c x 0 (omega arith))
          ∙ append_assoc (low_bits c x) (0 ∷ []) pad,
    )

-- The written bits, and a few more behind them, are what the bytes of the file hold.
flush-Written :
    (w : Writer) (bits : List ℕ)
    → Written w bits
    → (pad : List ℕ) × (all_bits (flush w) ≡ bits ++ pad)
unfolding flush
flush-Written w bits v = elim (Bool-cases (w.count == 0)) [
  | inl e ↦
      let none_left : w.count ≡ 0 = ground arith in
      rw e (
        [],
        sym (append-nil (all_bits w.out))
            ∙ ap (λ k. all_bits w.out ++ low_bits k w.wbuf) (sym none_left)
            ∙ v.holds
            ∙ sym (append-nil bits),
      )
  | inr e ↦
      let (pad, holds) = low_bits-shl (8 - w.count) w.count w.wbuf (omega (arith, v.room)) v.low in
      rw e (
        pad,
        all_bits-snoc w.out (shl w.wbuf (8 - w.count))
            ∙ ap (λ bs. all_bits w.out ++ bs) holds
            ∙ sym (append_assoc (all_bits w.out) (low_bits w.count w.wbuf) pad)
            ∙ ap (λ bs. bs ++ pad) v.holds,
      )
]

-- The body of a compressed file holds the codes of the bytes, in their order, with padding behind.
pub write_bytes-coded :
    (h : Huff) (src : List ℕ)
    → (pad : List ℕ) × (all_bits
          (flush (write_bytes h src (record { wbuf = 0; count = 0; out = [] })))
        ≡ coded h src ++ pad)
write_bytes-coded h src =
    let start : Writer = record { wbuf = 0; count = 0; out = [] } in
    flush-Written (write_bytes h src start) (coded h src) (
      write_bytes-Written h src start []
        (record { room = omega arith; low = omega arith; holds = refl }))
