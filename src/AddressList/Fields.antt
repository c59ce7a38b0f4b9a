-- ===== src/AddressList/Fields.antt =====
-- 01DataStruct/Project/ADDRESS_LIST/address_list.c: what stands in the buffers of an entry.
use mathlib.Core.Path.{subst}
use demo_class.Common.{
  ℕ, zero, suc, ◌+◌, ◌≤◌, ◌≡◌, refl, sym, ap, ◌∙◌, inl, inr, Bool-cases, true, false, ◌||◌, arith,
  some-injective, bind_some, some, ◌>>=◌, List, [], ◌∷◌, ◌++◌, length, drop, length-append,
  append_assoc, ◌⊎◌, length-drop, ltb, leb, ◌==◌,
}
use demo_class.Common.Int.{ℤ, pos}
use demo_class.Links.Seg.{has, has-append}
use demo_class.CString.{c_string}
use demo_class.CString.Search.{c_string-append}
use demo_class.AddressList.{LinkMan, scan_into, move_into, is_printable, change, is_int}

-- a buffer of so many bytes with a string in it
abbrev pub IsBuffer : ℕ → List ℕ → Type 0
IsBuffer size buf = (length buf ≡ size) × (has 0 buf ≡ true)

pub record IsEntry (e : LinkMan) : Type 0 where
  pub name : IsBuffer 20 e.name
  pub tel : IsBuffer 15 e.tel
  pub email : IsBuffer 30 e.email
  pub company : IsBuffer 30 e.company
  pub address : IsBuffer 50 e.address
  pub post : IsBuffer 7 e.post
  pub spell : length e.spell ≡ 20

-- the sizes of a block that `malloc` has given, whatever is in it
pub record IsBlock (e : LinkMan) : Type 0 where
  pub name : length e.name ≡ 20
  pub tel : length e.tel ≡ 15
  pub email : length e.email ≡ 30
  pub company : length e.company ≡ 30
  pub address : length e.address ≡ 50
  pub post : length e.post ≡ 7
  pub spell : length e.spell ≡ 20

pub scan_into-IsBuffer :
    (size : ℕ) (buf word b : List ℕ)
    → length buf ≡ size
    → scan_into buf word ≡ some b
    → IsBuffer size b
unfolding scan_into
scan_into-IsBuffer size buf word b len e =
    let put = word ++ 0 ∷ drop (length word + 1) buf in
    let l = length-append word (0 ∷ drop (length word + 1) buf) in
    let r = length-drop (length word + 1) buf in
    let z = has-append 0 word (0 ∷ drop (length word + 1) buf) in
    elim (Bool-cases (ltb (length word) (length buf))) [
      | inl y ↦
          let same : put ≡ b = ground arith in
          (ap length (sym same) ∙ ground arith, ap (has 0) (sym same) ∙ ground arith)
      | inr n ↦ absurd (ground arith)
    ]

length-move_into :
    (size : ℕ) (buf word b : List ℕ)
    → length buf ≡ size
    → move_into buf word ≡ some b
    → length b ≡ size
unfolding move_into
length-move_into size buf word b len e =
    let moved = word ++ drop (length word) buf in
    let l = length-append word (drop (length word) buf) in
    let r = length-drop (length word) buf in
    elim (Bool-cases (leb (length word) (length buf))) [
      | inl y ↦ let same : moved ≡ b = ground arith in ap length (sym same) ∙ ground arith
      | inr n ↦ absurd (ground arith)
    ]

drop-append : (n : ℕ) (xs ys : List ℕ) → n ≤ length xs → drop n (xs ++ ys) ≡ drop n xs ++ ys
drop-append zero xs ys le = refl
drop-append (suc n) [] ys le = absurd (omega arith)
drop-append (suc n) (x ∷ xs) ys le = drop-append n xs ys (omega arith)

has-drop : (p n : ℕ) (xs : List ℕ) → has p xs ≡ false → has p (drop n xs) ≡ false
has-drop p zero xs h = h
has-drop p (suc n) [] h = refl
has-drop p (suc n) (x ∷ xs) h = has-drop p n xs (ground arith)

move_into-shorter :
    (old rest w : List ℕ)
    → length w ≤ length old
    → move_into (old ++ 0 ∷ rest) w ≡ some ((w ++ drop (length w) old) ++ 0 ∷ rest)
unfolding move_into
move_into-shorter old rest w le =
    let moved : w ++ drop (length w) (old ++ 0 ∷ rest) ≡ (w ++ drop (length w) old) ++ 0 ∷ rest =
      ap (λ (zs : List ℕ). w ++ zs) (drop-append (length w) old (0 ∷ rest) le)
      ∙ sym (append_assoc w (drop (length w) old) (0 ∷ rest)) in
    let l = length-append old (0 ∷ rest) in
    let ok : leb (length w) (length (old ++ 0 ∷ rest)) ≡ true = ground arith in rw (moved, ok) refl

-- A new name that is not longer than the old one keeps the rest of the old one behind it. A new email does
-- the same to the name, and leaves the email as it was.
pub change-tail :
    (e : LinkMan) (old rest w : List ℕ) (i : ℕ)
    → (i ≡ 1) ⊎ (i ≡ 4)
    → e.name ≡ old ++ 0 ∷ rest
    → has 0 old ≡ false
    → has 0 w ≡ false
    → length w ≤ length old
    → (e' : LinkMan) × (change (pos i) w e ≡ some e')
      × (c_string e'.name ≡ w ++ drop (length w) old)
      × (e'.email ≡ e.email)
unfolding change is_int
change-tail e old rest w i one_or_four at no_nul no_nul_w le =
    let name = (w ++ drop (length w) old) ++ 0 ∷ rest in
    let moved : move_into e.name w ≡ some name =
      ap (λ b. move_into b w) at ∙ move_into-shorter old rest w le in
    let chosen : (i == 1 || i == 4) ≡ true = ground arith in
    let z = has-append 0 w (drop (length w) old) in
    let z' = has-drop 0 (length w) old no_nul in
    (
      record e { name = name },
      rw (chosen, moved) refl,
      c_string-append (w ++ drop (length w) old) rest (ground arith),
      refl,
    )

pub all-IsEntry :
    (e : LinkMan)
    → IsBuffer 20 e.name
    → IsBuffer 15 e.tel
    → IsBuffer 30 e.email
    → IsBuffer 30 e.company
    → IsBuffer 50 e.address
    → IsBuffer 7 e.post
    → length e.spell ≡ 20
    → IsEntry e
all-IsEntry e h_name h_tel h_email h_company h_address h_post h_spell = record {
  name = h_name;
  tel = h_tel;
  email = h_email;
  company = h_company;
  address = h_address;
  post = h_post;
  spell = h_spell;
}

all-IsBlock :
    (e : LinkMan)
    → length e.name ≡ 20
    → length e.tel ≡ 15
    → length e.email ≡ 30
    → length e.company ≡ 30
    → length e.address ≡ 50
    → length e.post ≡ 7
    → length e.spell ≡ 20
    → IsBlock e
all-IsBlock e h_name h_tel h_email h_company h_address h_post h_spell = record {
  name = h_name;
  tel = h_tel;
  email = h_email;
  company = h_company;
  address = h_address;
  post = h_post;
  spell = h_spell;
}

pub IsEntry-IsBlock : (e : LinkMan) → IsEntry e → IsBlock e
IsEntry-IsBlock e h =
    all-IsBlock e h.name.0 h.tel.0 h.email.0 h.company.0 h.address.0 h.post.0 h.spell

-- a block that can be printed is an entry
pub is_printable-IsEntry : (e : LinkMan) → IsBlock e → is_printable e ≡ true → IsEntry e
unfolding is_printable
is_printable-IsEntry e h printed =
    all-IsEntry e (h.name, ground arith) (h.tel, ground arith) (h.email, ground arith)
      (h.company, ground arith) (h.address, ground arith) (h.post, ground arith) h.spell

moved-IsBlock :
    (size : ℕ) (buf w : List ℕ) (put : List ℕ → LinkMan) (e' : LinkMan)
    → length buf ≡ size
    → ((b : List ℕ) → length b ≡ size → IsBlock (put b))
    → (move_into buf w >>= λ b. some (put b)) ≡ some e'
    → IsBlock e'
moved-IsBlock size buf w put e' len entry q =
    let (b, m, s) = bind_some (move_into buf w) (λ b. some (put b)) e' q in
    subst IsBlock (some-injective s) (entry b (length-move_into size buf w b len m))

-- the `switch` leaves the sizes
pub change-IsBlock :
    (e e' : LinkMan) (w : List ℕ) (i : ℤ) → IsBlock e → change i w e ≡ some e' → IsBlock e'
unfolding change
change-IsBlock e e' w i h q = elim (Bool-cases (is_int i 1 || is_int i 4)) [
  | inl y ↦
      moved-IsBlock 20 e.name w (λ b. record e { name = b }) e' h.name
        (λ b hb.
          all-IsBlock (record e { name = b }) hb h.tel h.email h.company h.address h.post h.spell)
        (rw y at q)
  | inr n₁ ↦ elim (Bool-cases (is_int i 2)) [
    | inl y ↦
        moved-IsBlock 20 e.spell w (λ b. record e { spell = b }) e' h.spell
          (λ b hb.
            all-IsBlock (record e { spell = b }) h.name h.tel h.email h.company h.address h.post hb)
          (rw (n₁, y) at q)
    | inr n₂ ↦ elim (Bool-cases (is_int i 3)) [
      | inl y ↦
          moved-IsBlock 15 e.tel w (λ b. record e { tel = b }) e' h.tel
            (λ b hb.
              all-IsBlock (record e { tel = b }) h.name hb h.email h.company h.address h.post
                h.spell)
            (rw (n₁, n₂, y) at q)
      | inr n₃ ↦ elim (Bool-cases (is_int i 5)) [
        | inl y ↦
            moved-IsBlock 30 e.company w (λ b. record e { company = b }) e' h.company
              (λ b hb.
                all-IsBlock (record e { company = b }) h.name h.tel h.email hb h.address h.post
                  h.spell)
              (rw (n₁, n₂, n₃, y) at q)
        | inr n₄ ↦ elim (Bool-cases (is_int i 6)) [
          | inl y ↦
              moved-IsBlock 50 e.address w (λ b. record e { address = b }) e' h.address
                (λ b hb.
                  all-IsBlock (record e { address = b }) h.name h.tel h.email h.company hb h.post
                    h.spell)
                (rw (n₁, n₂, n₃, n₄, y) at q)
          | inr n₅ ↦ elim (Bool-cases (is_int i 7)) [
            | inl y ↦
                moved-IsBlock 7 e.post w (λ b. record e { post = b }) e' h.post
                  (λ b hb.
                    all-IsBlock (record e { post = b }) h.name h.tel h.email h.company h.address hb
                      h.spell)
                  (rw (n₁, n₂, n₃, n₄, n₅, y) at q)
            | inr n₆ ↦ subst IsBlock (some-injective (rw (n₁, n₂, n₃, n₄, n₅, n₆) at q)) h
          ]
        ]
      ]
    ]
  ]
]
