-- ===== src/Links/Seg.antt =====
-- Links in a row: each one's `next` is the following, whose `prev` leads back.
use demo_class.Common.{
  ℕ, ◌≡◌, refl, ◌∙◌, Bool, true, false, ◌||◌, List, [], ◌∷◌, ◌++◌, arith, ◌==◌, ◌↔◌,
}
use demo_class.Links.{Links}

abbrev pub has : ℕ → List ℕ → Bool
has p [] = false
has p (x ∷ xs) = p == x || has p xs

abbrev pub IsDistinct : List ℕ → Type 0
IsDistinct [] = Unit
IsDistinct (x ∷ xs) = (has x xs ≡ false) × IsDistinct xs

abbrev pub last : ℕ → List ℕ → ℕ
last a [] = a
last a (x ∷ xs) = last x xs

-- all but the last of `a ∷ xs`
abbrev pub init : ℕ → List ℕ → List ℕ
init a [] = []
init a (x ∷ xs) = a ∷ init x xs

abbrev pub Edge : Links → ℕ → ℕ → Type 0
Edge m a b = (m.next a ≡ b) × (m.prev b ≡ a)

-- from `a` through `xs`
abbrev pub Seg : Links → ℕ → List ℕ → Type 0
Seg m a [] = Unit
Seg m a (x ∷ xs) = Edge m a x × Seg m x xs

pub has-append : (p : ℕ) (xs ys : List ℕ) → has p (xs ++ ys) ≡ (has p xs || has p ys)
has-append p [] ys = refl
has-append p (x ∷ xs) ys = ground (arith, has-append p xs ys)

pub Distinct-append :
    (xs ys : List ℕ)
    → IsDistinct (xs ++ ys)
    → IsDistinct xs × IsDistinct ys × ((p : ℕ) → has p xs ≡ true → has p ys ≡ false)
Distinct-append [] ys d = (tt, d, λ p h. cc)
Distinct-append (x ∷ xs) ys d =
    let (dx, dy, apart) = Distinct-append xs ys d.1 in
    (
      (ground (arith, has-append x xs ys), dx),
      dy,
      λ p h. ground (arith, has-append p xs ys, has-append x xs ys, apart p),
    )

pub append-Distinct :
    (xs ys : List ℕ)
    → IsDistinct xs
    → IsDistinct ys
    → ((p : ℕ) → has p xs ≡ true → has p ys ≡ false)
    → IsDistinct (xs ++ ys)
append-Distinct [] ys dx dy apart = dy
append-Distinct (x ∷ xs) ys dx dy apart = (
  ground (arith, has-append x xs ys, apart x),
  append-Distinct xs ys dx.1 dy (λ p h. apart p (ground arith)),
)

pub has-init : (p a : ℕ) (xs : List ℕ) → has p (init a xs) ≡ true → has p (a ∷ xs) ≡ true
has-init p a [] h = cc
has-init p a (x ∷ xs) h = ground (arith, has-init p x xs)

pub has-last : (a : ℕ) (xs : List ℕ) → has (last a xs) (a ∷ xs) ≡ true
has-last a [] = ground arith
has-last a (x ∷ xs) = ground (arith, has-last x xs)

-- the last of distinct links is none of the others
pub last-not-init :
    (a : ℕ) (xs : List ℕ) → IsDistinct (a ∷ xs) → has (last a xs) (init a xs) ≡ false
last-not-init a [] d = refl
last-not-init a (x ∷ xs) d = ground (arith, last-not-init x xs d.1, has-last x xs)

pub Seg-append :
    (m : Links) (a : ℕ) (xs ys : List ℕ) → Seg m a (xs ++ ys) ↔ (Seg m a xs × Seg m (last a xs) ys)
Seg-append m a [] ys = (λ s. (tt, s), λ s. s.1)
Seg-append m a (x ∷ xs) ys =
    let (split, join) = Seg-append m x xs ys in
    (λ s. ((s.0, (split s.1).0), (split s.1).1), λ s. (s.0.0, join (s.0.1, s.1)))

-- a row survives a change that spares the `next` of all but its last and the `prev` of all but its
-- first
pub Seg-frame :
    (m m' : Links) (a : ℕ) (xs : List ℕ)
    → ((p : ℕ) → has p (init a xs) ≡ true → m'.next p ≡ m.next p)
    → ((p : ℕ) → has p xs ≡ true → m'.prev p ≡ m.prev p)
    → Seg m a xs
    → Seg m' a xs
Seg-frame m m' a [] hn hp s = tt
Seg-frame m m' a (x ∷ xs) hn hp s = (
  (hn a (ground arith) ∙ s.0.0, hp x (ground arith) ∙ s.0.1),
  Seg-frame m m' x xs (λ p h. hn p (ground arith)) (λ p h. hp p (ground arith)) s.1,
)
