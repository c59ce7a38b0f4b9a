-- ===== src/Huff/Build/Forest.antt =====
-- The trees that `hf_build_hufftree` joins, until one is left.
use demo_class.Common.{
  ℕ, suc, ◌+◌, ◌≤◌, ◌<◌, ◌≡◌, ◌≢◌, ◌⊎◌, inl, inr, true, false, List, ◌∷◌, arith, length,
}
use demo_class.Links.Seg.{has}
use demo_class.Links.Ring.{Ring}
use demo_class.Huff.{Huff, head, join_nodes}

-- a leaf that is used, or an inner node that has been made
abbrev pub Made : Huff → ℕ → ℕ → Type 0
Made h index p = ((h.weight p ≢ 0) × (p < 256)) ⊎ ((256 ≤ p) × (p < index))

-- `p` stands under its parent, which is a later node
abbrev pub Hangs : Huff → ℕ → ℕ → Type 0
Hangs h index p =
    (p < h.parent p)
    × (256 ≤ h.parent p)
    × (h.parent p < index)
    × ((h.lchild (h.parent p) ≡ p) ⊎ (h.rchild (h.parent p) ≡ p))

-- the nodes below `index` are made, and each of them is a root of the list or hangs under another
pub record Forest (h : Huff) (index : ℕ) (xs : List ℕ) : Type 0 where
  pub ring : Ring h.links head xs
  pub below : (p : ℕ) → has p xs ≡ true → p < index
  pub room : index + length xs ≤ 512
  pub inner : 256 ≤ index
  pub hangs : (p : ℕ) → Made h index p → has p xs ≡ false → Hangs h index p

pub is_eq : (p q : ℕ) → (p ≡ q) ⊎ (p ≢ q)
is_eq p q = ground arith

module _ (h : Huff) (index a b : ℕ) (ys : List ℕ) (f : Forest h index (a ∷ b ∷ ys)) where
  pub low : (a < index) × (b < index) × (index < 511)
  low = (f.below a (ground arith), f.below b (ground arith), omega (arith, f.room))

  apart : a ≢ b
  apart = ground (arith, f.ring.distinct.1.0)

  pub fresh : has index (head ∷ ys) ≡ false
  fresh = ground (arith, f.below index, low)

  -- the round leaves the nodes hanging, the two joined ones under the new node
  pub join-Hangs :
      (p : ℕ)
      → p ≢ index
      → Made (join_nodes index a b h) (suc index) p
      → has p ys ≡ false
      → Hangs (join_nodes index a b h) (suc index) p
  unfolding join_nodes
  join-Hangs p ne made out =
      let (above, above', room) = low in
      elim (is_eq p b) [
        | inl same ↦ ground (arith, f.inner)
        | inr other ↦ elim (is_eq p a) [
          | inl same ↦ ground (arith, f.inner, apart)
          | inr other' ↦
              let made' : Made h index p = ground arith in
              let (rises, inner, made_parent, link) = f.hangs p made' (ground arith) in ground arith
        ]
      ]
