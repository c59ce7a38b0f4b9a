-- ===== src/BTree/Distinct.antt =====
-- The nodes of a tree lie at different addresses, none of them NULL.
use demo_class.Common.{ℕ, ◌≡◌, ◌≢◌, Bool, true, false, ◌||◌, ◌==◌}
use demo_class.BTree.{Tree, nil, bnode}

module _ {ℓ} {A : Type ℓ} where
  abbrev pub has : ℕ → Tree A → Bool
  has p nil = false
  has p (bnode l n r) = (n.addr == p) || (has p l || has p r)

  abbrev pub IsDistinct : Tree A → Type 0
  IsDistinct nil = Unit
  IsDistinct (bnode l n r) =
      (n.addr ≢ 0)
      × ((p : ℕ) → has p l ≡ true → has p r ≡ false)
      × (has n.addr l ≡ false)
      × (has n.addr r ≡ false)
      × IsDistinct l
      × IsDistinct r
