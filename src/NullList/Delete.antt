-- ===== src/NullList/Delete.antt =====
-- `slist_del` takes a node out wherever it stands.
use demo_class.Common.{
  ℕ, zero, suc, ◌<◌, ◌≡◌, refl, ◌∙◌, true, false, some, List, [], ◌∷◌, ◌++◌, ◌==◌, arith, length,
}
use demo_class.Links.Seg.{has, IsDistinct, has-append}
use demo_class.SList.{Nodes, set_next}
use demo_class.SList.Chain.{Chain}
use demo_class.SList.Delete.{Chain-bypass}
use demo_class.NullList.{del_loop, slist_del, slist_is_empty}

-- behind `head` stand the nodes `xs`, none of them NULL
pub record Row (h : Nodes) (head : ℕ) (xs : List ℕ) : Type 0 where
  pub distinct : IsDistinct (head ∷ xs)
  pub given : has 0 (head ∷ xs) ≡ false
  pub linked : Chain h.next head xs 0

module _ (key : ℕ) (ys : List ℕ) (h : Nodes) where
  -- what a deletion behind `a` has done
  abbrev Deleted : ℕ → List ℕ → Nodes → Type 0
  Deleted a xs h' =
      Chain h'.next a (xs ++ ys) 0
      × ((p : ℕ) → has p (a ∷ (xs ++ key ∷ ys)) ≡ false → h'.next p ≡ h.next p)

  del_loop_lem :
      (xs : List ℕ) (k a : ℕ)
      → length xs < k
      → IsDistinct (a ∷ (xs ++ key ∷ ys))
      → has 0 (a ∷ (xs ++ key ∷ ys)) ≡ false
      → Chain h.next a (xs ++ key ∷ ys) 0
      → (h' : Nodes) × (del_loop k key a h ≡ some h') × Deleted a xs h'
  unfolding del_loop
  del_loop_lem xs zero a fuel dx out c = absurd (omega arith)
  del_loop_lem [] (suc k) a fuel dx out c =
      let more : (a == 0) ≡ false = ground arith in
      let hit : (key == key) ≡ true = ground arith in
      let h' = set_next key 0 (set_next a (h.next key) h) in
      rw (more, c.0, hit)
        (
          h',
          refl,
          (
            Chain-bypass h.next h'.next key a 0 ys (ground (arith, dx.0))
                (λ p at. ground (arith, dx.0, dx.1.0)) c.1,
            λ p away. ground arith,
          ),
        )
  del_loop_lem (x ∷ xs) (suc k) a fuel dx out c =
      let more : (a == 0) ≡ false = ground arith in
      let miss : (x == key) ≡ false = ground (arith, dx.1.0, has-append x xs (key ∷ ys)) in
      let (h', run, (rest, same)) = del_loop_lem xs k x (omega arith) dx.1 (ground arith) c.1 in
      rw (more, c.0, miss) (h', run, ((same a dx.0 ∙ c.0, rest), λ p away. same p (ground arith)))

-- `slist_del` ends with the node taken out of its list, wherever it stands.
pub slist_del-Chain :
    (h : Nodes) (head key k : ℕ) (xs ys : List ℕ)
    → Row h head (xs ++ key ∷ ys)
    → length xs < k
    → (h' : Nodes) × (slist_del k head key h ≡ some h') × Chain h'.next head (xs ++ ys) 0
unfolding slist_del slist_is_empty
slist_del-Chain h head key k [] ys r fuel =
    let some_node : (key == 0) ≡ false = ground (arith, r.given) in
    let hit : (key == key) ≡ true = ground arith in
    let h' = set_next key key (set_next head (h.next key) h) in
    rw (r.linked.0, some_node, hit)
      (
        h',
        refl,
        Chain-bypass h.next h'.next key head 0 ys (ground (arith, r.distinct.0))
            (λ p at. ground (arith, r.distinct.0, r.distinct.1.0)) r.linked.1,
      )
slist_del-Chain h head key k (x ∷ xs) ys r fuel =
    let some_node : (x == 0) ≡ false = ground (arith, r.given) in
    let miss : (x == key) ≡ false = ground (arith, r.distinct.1.0, has-append x xs (key ∷ ys)) in
    let (h', run, (rest, same)) =
      del_loop_lem key ys h xs k x (omega arith) r.distinct.1 (ground (arith, r.given))
        r.linked.1 in
    rw (r.linked.0, some_node, miss) (h', run, (same head r.distinct.0 ∙ r.linked.0, rest))
