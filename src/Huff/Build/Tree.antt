-- ===== src/Huff/Build/Tree.antt =====
-- `hf_build_hufftree` ends with one tree.
use mathlib.Core.Path.{subst}
use demo_class.Common.{
  ℕ, zero, suc, ◌+◌, ◌≤◌, ◌<◌, ◌≡◌, ◌≢◌, refl, sym, ap, ◌∙◌, inl, inr, true, false, ◌||◌, some,
  List, [], ◌∷◌, ◌++◌, arith, length, length-append, ◌==◌,
}
use demo_class.Links.{Links, list_del_init}
use demo_class.Links.Seg.{has, has-append}
use demo_class.Links.Ring.{first-Ring}
use demo_class.Links.Beside.{next-Ring}
use demo_class.Links.Walk.{list_del_init-Ring}
use demo_class.Huff.{Huff, head, join_nodes, list_node_cmp, list_add_with_sort, tree_loop}
use demo_class.Huff.Build.Lists.{list_add_with_sort-PutIn}
use demo_class.Huff.Build.Forest.{Forest, fresh, is_eq, join-Hangs}

-- a round of the loop, with `m` for the list that it leaves
abbrev joined : ℕ → ℕ → ℕ → Links → Huff → Huff
joined index a b m h = record (join_nodes index a b h) { links = m }

-- the nodes `a` and `b` are joined, and what is left of the list is `m`
abbrev Joins : ℕ → Huff → Links → ℕ → ℕ → Type 0
Joins index h m a b =
    list_add_with_sort (list_node_cmp (join_nodes index a b h).weight) index
      (list_del_init b (list_del_init a h.links))
    ≡ some m

abbrev Step : ℕ → ℕ → Huff → Links → ℕ → ℕ → Type 0
Step k index h m a b =
    b ≢ head
    → Joins index h m a b
    → tree_loop (suc k) index h ≡ tree_loop k (suc index) (joined index a b m h)

first_two-Step :
    (k index : ℕ) (h : Huff) (m : Links)
    → Step k index h m (h.links.next head) (h.links.next (h.links.next head))
unfolding tree_loop
first_two-Step k index h m ne run =
    let more : (h.links.next (h.links.next head) == head) ≡ false = ground arith in
    rw (more, tree_loop, run) refl

tree_loop-Step :
    (k index : ℕ) (h : Huff) (a b : ℕ) (m : Links)
    → h.links.next head ≡ a
    → h.links.next a ≡ b
    → Step k index h m a b
tree_loop-Step k index h a b m first second =
    subst (λ q. h.links.next q ≡ b → Step k index h m q b) first
      (λ e. subst (Step k index h m (h.links.next head)) e (first_two-Step k index h m)) second

tree_loop-end :
    (k index : ℕ) (h : Huff)
    → h.links.next (h.links.next head) ≡ head
    → tree_loop (suc k) index h ≡ some (index, h)
unfolding tree_loop
tree_loop-end k index h e =
    let over : (h.links.next (h.links.next head) == head) ≡ true = ground arith in
    rw (over, tree_loop) refl

put_in-has :
    (p node : ℕ) (us vs ys : List ℕ)
    → us ++ vs ≡ ys
    → (has p (us ++ node ∷ vs) ≡ (p == node || has p ys))
      × (length (us ++ node ∷ vs) ≡ suc (length ys))
put_in-has p node us vs ys same = (
  subst (λ q. has p (us ++ node ∷ vs) ≡ (p == node || has p q)) same
      (ground (arith, has-append p us (node ∷ vs), has-append p us vs)),
  omega (arith, length-append us (node ∷ vs), length-append us vs, ap length same),
)

module _ (h : Huff) (index a b : ℕ) (ys : List ℕ) (f : Forest h index (a ∷ b ∷ ys)) where
  -- a round takes the first two trees out and puts their union in
  round-Forest :
      (m : Links) × (zs : List ℕ) × Joins index h m a b
      × (length zs ≡ suc (length ys))
      × Forest (joined index a b m h) (suc index) zs
  round-Forest =
      let (ring₁, _) = list_del_init-Ring h.links head a [] (b ∷ ys) f.ring in
      let (ring₂, _) = list_del_init-Ring (list_del_init a h.links) head b [] ys ring₁ in
      let new = fresh h index a b ys f in
      let (m, run, (us, vs, same, ring)) =
        list_add_with_sort-PutIn (list_node_cmp (join_nodes index a b h).weight)
          (list_del_init b (list_del_init a h.links)) index ys ring₂ new
          (omega (arith, f.room, f.inner)) in
      let zs = us ++ index ∷ vs in
      (
        m,
        zs,
        run,
        (put_in-has 0 index us vs ys same).1,
        record {
          ring = ring;
          below = λ p here. ground (arith, (put_in-has p index us vs ys same).0, f.below p);
          room = omega (arith, f.room, (put_in-has 0 index us vs ys same).1);
          inner = omega (arith, f.inner);
          hangs = λ p made out.
              let (e, _) = put_in-has p index us vs ys same in
              join-Hangs h index a b ys f p (ground arith) made (ground arith);
        },
      )

-- what the loop leaves as it was
abbrev pub Keeps : Huff → Huff → Type 0
Keeps h h' =
    (h'.code ≡ h.code) × (h'.code_len ≡ h.code_len) × ((p : ℕ) → p < 256 → h'.weight p ≡ h.weight p)

join-Keeps :
    (h h' : Huff) (index a b : ℕ) (m : Links)
    → 256 ≤ index
    → Keeps (joined index a b m h) h'
    → Keeps h h'
unfolding join_nodes
join-Keeps h h' index a b m high (code, len, weight) =
    (code, len, λ p low. ground (arith, weight p low))

last_root : (h : Huff) (index x : ℕ) → Forest h (suc index) (x ∷ []) → 256 ≤ index → x ≡ index
last_root h index x f high = elim (is_eq index x) [
  | inl same ↦ sym same
  | inr other ↦
      let (rises, inner, made, _) = f.hangs index (inr (high, omega arith)) (ground arith) in
      absurd (omega (arith, rises, made))
]

-- One tree is left, whose root is the node made last; the fuel is the number of trees.
pub tree_loop-Forest :
    (k index : ℕ) (h : Huff) (xs : List ℕ)
    → Forest h index xs
    → 1 ≤ length xs
    → 258 ≤ index + length xs
    → length xs ≤ k
    → (root : ℕ) × (h' : Huff) × (tree_loop k index h ≡ some (suc root, h'))
      × Forest h' (suc root) (root ∷ [])
      × (256 ≤ root)
      × Keeps h h'
tree_loop-Forest k index h [] f some_tree two enough = absurd (omega arith)
tree_loop-Forest zero index h (x ∷ xs) f some_tree two enough = absurd (omega arith)
tree_loop-Forest (suc k) zero h (x ∷ []) f some_tree two enough = absurd (omega (arith, f.inner))
tree_loop-Forest (suc k) (suc index) h (x ∷ []) f some_tree two enough =
    let first = first-Ring h.links head (x ∷ []) f.ring in
    let back = next-Ring h.links head x [] [] f.ring in
    let root = last_root h index x f (omega arith) in
    (
      index,
      h,
      tree_loop-end k (suc index) h (ap h.links.next first ∙ back),
      subst (λ q. Forest h (suc index) (q ∷ [])) root f,
      omega arith,
      (refl, refl, λ p low. refl),
    )
tree_loop-Forest (suc k) index h (a ∷ b ∷ ys) f some_tree two enough =
    let (m, zs, run, size, f') = round-Forest h index a b ys f in
    let ne : b ≢ head = ground (arith, f.ring.distinct.0) in
    let (root, h', rest, forest, high, keeps) =
      tree_loop-Forest k (suc index) (joined index a b m h) zs f' (omega arith) (omega arith)
        (omega arith) in
    (
      root,
      h',
      tree_loop-Step k index h a b m (first-Ring h.links head (a ∷ b ∷ ys) f.ring)
            (next-Ring h.links head a [] (b ∷ ys) f.ring) ne run
          ∙ rest,
      forest,
      high,
      join-Keeps h h' index a b m f.inner keeps,
    )
