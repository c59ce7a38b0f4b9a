-- ===== src/DList/Laws.antt =====
-- dlist.c keeps a list of data: each operation against the list that it stands for.
use demo_class.Common.{ℕ, ◌≡◌, ◌≢◌, refl, ◌∙◌, true, false, some, List, [], ◌∷◌, ◌++◌, arith, ◌==◌}
use demo_class.Links.{Links, set_next, set_prev, list_add, list_add_tail, list_del, list_head_init}
use demo_class.Links.Seg.{has}
use demo_class.Links.Ring.{Ring, list_add-Ring, list_add_tail-Ring, list_head_init-Ring}
use demo_class.DList.{
  Memory, null, link_front, link_back, unlink, dlist_add, dlist_add_tail, dlist_init, alloc,
}

-- With a node other than the head the assignments are those of list.h.
link_front-list_add :
    (head node : ℕ) (m : Links) → node ≢ head → link_front head node m ≡ list_add head node m
unfolding link_front list_add
link_front-list_add head node m ne =
    let other : (node == head) ≡ false = ground arith in
    let self : (node == node) ≡ true = ground arith in rw (other, self)

link_back-list_add_tail :
    (head node : ℕ) (m : Links) → node ≢ head → link_back head node m ≡ list_add_tail head node m
unfolding link_back list_add_tail
link_back-list_add_tail head node m ne =
    let other : (node == head) ≡ false = ground arith in
    let self : (node == node) ≡ true = ground arith in rw (other, self)

pub unlink-list_del :
    (node : ℕ) (m : Links)
    → m.next node ≢ node
    → m.prev node ≢ node
    → unlink node m ≡ list_del node m
unfolding unlink list_del
unlink-list_del node m n p =
    let not_next : (node == m.next node) ≡ false = ground arith in
    let not_prev : (node == m.prev node) ≡ false = ground arith in rw (not_next, not_prev)

-- the nodes `xs` are allocated and hold the data `ds`
pub data Holds {ℓ} {D : Type ℓ} (h : Memory D) : List ℕ → List D → Type ℓ where
  nil : Holds h [] []
  cons :
      {x : ℕ} {d : D} {xs : List ℕ} {ds : List D}
      → h.live x ≡ true
      → h.priv x ≡ some d
      → Holds h xs ds
      → Holds h (x ∷ xs) (d ∷ ds)

-- behind `head` stand the nodes `xs` with the data `ds`
pub record Rep {ℓ} {D : Type ℓ} (h : Memory D) (head : ℕ) (xs : List ℕ) (ds : List D) : Type ℓ where
  pub ring : Ring h.links head xs
  pub head_live : h.live head ≡ true
  pub holds : Holds h xs ds

module _ {ℓ} {D : Type ℓ} where
  not-live :
      (h : Memory D) (node : ℕ) {xs : List ℕ} {ds : List D}
      → h.live node ≡ false
      → Holds h xs ds
      → has node xs ≡ false
  not-live h node dead nil = refl
  not-live h node dead (cons {x} l p s) = ground (arith, not-live h node dead s)

  -- what is held survives a change at another address
  pub Holds-frame :
      (h h' : Memory D) (node : ℕ) {xs : List ℕ} {ds : List D}
      → ((p : ℕ) → (p == node) ≡ false → (h'.live p ≡ h.live p) × (h'.priv p ≡ h.priv p))
      → has node xs ≡ false
      → Holds h xs ds
      → Holds h' xs ds
  Holds-frame h h' node same out nil = nil
  Holds-frame h h' node same out (cons {x} l p s) =
      let (sl, sp) = same x (ground arith) in
      cons (sl ∙ l) (sp ∙ p) (Holds-frame h h' node same (ground arith) s)

  Holds-append :
      (h : Memory D) (xs ys : List ℕ) (ds es : List D)
      → Holds h xs ds
      → Holds h ys es
      → Holds h (xs ++ ys) (ds ++ es)
  Holds-append h xs ys ds es nil t = t
  Holds-append h xs ys ds es (cons l p s) t = cons l p (Holds-append h _ ys _ es s t)

  -- `dlist_init` makes an empty list, given a head from `malloc`.
  pub dlist_init-Rep :
      (head : ℕ) (h : Memory D)
      → head ≢ null
      → (h' : Memory D) × (dlist_init head h ≡ some h') × Rep h' head [] []
  unfolding dlist_init
  dlist_init-Rep head h ne =
      let given : (head == null) ≡ false = ground arith in
      (
        record (alloc head h) { links = set_prev head head (set_next head head h.links) },
        rw given,
        record {
          ring = unfold list_head_init in list_head_init-Ring head h.links;
          head_live = ground arith;
          holds = nil;
        },
      )

  module _ (node head : ℕ) (d : D) (h : Memory D) {xs : List ℕ} {ds : List D} (given : node ≢ null)
      (fresh : h.live node ≡ false) (r : Rep h head xs ds) where
    outside : has node (head ∷ xs) ≡ false
    outside = ground (arith, r.head_live, not-live h node fresh r.holds)

    -- `dlist_add` puts the data in front.
    pub dlist_add-Rep : Rep (dlist_add node head d h) head (node ∷ xs) (d ∷ ds)
    unfolding dlist_add
    dlist_add-Rep =
        let some_node : (node == null) ≡ false = ground arith in
        rw some_node (record {
          ring =
              rw (link_front-list_add head node h.links (ground (arith, outside)))
                (list_add-Ring h.links head node xs r.ring outside);
          head_live = ground (arith, r.head_live);
          holds =
              cons (ground arith) (ground arith)
                (Holds-frame h _ node (λ p e. (rw e, rw e)) (ground (arith, outside)) r.holds);
        })

    -- `dlist_add_tail` puts it behind.
    pub dlist_add_tail-Rep :
        Rep (dlist_add_tail node head d h) head (xs ++ node ∷ []) (ds ++ d ∷ [])
    unfolding dlist_add_tail
    dlist_add_tail-Rep =
        let some_node : (node == null) ≡ false = ground arith in
        rw some_node (record {
          ring =
              rw (link_back-list_add_tail head node h.links (ground (arith, outside)))
                (list_add_tail-Ring h.links head node xs r.ring outside);
          head_live = ground (arith, r.head_live);
          holds =
              Holds-append _ xs (node ∷ []) ds (d ∷ [])
                (Holds-frame h _ node (λ p e. (rw e, rw e)) (ground (arith, outside)) r.holds)
                (cons (ground arith) (ground arith) nil);
        })
