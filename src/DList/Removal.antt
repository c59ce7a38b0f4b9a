-- ===== src/DList/Removal.antt =====
-- dlist.c: nodes taken out, one or all, and the search.
use demo_class.Common.{
  ℕ, zero, suc, ◌<◌, ◌≡◌, refl, ap, ◌∙◌, Bool, true, false, some, List, [], ◌∷◌, ◌++◌, arith,
  length, ◌==◌, if◌then◌else◌,
}
use demo_class.Links.{Links, list_del}
use demo_class.Links.Seg.{has, Seg}
use demo_class.Links.Splice.{following}
use demo_class.Links.Ring.{
  Ring, Ring-frame, list_del-Ring, Distinct-delete, first-Ring, neighbours-Ring,
}
use demo_class.DList.{
  Memory, null, free, unlink, dlist_del, dlist_destroy, dlist_for_each_safe, dlist_find,
}
use demo_class.DList.Laws.{Holds, cons, Rep, Holds-frame, unlink-list_del}

-- the first of the nodes that match, or NULL
abbrev pub first_match : (ℕ → Bool) → List ℕ → ℕ
first_match match [] = null
first_match match (x ∷ xs) = if match x then x else first_match match xs

module _ {ℓ} {D : Type ℓ} where
  Holds-delete :
      (h : Memory D) (node : ℕ) (xs ys : List ℕ) (ds es : List D) (d : D)
      → length xs ≡ length ds
      → Holds h (xs ++ node ∷ ys) (ds ++ d ∷ es)
      → Holds h (xs ++ ys) (ds ++ es)
  Holds-delete h node [] ys [] es d e (cons l p s) = s
  Holds-delete h node [] ys (d' ∷ ds) es d e s = absurd (omega arith)
  Holds-delete h node (x ∷ xs) ys [] es d e s = absurd (omega arith)
  Holds-delete h node (x ∷ xs) ys (d' ∷ ds) es d e (cons l p s) =
      cons l p (Holds-delete h node xs ys ds es d (omega arith) s)

  module _ (h : Memory D) (head node : ℕ) (xs ys : List ℕ) where
    pub dlist_del-Ring :
        Ring h.links head (xs ++ node ∷ ys) → Ring (dlist_del node h).links head (xs ++ ys)
    unfolding dlist_del
    dlist_del-Ring r =
        let (n, p) = neighbours-Ring h.links head node xs ys r in
        let (d, fresh) = Distinct-delete head node xs ys r.distinct in
        let same : unlink node h.links ≡ list_del node h.links = unlink-list_del node h.links n p in
        Ring-frame (list_del node h.links) _ head (xs ++ ys)
          (λ q e.
            let ne : (q == node) ≡ false = ground arith in
            (rw ne (ap (λ (l : Links). l.next q) same), rw ne (ap (λ (l : Links). l.prev q) same)))
          (list_del-Ring h.links head node xs ys r)

    -- `dlist_del` takes a node out of its list, with its data, wherever it stands, and frees it.
    pub dlist_del-Rep :
        (ds es : List D) (d : D)
        → length xs ≡ length ds
        → Rep h head (xs ++ node ∷ ys) (ds ++ d ∷ es)
        → Rep (dlist_del node h) head (xs ++ ys) (ds ++ es) × ((dlist_del node h).live node ≡ false)
    unfolding dlist_del
    dlist_del-Rep ds es d e r =
        let (dist, fresh) = Distinct-delete head node xs ys r.ring.distinct in
        (
          record {
            ring = dlist_del-Ring r.ring;
            head_live = ground (arith, r.head_live);
            holds =
                Holds-frame h _ node (λ p n. (rw n, refl)) (ground arith)
                  (Holds-delete h node xs ys ds es d e r.holds);
          },
          ground arith,
        )

  live-dlist_del :
      (h : Memory D) (x p : ℕ) → (dlist_del x h).live p ≡ (if p == x then false else h.live p)
  unfolding dlist_del
  live-dlist_del h x p = refl

  next-following :
      (h : Memory D) (head x : ℕ) (xs : List ℕ)
      → Ring h.links head (x ∷ xs)
      → h.links.next x ≡ following head xs
  next-following h head x [] r = r.linked.1.0.0
  next-following h head x (y ∷ xs) r = r.linked.1.0.0

  -- The walk that `dlist_destroy` makes, from the first of the nodes that are left.
  destroy_loop :
      (h : Memory D) (head k : ℕ) (xs : List ℕ)
      → Ring h.links head xs
      → length xs < k
      → (h' : Memory D) × (dlist_for_each_safe k head dlist_del (following head xs) h ≡ some h')
        × ((p : ℕ) → h'.live p ≡ (if has p xs then false else h.live p))
  unfolding dlist_for_each_safe
  destroy_loop h head zero xs r fuel = absurd (omega arith)
  destroy_loop h head (suc k) [] r fuel =
      let home : (head == head) ≡ true = ground arith in (h, rw home, λ p. refl)
  destroy_loop h head (suc k) (x ∷ xs) r fuel =
      let (h', run, dead) =
        destroy_loop (dlist_del x h) head k xs (dlist_del-Ring h head x [] xs r) (omega arith) in
      let away : (x == head) ≡ false = ground arith in
      (
        h',
        rw away (
            ap (λ (c : ℕ). dlist_for_each_safe k head dlist_del c (dlist_del x h))
              (next-following h head x xs r)
            ∙ run),
        λ p. ground (arith, dead p, live-dlist_del h x p),
      )

  -- `dlist_destroy` ends, frees the head and every node of the list, and nothing else.
  pub dlist_destroy-frees :
      (h : Memory D) (head k : ℕ) (xs : List ℕ)
      → Ring h.links head xs
      → length xs < k
      → (h' : Memory D) × (dlist_destroy k head h ≡ some h')
        × ((p : ℕ) → h'.live p ≡ (if has p (head ∷ xs) then false else h.live p))
  unfolding dlist_destroy
  dlist_destroy-frees h head k xs r fuel =
      let (h', run, dead) = destroy_loop h head k xs r fuel in
      let path =
        ap (λ (c : ℕ). dlist_for_each_safe k head dlist_del c h) (first-Ring h.links head xs r)
        ∙ run in
      (free head h', rw (path, dlist_destroy), λ p. ground (arith, dead p))

  find_loop :
      (h : Memory D) (head k a : ℕ) (match : ℕ → Bool) (xs : List ℕ)
      → Seg h.links a (xs ++ head ∷ [])
      → has head xs ≡ false
      → length xs < k
      → dlist_find k head match (h.links.next a) h ≡ some (first_match match xs)
  unfolding dlist_find
  find_loop h head zero a match xs s out fuel = absurd (omega arith)
  find_loop h head (suc k) a match [] s out fuel =
      let home : (head == head) ≡ true = ground arith in
      let step : dlist_find (suc k) head match head h ≡ some null = rw home in
      ap (λ (c : ℕ). dlist_find (suc k) head match c h) s.0.0 ∙ step
  find_loop h head (suc k) a match (x ∷ xs) s out fuel =
      let more : (x == head) ≡ false = ground arith in
      let rest = find_loop h head k x match xs s.1 (ground arith) (omega arith) in
      let step : dlist_find (suc k) head match x h ≡ some (first_match match (x ∷ xs)) =
        rw more (ground (arith, rest)) in
      ap (λ (c : ℕ). dlist_find (suc k) head match c h) s.0.0 ∙ step

  -- `dlist_find` ends, and gives the first node that matches, NULL if none does.
  pub dlist_find-first_match :
      (h : Memory D) (head k : ℕ) (match : ℕ → Bool) (xs : List ℕ)
      → Ring h.links head xs
      → length xs < k
      → dlist_find k head match (h.links.next head) h ≡ some (first_match match xs)
  dlist_find-first_match h head k match xs r fuel =
      find_loop h head k head match xs r.linked r.distinct.0 fuel
