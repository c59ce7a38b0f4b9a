-- ===== src/Links/Splice.antt =====
-- A link put into a row, and taken out of it.
use demo_class.Common.{ℕ, ◌≡◌, refl, ap, ◌∙◌, false, List, [], ◌∷◌, ◌++◌, arith}
use demo_class.Links.{Links, list_insert, list_del}
use demo_class.Links.Seg.{
  has, IsDistinct, last, init, Seg, has-append, Distinct-append, has-init, last-not-init, has-last,
  Seg-append, Seg-frame,
}

-- what must hold of a row for a link to go in between `p`, its last so far, and `w`
pub record CanInsert (a : ℕ) (xs : List ℕ) (w : ℕ) (ws : List ℕ) (node : ℕ) : Type 0 where
  pub p_once : has (last a xs) (init a xs) ≡ false
  pub p_before : has (last a xs) (init w ws) ≡ false
  pub node_first : has node (a ∷ xs) ≡ false
  pub node_second : has node (w ∷ ws) ≡ false
  pub w_after : has w xs ≡ false
  pub w_once : has w ws ≡ false

not-init : (p a : ℕ) (xs : List ℕ) → has p (a ∷ xs) ≡ false → has p (init a xs) ≡ false
not-init p a xs h = ground (arith, has-init p a xs)

pub insert-Seg :
    (m : Links) (a : ℕ) (xs : List ℕ) (w : ℕ) (ws : List ℕ) (node : ℕ)
    → CanInsert a xs w ws node
    → Seg m a (xs ++ w ∷ ws)
    → Seg (list_insert node (last a xs) w m) a (xs ++ node ∷ w ∷ ws)
unfolding list_insert
insert-Seg m a xs w ws node c s =
    let (s₁, s₂) = (Seg-append m a xs (w ∷ ws)).0 s in
    let n₁ = not-init node a xs c.node_first in
    let n₂ = not-init node w ws c.node_second in
    let m' = list_insert node (last a xs) w m in
    let ends = has-last a xs in
    (Seg-append m' a xs (node ∷ w ∷ ws)).1 (
      Seg-frame m m' a xs (λ q h. ground (arith, c.p_once, n₁))
          (λ q h. ground (arith, c.w_after, c.node_first)) s₁,
      (
        (ground arith, ground arith),
        (
          (ground arith, ground arith),
          Seg-frame m m' w ws (λ q h. ground (arith, c.p_before, n₂))
              (λ q h. ground (arith, c.w_once, c.node_second)) s₂.1,
        ),
      ),
    )

pub init-snoc : (a h : ℕ) (xs : List ℕ) → init a (xs ++ h ∷ []) ≡ a ∷ xs
init-snoc a h [] = refl
init-snoc a h (x ∷ xs) = ap (λ (zs : List ℕ). a ∷ zs) (init-snoc x h xs)

-- the link that comes after the first part of a ring
abbrev pub following : ℕ → List ℕ → ℕ
following head [] = head
following head (y ∷ ys) = y

abbrev pub after : ℕ → List ℕ → List ℕ
after head [] = []
after head (y ∷ ys) = ys ++ head ∷ []

pub following-after : (head : ℕ) (ys : List ℕ) → following head ys ∷ after head ys ≡ ys ++ head ∷ []
following-after head [] = refl
following-after head (y ∷ ys) = refl

init-following : (head : ℕ) (ys : List ℕ) → init (following head ys) (after head ys) ≡ ys
init-following head [] = refl
init-following head (y ∷ ys) = init-snoc y head ys

not-mem-following :
    (head : ℕ) (xs ys : List ℕ)
    → IsDistinct (head ∷ (xs ++ ys))
    → has (following head ys) xs ≡ false
not-mem-following head xs [] d = ground (arith, has-append head xs [])
not-mem-following head xs (y ∷ ys) d =
    let (dx, dy, apart) = Distinct-append xs (y ∷ ys) d.1 in ground (arith, apart y)

not-mem-after :
    (head : ℕ) (ys : List ℕ)
    → IsDistinct (head ∷ ys)
    → has (following head ys) (after head ys) ≡ false
not-mem-after head [] d = refl
not-mem-after head (y ∷ ys) d = ground (arith, has-append y ys (head ∷ []))

pub ring-CanInsert :
    (head : ℕ) (xs ys : List ℕ) (node : ℕ)
    → IsDistinct (head ∷ (xs ++ ys))
    → has node (head ∷ (xs ++ ys)) ≡ false
    → CanInsert head xs (following head ys) (after head ys) node
ring-CanInsert head xs ys node d fresh =
    let (dx, dy, apart) = Distinct-append xs ys d.1 in
    let p = last head xs in
    let before : has p ys ≡ false =
      ground (arith, has-last head xs, has-append head xs ys, apart p) in
    let tail : has node (ys ++ head ∷ []) ≡ false =
      ground (arith, has-append node xs ys, has-append node ys (head ∷ [])) in
    record {
      p_once = last-not-init head xs (ground (arith, has-append head xs ys), dx);
      p_before = rw init-following before;
      node_first = ground (arith, has-append node xs ys);
      node_second = ap (has node) (following-after head ys) ∙ tail;
      w_after = not-mem-following head xs ys d;
      w_once = not-mem-after head ys (ground (arith, has-append head xs ys), dy);
    }

-- a link taken out between `p` and `w`
pub del-Seg :
    (m : Links) (a : ℕ) (xs : List ℕ) (w : ℕ) (ws : List ℕ) (node : ℕ)
    → CanInsert a xs w ws node
    → Seg m a (xs ++ node ∷ w ∷ ws)
    → Seg (list_del node m) a (xs ++ w ∷ ws)
unfolding list_del
del-Seg m a xs w ws node c s =
    let (s₁, s₂) = (Seg-append m a xs (node ∷ w ∷ ws)).0 s in
    let m' = list_del node m in
    let ends = has-last a xs in
    let from : m.prev node ≡ last a xs = s₂.0.1 in
    let to : m.next node ≡ w = s₂.1.0.0 in
    (Seg-append m' a xs (w ∷ ws)).1 (
      Seg-frame m m' a xs (λ q h. ground (arith, c.p_once))
          (λ q h. ground (arith, c.w_after, c.node_first)) s₁,
      (
        (ground arith, ground arith),
        Seg-frame m m' w ws (λ q h. ground (arith, c.p_before))
            (λ q h. ground (arith, c.w_once, c.node_first)) s₂.1.1,
      ),
    )
