-- ===== src/Sort/Merge.antt =====
-- The loop of `__merge_sort` that merges two halves in order.
use demo_class.Common.{
  lt_or_ge, ℕ, zero, suc, ◌+◌, ◌-◌, ◌≤◌, ◌<◌, ◌≡◌, refl, sym, ap, Bool, true, false, inl, inr, some,
  Ordering, arith, Bool-cases, ltb, leb, ◌&&◌,
}
use demo_class.Common.Order.{IsOrder, is_lt}
use demo_class.Sort.{Array, write, view, copy, merge_loop}
use demo_class.Sort.Elements.{Le, IsSorted, count, count-view, count-below, count-beyond}

module _ {ℓ} {A : Type ℓ} where
  pub view-copy :
      (len from i : ℕ) (a buf : Array A) (q : ℕ)
      → q < len
      → copy len from i a buf (i + q) ≡ a (from + q)
  view-copy len from i a buf q h =
      let inside : (leb i (i + q) && ltb (i + q) (i + len)) ≡ true = ground arith in
      let same : i + q - i ≡ q = omega arith in rw (inside, same) refl

  count-copy :
      (p : A → Bool) (len from i : ℕ) (a buf : Array A)
      → count p (i + len) (copy len from i a buf) + count p from a
        ≡ count p i buf + count p (from + len) a
  count-copy p len from i a buf =
      let b = copy len from i a buf in
      let before : count p i b ≡ count p i buf = count-below p i b buf (λ q h. ground arith) in
      let moved : count p len (view i b) ≡ count p len (view from a) =
        count-below p len (view i b) (view from a) (λ q h. view-copy len from i a buf q h) in
      omega (arith, count-view p i len b, count-view p from len a, before, moved)

  count-filled :
      (p : A → Bool) (len from i n end : ℕ) (a buf : Array A)
      → i + len ≡ n
      → from + len ≡ end
      → count p n (copy len from i a buf) + count p from a ≡ count p i buf + count p end a
  count-filled p len from i n end a buf e e' = rw (sym e, sym e') (count-copy p len from i a buf)

module _ {ℓ} {A : Type ℓ} (cmp : A → A → Ordering) (o : IsOrder cmp) where
  module _ (half n : ℕ) (a : Array A) (first : (x y : ℕ) → x < y → y < half → Le cmp (a x) (a y))
      (second : (x y : ℕ) → half ≤ x → x < y → y < n → Le cmp (a x) (a y)) where
    -- `buf` holds in order the first `l` elements and those from `half` to `r`, and none of the others
    -- is below any of them
    record Merging (l r i : ℕ) (buf : Array A) : Type ℓ where
      left : l ≤ half
      right : half ≤ r
      inside : r ≤ n
      filled : i + half ≡ l + r
      ordered : IsSorted cmp i buf
      below_left : (x y : ℕ) → x < i → l ≤ y → y < half → Le cmp (buf x) (a y)
      below_right : (x y : ℕ) → x < i → r ≤ y → y < n → Le cmp (buf x) (a y)
      counts : (p : A → Bool) → count p i buf + count p half a ≡ count p l a + count p r a

    abbrev pub IsMerged : Array A → Type ℓ
    IsMerged b = IsSorted cmp n b × ((p : A → Bool) → count p n b ≡ count p n a)

    take_left :
        (l r i : ℕ) (buf : Array A)
        → l < half
        → r < n
        → is_lt (cmp (a l) (a r)) ≡ true
        → Merging l r i buf
        → Merging (suc l) r (suc i) (write i (a l) buf)
    unfolding count
    take_left l r i buf h h' e m = record {
      left = omega arith;
      right = m.right;
      inside = m.inside;
      filled = omega (arith, m.filled);
      ordered = λ x y s t. ground (arith, m.ordered x y, m.below_left x l);
      below_left = λ x y s t u. ground (arith, m.below_left x y, first l y);
      below_right = λ x y s t u.
          ground (arith, m.below_right x y, second r y, m.right, o.trans (a l) (a r) (a y));
      counts = λ p. ground (arith, m.counts p, count-beyond p i i (a l) buf);
    }

    take_right :
        (l r i : ℕ) (buf : Array A)
        → l < half
        → r < n
        → is_lt (cmp (a l) (a r)) ≡ false
        → Merging l r i buf
        → Merging l (suc r) (suc i) (write i (a r) buf)
    unfolding count
    take_right l r i buf h h' e m = record {
      left = m.left;
      right = omega (arith, m.right);
      inside = omega arith;
      filled = omega (arith, m.filled);
      ordered = λ x y s t. ground (arith, m.ordered x y, m.below_right x r);
      below_left = λ x y s t u.
          ground
            (arith, m.below_left x y, first l y, o.flips (a l) (a r), o.trans (a r) (a l) (a y));
      below_right = λ x y s t u. ground (arith, m.below_right x y, second r y, m.right);
      counts = λ p. ground (arith, m.counts p, count-beyond p i i (a r) buf);
    }

    left_over :
        (l r i : ℕ) (buf : Array A)
        → l < half
        → r ≡ n
        → Merging l r i buf
        → IsMerged (copy (half - l) l i a buf)
    left_over l r i buf h e m = (
      λ x y s t. ground (
        arith,
        m.ordered x y,
        m.filled,
        m.below_left x (l + (y - i)),
        first (l + (x - i)) (l + (y - i)),
      ),
      λ p.
          let same : count p r a ≡ count p n a = ap (λ q. count p q a) e in
          omega (
            arith,
            m.counts p,
            same,
            count-filled p (half - l) l i n half a buf (omega (arith, m.filled)) (omega arith),
          ),
    )

    right_over :
        (l r i : ℕ) (buf : Array A)
        → half ≤ l
        → Merging l r i buf
        → IsMerged (copy (n - r) r i a buf)
    right_over l r i buf h m = (
      λ x y s t. ground (
        arith,
        m.ordered x y,
        m.filled,
        m.left,
        m.right,
        m.below_right x (r + (y - i)),
        second (r + (x - i)) (r + (y - i)),
      ),
      λ p.
          let met : l ≡ half = omega (arith, m.left) in
          let same : count p l a ≡ count p half a = ap (λ q. count p q a) met in
          omega (
            arith,
            m.counts p,
            same,
            count-filled p (n - r) r i n n a buf (omega (arith, m.filled, m.inside))
                (omega (arith, m.inside)),
          ),
    )

    merge_loop-IsMerged :
        (k l r i : ℕ) (buf : Array A)
        → (half - l) + (n - r) < k
        → Merging l r i buf
        → (b : Array A) × (merge_loop cmp k half n l r i a buf ≡ some b) × IsMerged b
    unfolding merge_loop
    merge_loop-IsMerged zero l r i buf h m = ground arith
    merge_loop-IsMerged (suc k) l r i buf h m = elim (lt_or_ge l half) [
      | inr done ↦
          let out : ltb l half ≡ false = ground arith in
          rw out (copy (n - r) r i a buf, refl, right_over l r i buf done m)
      | inl some_left ↦
          let in_left : ltb l half ≡ true = ground arith in
          elim (lt_or_ge r n) [
            | inr done ↦
                let out : ltb r n ≡ false = ground arith in
                rw (in_left, out)
                  (
                    copy (half - l) l i a buf,
                    refl,
                    left_over l r i buf some_left (omega (arith, m.inside)) m,
                  )
            | inl some_right ↦
                let in_right : ltb r n ≡ true = ground arith in
                elim (Bool-cases (is_lt (cmp (a l) (a r)))) [
                  | inl e ↦
                      rw (in_left, in_right, e)
                        (merge_loop-IsMerged k (suc l) r (suc i) (write i (a l) buf) (omega arith)
                          (take_left l r i buf some_left some_right e m))
                  | inr e ↦
                      rw (in_left, in_right, e)
                        (merge_loop-IsMerged k l (suc r) (suc i) (write i (a r) buf) (omega arith)
                          (take_right l r i buf some_left some_right e m))
                ]
          ]
    ]

    -- From the start the loop ends, with all the elements in order.
    pub merge_loop-start :
        (buf : Array A)
        → half ≤ n
        → (b : Array A) × (merge_loop cmp (n + 1) half n 0 half 0 a buf ≡ some b) × IsMerged b
    unfolding count
    merge_loop-start buf h = merge_loop-IsMerged (n + 1) 0 half 0 buf (omega arith) (record {
      left = omega arith;
      right = omega arith;
      inside = h;
      filled = omega arith;
      ordered = λ x y s t. ground arith;
      below_left = λ x y s t u. ground arith;
      below_right = λ x y s t u. ground arith;
      counts = λ p. refl;
    })
