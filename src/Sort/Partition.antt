-- ===== src/Sort/Partition.antt =====
-- The loops of `__quick_sort` that part an array at its pivot.
use mathlib.Core.Path.{subst}
use demo_class.Common.{
  ℕ, zero, suc, ◌+◌, ◌-◌, ◌≤◌, ◌<◌, ◌≡◌, refl, inl, inr, some, Ordering, arith, Bool-cases,
}
use demo_class.Common.Order.{IsOrder, is_lt, is_gt}
use demo_class.Sort.{Array, write, from_right, from_left, partition}
use demo_class.Sort.Elements.{Le, Permuted, Permuted-trans, move-Permuted, Permuted-ext}

-- what `__quick_sort` has at its recursive calls
pub record Parted {ℓ} {A : Type ℓ} (cmp : A → A → Ordering) (n : ℕ) (a₀ : Array A) (l : ℕ)
    (b : Array A) : Type ℓ where
  pub inside : l < n
  pub low : (i : ℕ) → i < l → Le cmp (b i) (b l)
  pub high : (i : ℕ) → l < i → i < n → Le cmp (b l) (b i)
  pub perm : Permuted n b a₀

module _ {ℓ} {A : Type ℓ} (cmp : A → A → Ordering) (o : IsOrder cmp) (n : ℕ) (buf : A)
    (a₀ : Array A) where
  -- Left of `l` nothing is above the pivot and right of `l + d` nothing below it; with the pivot at
  -- `gap` the elements are those of `a₀`.
  record Parting (gap l d : ℕ) (a : Array A) : Type ℓ where
    inside : l + d < n
    low : (i : ℕ) → i < l → Le cmp (a i) buf
    high : (i : ℕ) → l + d < i → i < n → Le cmp buf (a i)
    perm : Permuted n (write gap buf a) a₀

  from_right-Parting :
      (d l : ℕ) (a : Array A)
      → Parting l l d a
      → let t = from_right cmp d l buf a in Parting (t.left + t.gap) t.left t.gap t.array
  unfolding from_right
  from_right-Parting zero l a p = let same : l + 0 ≡ l = omega arith in rw same p
  from_right-Parting (suc d) l a p = elim (Bool-cases (is_lt (cmp (a (l + suc d)) buf))) [
    | inl e ↦ rw e (record {
      inside = omega (arith, p.inside);
      low = λ i h. ground (arith, p.low i);
      high = λ i h h'. ground (arith, p.high i);
      perm =
          let same : suc l + d ≡ l + suc d = omega arith in
          rw same (
            Permuted-trans
              (move-Permuted n (l + suc d) l buf a (omega arith) p.inside (omega (arith, p.inside)))
              p.perm);
    })
    | inr e ↦ rw e (
        from_right-Parting d l a (record {
          inside = omega (arith, p.inside);
          low = p.low;
          high = λ i h h'. ground (arith, p.high i, o.flips (a (l + suc d)) buf);
          perm = p.perm;
        }))
  ]

  from_left-Parting :
      (d l : ℕ) (a : Array A)
      → Parting (l + d) l d a
      → let t = from_left cmp d l buf a in Parting t.left t.left t.gap t.array
  unfolding from_left
  from_left-Parting zero l a p =
      let same : l + 0 ≡ l = omega arith in subst (λ g. Parting g l 0 a) same p
  from_left-Parting (suc d) l a p = elim (Bool-cases (is_gt (cmp (a l) buf))) [
    | inl e ↦ rw e (record {
      inside = omega (arith, p.inside);
      low = λ i h. ground (arith, p.low i);
      high = λ i h h'. ground (arith, p.high i, o.flips (a l) buf);
      perm =
          Permuted-trans
            (move-Permuted n l (l + suc d) buf a (omega arith) (omega (arith, p.inside)) p.inside)
            p.perm;
    })
    | inr e ↦ rw e (
        from_left-Parting d (suc l) a (record {
          inside = omega (arith, p.inside);
          low = λ i h. ground (arith, p.low i);
          high = λ i h h'. ground (arith, p.high i);
          perm = let same : suc l + d ≡ l + suc d = omega arith in rw same p.perm;
        }))
  ]

  from_right-gap : (d l : ℕ) (a : Array A) → (from_right cmp d l buf a).gap ≤ d - 1
  unfolding from_right
  from_right-gap zero l a = omega arith
  from_right-gap (suc d) l a = ground (arith, from_right-gap d l a)

  from_left-gap : (d l : ℕ) (a : Array A) → (from_left cmp d l buf a).gap ≤ d
  unfolding from_left
  from_left-gap zero l a = omega arith
  from_left-gap (suc d) l a = ground (arith, from_left-gap d (suc l) a)

  partition-Parted :
      (k l d : ℕ) (a : Array A)
      → d < k
      → Parting l l d a
      → (r : ℕ × Array A) × (partition cmp k l d buf a ≡ some r) × Parted cmp n a₀ r.0 r.1
  unfolding partition
  partition-Parted zero l d a h p = ground arith
  partition-Parted (suc k) l zero a h p = (
    (l, write l buf a),
    refl,
    record {
      inside = omega (arith, p.inside);
      low = λ i h. ground (arith, p.low i);
      high = λ i h h'. ground (arith, p.high i);
      perm = p.perm;
    },
  )
  partition-Parted (suc k) l (suc d) a h p =
      let s = from_right cmp (suc d) l buf a in
      let t = from_left cmp s.gap s.left buf s.array in
      partition-Parted k t.left t.gap t.array
        (omega (arith, from_right-gap (suc d) l a, from_left-gap s.gap s.left s.array))
        (from_left-Parting s.gap s.left s.array (from_right-Parting (suc d) l a p))

-- The loops part an array of at least one element at its first.
pub whole-Parted {ℓ} :
    {A : Type ℓ} (cmp : A → A → Ordering)
    → IsOrder cmp
    → (n : ℕ) (a : Array A) → 0 < n
    → (r : ℕ × Array A) × (partition cmp n 0 (n - 1) (a 0) a ≡ some r) × Parted cmp n a r.0 r.1
whole-Parted cmp o n a h = partition-Parted cmp o n (a 0) a n 0 (n - 1) a (omega arith) (record {
  inside = omega arith;
  low = λ i l. ground arith;
  high = λ i l l'. ground arith;
  perm = Permuted-ext n (write 0 (a 0) a) a (λ i. ground arith);
})
