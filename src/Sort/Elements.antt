-- ===== src/Sort/Elements.antt =====
-- What a sort of an array promises: the elements in order, and the same elements as before.
use mathlib.Core.Path.{subst}
use demo_class.Common.{
  ℕ, zero, suc, ◌+◌, ◌-◌, ◌≤◌, ◌<◌, ◌≡◌, ◌≢◌, refl, ◌∙◌, ◌⊎◌, inl, inr, Bool, true, false, Ordering,
  arith, ltb, false,
}
use demo_class.Common.Order.{is_le}
use demo_class.Sort.{Array, write, swap, view, splice}

abbrev pub bit : Bool → ℕ
bit true = 1
bit false = 0

pub below_or_last : {i n : ℕ} → i < suc n → (i < n) ⊎ (n ≡ i)
below_or_last {i} {n} h = ground arith

le_cases : {m n : ℕ} → m ≤ suc n → (m ≤ n) ⊎ (m ≡ suc n)
le_cases {m} {n} h = ground arith

module _ {ℓ} {A : Type ℓ} (cmp : A → A → Ordering) where
  -- `x` may stand before `y`
  abbrev pub Le : A → A → Type 0
  Le x y = is_le (cmp x y) ≡ true

  -- the first `n` elements are in order
  abbrev pub IsSorted : ℕ → Array A → Type 0
  IsSorted n a = (i j : ℕ) → i < j → j < n → Le (a i) (a j)

module _ {ℓ} {A : Type ℓ} where
  -- how many of the first `n` elements pass a test
  unfoldable pub count : (A → Bool) → ℕ → Array A → ℕ
  count p zero a = 0
  count p (suc n) a = count p n a + bit (p (a n))

  -- `b` holds the elements of `a` in some order, and is `a` from `n` on
  pub record Permuted (n : ℕ) (b a : Array A) : Type ℓ where
    pub counts : (p : A → Bool) → count p n b ≡ count p n a
    pub others : (i : ℕ) → n ≤ i → b i ≡ a i

  pub Permuted-refl : (n : ℕ) (a : Array A) → Permuted n a a
  Permuted-refl n a = record { counts = λ p. refl; others = λ i h. refl }

  pub Permuted-trans : {n : ℕ} {c b a : Array A} → Permuted n c b → Permuted n b a → Permuted n c a
  Permuted-trans s t = record {
    counts = λ p. s.counts p ∙ t.counts p;
    others = λ i h. s.others i h ∙ t.others i h;
  }

  pub count-beyond :
      (p : A → Bool) (n i : ℕ) (v : A) (a : Array A) → n ≤ i → count p n (write i v a) ≡ count p n a
  unfolding count
  count-beyond p zero i v a h = refl
  count-beyond p (suc n) i v a h = ground (arith, count-beyond p n i v a (omega arith))

  pub count-write :
      (p : A → Bool) (n i : ℕ) (v : A) (a : Array A)
      → i < n
      → count p n (write i v a) + bit (p (a i)) ≡ count p n a + bit (p v)
  unfolding count
  count-write p zero i v a h = ground arith
  count-write p (suc n) i v a h = elim (below_or_last h) [
    | inl below ↦ ground (arith, count-write p n i v a below)
    | inr last ↦ ground (arith, count-beyond p n i v a)
  ]

  pub swap-Permuted : (n i j : ℕ) (a : Array A) → i < n → j < n → Permuted n (swap i j a) a
  unfolding swap
  swap-Permuted n i j a hi hj = record {
    counts = λ p.
        ground (arith, count-write p n j (a i) (write i (a j) a) hj, count-write p n i (a j) a hi);
    others = λ q h. ground arith;
  }

  -- an element that moves from `i` to `j` while `buf` moves the other way
  pub move-Permuted :
      (n i j : ℕ) (buf : A) (a : Array A)
      → i ≢ j
      → i < n
      → j < n
      → Permuted n (write i buf (write j (a i) a)) (write j buf a)
  move-Permuted n i j buf a ne h h' = record {
    counts = λ p. ground (
      arith,
      count-write p n i buf (write j (a i) a) h,
      count-write p n j (a i) a h',
      count-write p n j buf a h',
    );
    others = λ q l. ground arith;
  }

  pub view-splice : (m : ℕ) (b a : Array A) (i : ℕ) → view m (splice m b a) i ≡ b i
  view-splice m b a i =
      let behind : ltb (m + i) m ≡ false = ground arith in
      let same : m + i - m ≡ i = omega arith in rw (behind, same) refl

  count-le : (p : A → Bool) (n : ℕ) (a : Array A) → count p n a ≤ n
  unfolding count
  count-le p zero a = omega arith
  count-le p (suc n) a = ground (arith, count-le p n a)

  count-all :
      (p : A → Bool) (n : ℕ) (a : Array A) → ((i : ℕ) → i < n → p (a i) ≡ true) → count p n a ≡ n
  unfolding count
  count-all p zero a all = refl
  count-all p (suc n) a all =
      ground (arith, count-all p n a (λ i h. all i (omega arith)), all n (omega arith))

  all-count :
      (p : A → Bool) (n : ℕ) (a : Array A) → count p n a ≡ n → (i : ℕ) → i < n → p (a i) ≡ true
  unfolding count
  all-count p zero a e i h = ground arith
  all-count p (suc n) a e i h = elim (below_or_last h) [
    | inl below ↦ all-count p n a (ground (arith, count-le p n a)) i below
    | inr last ↦ ground (arith, count-le p n a)
  ]

  -- what holds of each of the first `n` elements holds of them when they have changed places
  pub Permuted-all :
      (p : A → Bool) (n : ℕ) (b a : Array A)
      → Permuted n b a
      → ((i : ℕ) → i < n → p (a i) ≡ true)
      → (i : ℕ) → i < n
      → p (b i) ≡ true
  Permuted-all p n b a s all = all-count p n b (s.counts p ∙ count-all p n a all)

  count-widen :
      (p : A → Bool) (m n : ℕ) (b a : Array A) → Permuted m b a → m ≤ n → count p n b ≡ count p n a
  unfolding count
  count-widen p m zero b a s h = refl
  count-widen p m (suc n) b a s h = elim (le_cases h) [
    | inl below ↦ ground (arith, count-widen p m n b a s below, s.others n below)
    | inr same ↦ subst (λ k. count p k b ≡ count p k a) same (s.counts p)
  ]

  pub Permuted-widen : {m n : ℕ} {b a : Array A} → m ≤ n → Permuted m b a → Permuted n b a
  Permuted-widen {m} {n} {b} {a} h s = record {
    counts = λ p. count-widen p m n b a s h;
    others = λ i k. s.others i (omega arith);
  }

  count-ext :
      (p : A → Bool) (n : ℕ) {b a : Array A} → ((i : ℕ) → b i ≡ a i) → count p n b ≡ count p n a
  unfolding count
  count-ext p zero same = refl
  count-ext p (suc n) same = ground (arith, count-ext p n same, same n)

  pub Permuted-ext : (n : ℕ) (b a : Array A) → ((i : ℕ) → b i ≡ a i) → Permuted n b a
  Permuted-ext n b a same = record { counts = λ p. count-ext p n same; others = λ i h. same i }

  pub count-below :
      (p : A → Bool) (m : ℕ) (b a : Array A)
      → ((i : ℕ) → i < m → b i ≡ a i)
      → count p m b ≡ count p m a
  unfolding count
  count-below p zero b a same = refl
  count-below p (suc m) b a same =
      ground (arith, count-below p m b a (λ i h. same i (omega arith)), same m (omega arith))

  pub count-view :
      (p : A → Bool) (m k : ℕ) (a : Array A)
      → count p (m + k) a ≡ count p m a + count p k (view m a)
  unfolding count
  count-view p m zero a = let same : m + 0 ≡ m = omega arith in rw same (omega arith)
  count-view p m (suc k) a =
      let same : m + suc k ≡ suc (m + k) = omega arith in
      rw same (ground (arith, count-view p m k a))

  -- a change of place from `m` on
  pub Permuted-view :
      (m k : ℕ) (b a : Array A)
      → ((i : ℕ) → i < m → b i ≡ a i)
      → Permuted k (view m b) (view m a)
      → Permuted (m + k) b a
  Permuted-view m k b a same s = record {
    counts = λ p.
        let before : count p m b ≡ count p m a = count-below p m b a same in
        ground (arith, count-view p m k b, count-view p m k a, s.counts p);
    others = λ i h.
        let at : m + (i - m) ≡ i = omega arith in
        subst (λ q. b q ≡ a q) at (s.others (i - m) (omega arith));
  }

-- a sort of the first `n` elements has made `b` of `a`
abbrev pub SortOf {ℓ} : {A : Type ℓ} → (A → A → Ordering) → ℕ → Array A → Array A → Type ℓ
SortOf cmp n b a = IsSorted cmp n b × Permuted n b a
