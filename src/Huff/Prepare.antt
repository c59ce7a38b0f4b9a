-- ===== src/Huff/Prepare.antt =====
-- The four steps of `huff_prepare`, and the table that they leave.
use demo_class.Common.{
  ℕ, zero, suc, ◌+◌, ◌-◌, ◌%◌, ◌^◌, ◌≤◌, ◌<◌, ◌≡◌, ◌≢◌, refl, sym, ◌∙◌, inl, inr, true, some, List,
  [], ◌∷◌, arith, length, ◌==◌, if◌then◌else◌,
}
use demo_class.Links.{Links, update}
use demo_class.Links.Seg.{has}
use demo_class.Links.Ring.{Ring}
use demo_class.ListSort.Insert.{insertion, insert_sort-insertion}
use demo_class.ListSort.Ordered.{has-insertion, length-insertion}
use demo_class.Huff.{
  Huff, head, fuel, list_node_cmp, hf_statistic_weight, hf_build_sort_list, sort_list_loop,
}
use demo_class.Huff.Climb.{Climbs, Climbing}
use demo_class.Huff.Build.Lists.{sort_list_loop-Used}
use demo_class.Huff.Build.Forest.{Forest, is_eq}

-- how often a byte occurs
abbrev pub count : ℕ → List ℕ → ℕ
count b [] = 0
count b (x ∷ xs) = (if b == x then 1 else 0) + count b xs

pub has-count : (b : ℕ) (src : List ℕ) → has b src ≡ true → 1 ≤ count b src
has-count b [] h = absurd (cc)
has-count b (x ∷ xs) h = ground (arith, has-count b xs)

module _ (h : Huff) where
  -- `hf_statistic_weight` counts the bytes, as long as no weight wraps around.
  pub hf_statistic_weight-count :
      (src : List ℕ) (weight : ℕ → ℕ)
      → ((q : ℕ) → weight q + length src < 2 ^ 64)
      → (weight' : ℕ → ℕ) × (hf_statistic_weight src (record h { weight = weight })
          ≡ record h { weight = weight' })
        × ((q : ℕ) → weight' q ≡ weight q + count q src)
  unfolding hf_statistic_weight
  hf_statistic_weight-count [] weight room = (weight, refl, λ q. omega arith)
  hf_statistic_weight-count (b ∷ src) weight room =
      let counted = update weight b ((weight b + 1) % 2 ^ 64) in
      let fits : (weight b + 1) % 2 ^ 64 ≡ weight b + 1 = omega (arith, room b) in
      let (weight', run, total) =
        hf_statistic_weight-count src counted (λ q. ground (arith, room q, fits)) in
      (weight', run, λ q. ground (arith, total q, fits))

-- one tree is left, and every used leaf climbs to its root
module _ (h : Huff) (root : ℕ) (f : Forest h (suc root) (root ∷ [])) (high : 256 ≤ root) where
  climb_inner :
      (d p : ℕ)
      → 256 ≤ p
      → p ≤ root
      → root ≤ p + d
      → (n : ℕ) × (n ≤ d) × Climbs h.parent h.lchild h.rchild root p n
  climb_inner zero p inner low near = (0, omega arith, omega arith)
  climb_inner (suc d) p inner low near = elim (is_eq p root) [
    | inl top ↦ (0, omega arith, top)
    | inr below ↦
        let (rises, inner', made, link) = f.hangs p (inr (inner, omega arith)) (ground arith) in
        let (n, few, up) = climb_inner d (h.parent p) inner' (omega arith) (omega arith) in
        (suc n, omega arith, (below, inner', omega arith, link, up))
  ]

  abbrev pub rooted : Huff
  rooted = record h { root = root }

  pub Forest-Climbing : Climbing rooted
  Forest-Climbing j low used =
      let (rises, inner, made, link) = f.hangs j (inl (used, low)) (ground arith) in
      let (n, few, up) = climb_inner (root - 256) (h.parent j) inner (omega arith) (omega arith) in
      (suc n, omega (arith, f.room), (omega arith, inner, omega arith, link, up))

-- the list as `hf_build_sort_list` leaves it
pub hf_build_sort_list-Forest :
    (h : Huff)
    → Ring h.links head []
    → (m : Links) × (xs : List ℕ) × (hf_build_sort_list h ≡ some (record h { links = m }))
      × Forest (record h { links = m }) 256 xs
      × ((p : ℕ) → p < 256 → h.weight p ≢ 0 → has p xs ≡ true)
unfolding hf_build_sort_list
hf_build_sort_list-Forest h r =
    let cmp = list_node_cmp h.weight in
    let (xs, ring, used) = sort_list_loop-Used 256 0 h.weight h.links [] (omega arith) r (record {
      below = λ p e. ground arith;
      used = λ p e w. absurd (omega arith);
      few = omega arith;
    }) in
    let (m, run, sorted) =
      insert_sort-insertion cmp (sort_list_loop 256 0 h.weight h.links) head fuel xs
        (omega (arith, used.few)) ring in
    let has_p = has-insertion cmp in
    (
      m,
      insertion cmp xs,
      rw run refl,
      record {
        ring = sorted;
        below = λ p e. omega (arith, used.below p (sym (has_p p xs) ∙ e));
        room = omega (arith, used.few, length-insertion cmp xs);
        inner = omega arith;
        hangs = λ p made out. elim made [
          | inl (w, low) ↦ ground (arith, used.used p low w, has_p p xs)
          | inr (high, low) ↦ absurd (omega arith)
        ];
      },
      λ p low w. has_p p xs ∙ used.used p low w,
    )
