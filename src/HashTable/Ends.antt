-- ===== src/HashTable/Ends.antt =====
-- `hashtable_init` and `hashtable_destroy`.
use mathlib.Core.Path.{subst}
use demo_class.Common.{
  lt_or_eq, Bool-cases, if◌then◌else◌, ℕ, zero, suc, ◌+◌, ◌≤◌, ◌<◌, ◌≡◌, ◌≢◌, refl, ◌∙◌, inl, inr,
  Bool, true, false, some, List, [], ◌∷◌, ◌==◌, arith, length,
}
use demo_class.Links.{Links, list_head_init, list_del_init, list_del}
use demo_class.Links.Seg.{has}
use demo_class.Links.Ring.{Ring, Ring-frame, list_is_empty-Ring, first-Ring}
use demo_class.Links.Walk.{list_del_init-Ring}
use demo_class.HashTable.{
  HashTable, init_loop, hashtable_init, drain_loop, destroy_loop, hashtable_destroy,
}
use demo_class.HashTable.Buckets.{IsTable, Same}

init_loop-Same : (k i table p : ℕ) (m : Links) → p < table + i → Same (init_loop k i table m) m p
unfolding init_loop list_head_init
init_loop-Same zero i table p m h = (refl, refl)
init_loop-Same (suc k) i table p m h =
    let (n, v) = init_loop-Same k (suc i) table p (list_head_init (table + i) m) (omega arith) in
    (n ∙ ground arith, v ∙ ground arith)

init_loop-Ring :
    (k i table j : ℕ) (m : Links) → i ≤ j → j < i + k → Ring (init_loop k i table m) (table + j) []
unfolding init_loop list_head_init
init_loop-Ring zero i table j m h h' = absurd (omega arith)
init_loop-Ring (suc k) i table j m h h' = elim (lt_or_eq h) [
  | inl above ↦ init_loop-Ring k (suc i) table j (list_head_init (table + i) m) above (omega arith)
  | inr same ↦
      let (n, v) =
        init_loop-Same k (suc i) table (table + j) (list_head_init (table + i) m) (omega arith) in
      record { distinct = (refl, tt); linked = ((n ∙ ground arith, v ∙ ground arith), tt) }
]

-- `hashtable_init` makes a table of empty slots, given an address from `malloc`.
pub hashtable_init-IsTable :
    (table nmemb : ℕ) (hash : ℕ → ℕ) (hash_cmp : ℕ → ℕ → Bool) (m : Links)
    → table ≢ 0
    → (r : HashTable × Links) × (hashtable_init table nmemb hash hash_cmp m ≡ some r)
      × IsTable r.0 r.1 (λ i. [])
      × (r.0.nmemb ≡ nmemb)
unfolding hashtable_init
hashtable_init-IsTable table nmemb hash hash_cmp m ne =
    let given : (table == 0) ≡ false = ground arith in
    let info : HashTable = record {
      table = table;
      nmemb = nmemb;
      hash = hash;
      hash_cmp = hash_cmp;
    } in
    rw given (
      (info, init_loop nmemb 0 table m),
      refl,
      record {
        rings = λ i h. init_loop-Ring nmemb 0 table i m (omega arith) (omega arith);
        apart = λ i j p hi hj other at. ground arith;
      },
      refl,
    )

-- `list_del_init` of a first link leaves the links of other rings as they are
list_del_init-frame :
    (m : Links) (head x : ℕ) (xs : List ℕ) (p : ℕ)
    → Ring m head (x ∷ xs)
    → has p (head ∷ x ∷ xs) ≡ false
    → Same (list_del_init x m) m p
unfolding list_del_init list_del
list_del_init-frame m head x [] p r out = (
  ground (arith, r.linked.0.1, r.linked.1.0.0),
  ground (arith, r.linked.0.1, r.linked.1.0.0, r.distinct),
)
list_del_init-frame m head x (y ∷ xs) p r out = (
  ground (arith, r.linked.0.1, r.linked.1.0.0),
  ground (arith, r.linked.0.1, r.linked.1.0.0, r.distinct),
)

-- The loop on one slot ends, takes out each link of it, and leaves other rings as they are.
drain_loop_lem :
    (xs : List ℕ) (k head : ℕ) (m : Links)
    → length xs < k
    → Ring m head xs
    → (m' : Links) × (drain_loop k head m ≡ some m')
      × Ring m' head []
      × ((p : ℕ) → has p (head ∷ xs) ≡ false → Same m' m p)
unfolding drain_loop
drain_loop_lem xs zero head m fuel r = absurd (omega arith)
drain_loop_lem [] (suc k) head m fuel r =
    rw (list_is_empty-Ring m head [] r) (m, refl, r, λ p out. (refl, refl))
drain_loop_lem (x ∷ xs) (suc k) head m fuel r =
    let m₁ = list_del_init x m in
    let (m', run, empty, same) =
      drain_loop_lem xs k head m₁ (omega arith) (list_del_init-Ring m head x [] xs r).0 in
    rw (list_is_empty-Ring m head (x ∷ xs) r, first-Ring m head (x ∷ xs) r)
      (
        m',
        run,
        empty,
        λ p out.
            let (n, v) = same p (ground arith) in
            let (n₁, v₁) = list_del_init-frame m head x xs p r out in (n ∙ n₁, v ∙ v₁),
      )

module _ (info : HashTable) where
  -- the slots when slot `v` has been emptied
  abbrev emptied : (ℕ → List ℕ) → ℕ → ℕ → List ℕ
  emptied bucket v i = if i == v then [] else bucket i

  emptied-has :
      (bucket : ℕ → List ℕ) (v i p : ℕ)
      → has p ((info.table + i) ∷ emptied bucket v i) ≡ true
      → has p ((info.table + i) ∷ bucket i) ≡ true
  emptied-has bucket v i p h = ground arith

  emptied-IsTable :
      (m m' : Links) (bucket : ℕ → List ℕ) (v : ℕ)
      → v < info.nmemb
      → IsTable info m bucket
      → Ring m' (info.table + v) []
      → ((p : ℕ) → has p ((info.table + v) ∷ bucket v) ≡ false → Same m' m p)
      → IsTable info m' (emptied bucket v)
  emptied-IsTable m m' bucket v inside t empty same = record {
    rings = λ i h. elim (Bool-cases (i == v)) [
      | inl e ↦ let at : i ≡ v = ground arith in rw (e, at) empty
      | inr e ↦ rw e (
          Ring-frame m m' (info.table + i) (bucket i)
            (λ p at. same p (t.apart i v p h inside (ground arith) at)) (t.rings i h))
    ];
    apart = λ i j p hi hj ne at.
        ground
          (arith, t.apart i j p hi hj ne (emptied-has bucket v i p at), emptied-has bucket v j p);
  }

  destroy_loop_lem :
      (k i fuel : ℕ) (m : Links) (bucket : ℕ → List ℕ)
      → i + k ≡ info.nmemb
      → IsTable info m bucket
      → ((j : ℕ) → length (bucket j) < fuel)
      → ((j : ℕ) → j < i → bucket j ≡ [])
      → (m' : Links) × (destroy_loop fuel k i info.table m ≡ some m')
        × ((j : ℕ) → j < info.nmemb → Ring m' (info.table + j) [])
  unfolding destroy_loop
  destroy_loop_lem zero i fuel m bucket e t short done =
      (m, refl, λ j h. subst (Ring m (info.table + j)) (done j (omega arith)) (t.rings j h))
  destroy_loop_lem (suc k) i fuel m bucket e t short done =
      let (m₁, run, empty, same) =
        drain_loop_lem (bucket i) fuel (info.table + i) m (short i) (t.rings i (omega arith)) in
      rw run (
        destroy_loop_lem k (suc i) fuel m₁ (emptied bucket i) (omega arith)
          (emptied-IsTable m m₁ bucket i (omega arith) t empty same)
          (λ j. ground (arith, short j, short i)) (λ j h. ground (arith, done j)))

  -- Of a well-formed table `hashtable_destroy` ends, with every slot empty.
  pub hashtable_destroy-empties :
      (fuel : ℕ) (m : Links) (bucket : ℕ → List ℕ)
      → IsTable info m bucket
      → ((i : ℕ) → length (bucket i) < fuel)
      → (m' : Links) × (hashtable_destroy fuel info m ≡ some m')
        × ((i : ℕ) → i < info.nmemb → Ring m' (info.table + i) [])
  unfolding hashtable_destroy
  hashtable_destroy-empties fuel m bucket t short =
      destroy_loop_lem info.nmemb 0 fuel m bucket (omega arith) t short
        (λ j h. absurd (omega arith))
