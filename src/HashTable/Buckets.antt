-- ===== src/HashTable/Buckets.antt =====
-- The table as the lists of its nodes, slot by slot.
use mathlib.Core.Path.{subst}
use demo_class.Common.{
  lt_or_eq, ℕ, zero, suc, ◌+◌, ◌%◌, ◌≤◌, ◌<◌, ◌≡◌, ◌≢◌, refl, sym, ap, ◌⊎◌, ◌↔◌, inl, inr, true,
  false, List, [], ◌∷◌, ◌++◌, ◌==◌, arith, if◌then◌else◌, Bool-cases,
}
use demo_class.Links.{Links, list_insert, list_add_tail, list_is_empty}
use demo_class.Links.Seg.{has, has-append, has-last}
use demo_class.Links.Ring.{Ring, Ring-frame, list_add_tail-Ring, list_is_empty-Ring, last-Ring}
use demo_class.HashTable.{
  HashTable, hash_push, is_empty_loop, is_full_loop, hash_is_empty, hash_is_full,
}

abbrev pub Same : Links → Links → ℕ → Type 0
Same m' m p = (m'.next p ≡ m.next p) × (m'.prev p ≡ m.prev p)

-- `list_add_tail` leaves the links of other rings as they are
list_add_tail-frame :
    (m : Links) (head node : ℕ) (xs : List ℕ) (p : ℕ)
    → Ring m head xs
    → has p (head ∷ xs) ≡ false
    → p ≢ node
    → Same (list_add_tail head node m) m p
unfolding list_add_tail list_insert
list_add_tail-frame m head node xs p r out ne = (
  ground (arith, last-Ring m head xs r, has-last head xs),
  ground (arith, last-Ring m head xs r, has-last head xs),
)

empty_or_not :
    (m : Links) (head : ℕ) (xs : List ℕ)
    → Ring m head xs
    → ((xs ≡ []) × (list_is_empty head m ≡ true)) ⊎ ((xs ≢ []) × (list_is_empty head m ≡ false))
empty_or_not m head [] r = inl (refl, list_is_empty-Ring m head [] r)
empty_or_not m head (x ∷ xs) r = inr (λ e. ground arith, list_is_empty-Ring m head (x ∷ xs) r)

-- each head of the table keeps a ring of the nodes of its slot, and no link is in two of them
pub record IsTable (info : HashTable) (m : Links) (bucket : ℕ → List ℕ) : Type 0 where
  pub rings : (i : ℕ) → i < info.nmemb → Ring m (info.table + i) (bucket i)
  pub apart :
      (i j p : ℕ)
      → i < info.nmemb
      → j < info.nmemb
      → i ≢ j
      → has p ((info.table + i) ∷ bucket i) ≡ true
      → has p ((info.table + j) ∷ bucket j) ≡ false

module _ (info : HashTable) (m : Links) (bucket : ℕ → List ℕ) (t : IsTable info m bucket) where
  -- the slots when `node` is behind the others of slot `v`
  abbrev pub pushed : ℕ → ℕ → ℕ → List ℕ
  pushed node v i = if i == v then bucket i ++ node ∷ [] else bucket i

  same_has :
      (p q i : ℕ)
      → p ≡ q
      → has p ((info.table + i) ∷ bucket i) ≡ has q ((info.table + i) ∷ bucket i)
  same_has p q i e = ap (λ r. has r ((info.table + i) ∷ bucket i)) e

  pushed-has :
      (node v p i : ℕ)
      → has p ((info.table + i) ∷ pushed node v i) ≡ true
      → (has p ((info.table + i) ∷ bucket i) ≡ true) ⊎ ((p ≡ node) × (i ≡ v))
  pushed-has node v p i h = ground (arith, has-append p (bucket i) (node ∷ []))

  pushed-apart :
      (node v : ℕ)
      → ((i : ℕ) → i < info.nmemb → has node ((info.table + i) ∷ bucket i) ≡ false)
      → (i j p : ℕ) → i < info.nmemb
      → j < info.nmemb
      → i ≢ j
      → has p ((info.table + i) ∷ pushed node v i) ≡ true
      → has p ((info.table + j) ∷ pushed node v j) ≡ false
  pushed-apart node v fresh i j p hi hj ne at = ground (
    arith,
    pushed-has node v p i at,
    pushed-has node v p j,
    t.apart i j p hi hj ne,
    fresh i hi,
    fresh j hj,
    same_has p node i,
    same_has p node j,
  )

  -- `hash_push` puts a link that is in no slot behind those of the slot that it hashes to, and leaves
  -- the other slots as they are.
  pub hash_push-IsTable :
      (node : ℕ)
      → 0 < info.nmemb
      → ((i : ℕ) → i < info.nmemb → has node ((info.table + i) ∷ bucket i) ≡ false)
      → IsTable info (hash_push info node m) (pushed node (info.hash node % info.nmemb))
  unfolding hash_push
  hash_push-IsTable node some_slot fresh =
      let v = info.hash node % info.nmemb in
      let inside : v < info.nmemb = omega arith in
      record {
        rings = λ i h. elim (Bool-cases (i == v)) [
          | inl e ↦
              let same : i ≡ v = ground arith in
              rw (e, same)
                (list_add_tail-Ring m (info.table + v) node (bucket v) (t.rings v inside)
                  (fresh v inside))
          | inr e ↦ rw e (
              Ring-frame m (hash_push info node m) (info.table + i) (bucket i)
                (λ p at.
                  list_add_tail-frame m (info.table + v) node (bucket v) p (t.rings v inside)
                    (t.apart i v p h inside (ground arith) at)
                    (λ same. ground (arith, fresh i h, same_has p node i same)))
                (t.rings i h))
        ];
        apart = pushed-apart node v fresh;
      }

  slot_state :
      (i : ℕ)
      → i < info.nmemb
      → ((bucket i ≡ []) × (list_is_empty (info.table + i) m ≡ true))
        ⊎ ((bucket i ≢ []) × (list_is_empty (info.table + i) m ≡ false))
  slot_state i h = empty_or_not m (info.table + i) (bucket i) (t.rings i h)

  empty_loop_lem :
      (k i : ℕ)
      → i + k ≤ info.nmemb
      → (is_empty_loop k i info.table m ≡ true) ↔ ((j : ℕ) → i ≤ j → j < i + k → bucket j ≡ [])
  unfolding is_empty_loop
  empty_loop_lem zero i h = (λ e j l u. absurd (omega arith), λ all. refl)
  empty_loop_lem (suc k) i h =
      let (to, from) = empty_loop_lem k (suc i) (omega arith) in
      elim (slot_state i (omega arith)) [
        | inl (e, q) ↦ rw q (
          λ r j l u. elim (lt_or_eq l) [
            | inl above ↦ to r j above (omega arith)
            | inr same ↦ subst (λ s. bucket s ≡ []) same e
          ],
          λ all. from (λ j l u. all j (omega arith) (omega arith)),
        )
        | inr (ne, q) ↦
            rw q
              (λ r. absurd (ground arith), λ all. absurd (ne (all i (omega arith) (omega arith))))
      ]

  -- Of a well-formed table `hash_is_empty` is true just when every slot is empty.
  pub hash_is_empty_lem : (hash_is_empty info m ≡ true) ↔ ((i : ℕ) → i < info.nmemb → bucket i ≡ [])
  unfolding hash_is_empty
  hash_is_empty_lem =
      let (to, from) = empty_loop_lem info.nmemb 0 (omega arith) in
      (λ e i h. to e i (omega arith) (omega arith), λ all. from (λ j l u. all j (omega arith)))

  full_loop_lem :
      (k i : ℕ)
      → i + k ≤ info.nmemb
      → (is_full_loop k i info.table m ≡ true) ↔ ((j : ℕ) × (i ≤ j) × (j < i + k) × (bucket j ≡ []))
  unfolding is_full_loop
  full_loop_lem zero i h = (λ e. absurd (ground arith), λ (j, l, u, e). absurd (omega arith))
  full_loop_lem (suc k) i h =
      let (to, from) = full_loop_lem k (suc i) (omega arith) in
      elim (slot_state i (omega arith)) [
        | inl (e, q) ↦ rw q (λ r. (i, omega arith, omega arith, e), λ some_empty. refl)
        | inr (ne, q) ↦ rw q (
          λ r. let (j, l, u, e) = to r in (j, omega arith, omega arith, e),
          λ (j, l, u, e). elim (lt_or_eq l) [
            | inl above ↦ from (j, above, omega arith, e)
            | inr same ↦ absurd (ne (subst (λ s. bucket s ≡ []) (sym same) e))
          ],
        )
      ]

  -- Of a well-formed table `hash_is_full` is true just when some slot is empty.
  pub hash_is_full_lem :
      (hash_is_full info m ≡ true) ↔ ((i : ℕ) × (i < info.nmemb) × (bucket i ≡ []))
  unfolding hash_is_full
  hash_is_full_lem =
      let (to, from) = full_loop_lem info.nmemb 0 (omega arith) in
      (
        λ e. let (j, l, u, q) = to e in (j, omega arith, q),
        λ (j, u, q). from (j, omega arith, omega arith, q),
      )
