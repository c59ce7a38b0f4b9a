-- ===== src/HashTable/ForEach.antt =====
-- `hash_for_each` over the slots of a table.
use demo_class.Common.{ℕ, zero, suc, ◌+◌, ◌≤◌, ◌<◌, ◌≡◌, refl, some, List, [], ◌++◌, arith, length}
use demo_class.Links.{Links}
use demo_class.Links.Walk.{list_for_each-Ring}
use demo_class.HashTable.{HashTable, for_each_loop, hash_for_each}
use demo_class.HashTable.Buckets.{IsTable}

-- the nodes of `k` slots, from slot `i`
abbrev pub nodes : (ℕ → List ℕ) → ℕ → ℕ → List ℕ
nodes bucket zero i = []
nodes bucket (suc k) i = bucket i ++ nodes bucket k (suc i)

module _ (info : HashTable) (m : Links) (bucket : ℕ → List ℕ) (t : IsTable info m bucket) (fuel : ℕ)
    (short : (i : ℕ) → length (bucket i) < fuel) where
  for_each_loop-nodes :
      (k i : ℕ) → i + k ≤ info.nmemb → for_each_loop fuel k i info.table m ≡ some (nodes bucket k i)
  unfolding for_each_loop
  for_each_loop-nodes zero i h = refl
  for_each_loop-nodes (suc k) i h =
      rw
        (
          list_for_each-Ring m (info.table + i) (bucket i) fuel (t.rings i (omega arith)) (short i),
          for_each_loop-nodes k (suc i) (omega arith),
        )
        refl

  -- Of a well-formed table `hash_for_each` ends, and visits the nodes of the slots, one slot after the other.
  pub hash_for_each-nodes : hash_for_each fuel info m ≡ some (nodes bucket info.nmemb 0)
  unfolding hash_for_each
  hash_for_each-nodes = for_each_loop-nodes info.nmemb 0 (omega arith)
