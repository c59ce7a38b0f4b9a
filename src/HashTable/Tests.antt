-- ===== src/HashTable/Tests.antt =====
-- The theorems at a table of two slots: 8 and 10 in the first, 7 in the second.
use demo_class.Common.{
  ℕ, zero, suc, ◌≡◌, ◌<◌, ◌≢◌, refl, true, false, some, List, [], ◌∷◌, arith, ◌%◌, ◌+◌, length,
  ◌==◌, if◌then◌else◌,
}
use demo_class.Links.{Links}
use demo_class.Links.Seg.{has}
use demo_class.Links.Ring.{Ring}
use demo_class.HashTable.{HashTable, hash_push, hashtable_destroy}
use demo_class.HashTable.Buckets.{IsTable, pushed, hash_push-IsTable}
use demo_class.HashTable.Ends.{hashtable_destroy-empties}

abbrev info : HashTable
info = record { table = 100; nmemb = 2; hash = λ n. n; hash_cmp = λ a b. a % 2 == b % 2 }

abbrev links : Links
links = record {
  next = λ p.
      if p == 100
      then 8
      else if p == 8
      then 10
      else if p == 10
      then 100
      else if p == 101
      then 7
      else 101;
  prev = λ p.
      if p == 100
      then 10
      else if p == 10
      then 8
      else if p == 8
      then 100
      else if p == 101
      then 7
      else 101;
}

abbrev bucket : ℕ → List ℕ
bucket zero = 8 ∷ 10 ∷ []
bucket (suc zero) = 7 ∷ []
bucket (suc (suc i)) = []

rings : (i : ℕ) → i < 2 → Ring links (100 + i) (bucket i)
rings zero h = record {
  distinct = (refl, (refl, (refl, tt)));
  linked = ((refl, refl), ((refl, refl), ((refl, refl), tt)));
}
rings (suc zero) h = record {
  distinct = (refl, (refl, tt));
  linked = ((refl, refl), ((refl, refl), tt));
}
rings (suc (suc i)) h = absurd (omega arith)

apart :
    (i j p : ℕ)
    → i < 2
    → j < 2
    → i ≢ j
    → has p ((100 + i) ∷ bucket i) ≡ true
    → has p ((100 + j) ∷ bucket j) ≡ false
apart zero zero p hi hj ne at = absurd (ne refl)
apart zero (suc zero) p hi hj ne at = ground arith
apart (suc zero) zero p hi hj ne at = ground arith
apart (suc zero) (suc zero) p hi hj ne at = absurd (ne refl)
apart (suc (suc i)) j p hi hj ne at = absurd (omega arith)
apart i (suc (suc j)) p hi hj ne at = absurd (omega arith)

table-IsTable : IsTable info links bucket
table-IsTable = record { rings = rings; apart = apart }

fresh : (i : ℕ) → i < 2 → has 9 ((100 + i) ∷ bucket i) ≡ false
fresh zero h = refl
fresh (suc zero) h = refl
fresh (suc (suc i)) h = absurd (omega arith)

short : (i : ℕ) → length (bucket i) < 3
short zero = omega arith
short (suc zero) = omega arith
short (suc (suc i)) = omega arith

hash_push-IsTable_example :
    IsTable info (hash_push info 9 links) (pushed info links bucket table-IsTable 9 1)
hash_push-IsTable_example = hash_push-IsTable info links bucket table-IsTable 9 (omega arith) fresh

hashtable_destroy-empties_example :
    (m' : Links) × (hashtable_destroy 3 info links ≡ some m')
    × ((i : ℕ) → i < 2 → Ring m' (100 + i) [])
hashtable_destroy-empties_example =
    hashtable_destroy-empties info 3 links bucket table-IsTable short
