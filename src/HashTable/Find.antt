-- ===== src/HashTable/Find.antt =====
-- `hash_find` with its static cursor: a first call, and the calls that go on from it.
use mathlib.Core.Path.{subst}
use demo_class.Common.{
  ℕ, zero, suc, ◌%◌, ◌<◌, ◌≡◌, ◌≢◌, refl, ap, ◌∙◌, Bool, true, false, not, ◌||◌, some, List, [],
  ◌∷◌, ◌++◌, ◌==◌, arith, length, append_assoc, if◌then◌else◌,
}
use demo_class.Links.{Links}
use demo_class.Links.Seg.{has, has-append, Seg, Seg-append}
use demo_class.Links.Ring.{Ring}
use demo_class.HashTable.{HashTable, slot, find_loop, hash_find}
use demo_class.HashTable.Buckets.{IsTable}

-- what a call returns, and where it leaves `cur`: at the first match of what is left of the slot, or
-- at the head
abbrev pub outcome : ℕ → (ℕ → Bool) → List ℕ → ℕ × ℕ
outcome head match [] = (0, head)
outcome head match (x ∷ xs) = if match x then (x, x) else outcome head match xs

find_loop-Seg :
    (xs : List ℕ) (k a head : ℕ) (match : ℕ → Bool) (m : Links)
    → Seg m a (xs ++ head ∷ [])
    → has head xs ≡ false
    → length xs < k
    → find_loop k head match (m.next a) m ≡ some (outcome head match xs)
unfolding find_loop
find_loop-Seg xs zero a head match m s out fuel = absurd (omega arith)
find_loop-Seg [] (suc k) a head match m s out fuel =
    let home : (head == head) ≡ true = ground arith in
    let step : find_loop (suc k) head match head m ≡ some (0, head) = rw home refl in
    ap (λ (c : ℕ). find_loop (suc k) head match c m) s.0.0 ∙ step
find_loop-Seg (x ∷ xs) (suc k) a head match m s out fuel =
    let more : (x == head) ≡ false = ground arith in
    let rest = find_loop-Seg xs k x head match m s.1 (ground arith) (omega arith) in
    let step : find_loop (suc k) head match x m ≡ some (outcome head match (x ∷ xs)) =
      rw more (ground (arith, rest)) in
    ap (λ (c : ℕ). find_loop (suc k) head match c m) s.0.0 ∙ step

module _ (info : HashTable) (m : Links) (bucket : ℕ → List ℕ) (t : IsTable info m bucket) (key : ℕ)
    (some_slot : 0 < info.nmemb) (k : ℕ) where
  abbrev index : ℕ
  index = info.hash key % info.nmemb

  abbrev pub match : ℕ → Bool
  match node = info.hash_cmp node key

  -- A call whose cursor is NULL, or a node that does not match the key, gives the first node of the
  -- key's slot that matches, NULL if none does.
  pub hash_find-first :
      (cur : ℕ)
      → (cur == 0 || not (match cur)) ≡ true
      → length (bucket (info.hash key % info.nmemb)) < k
      → hash_find k info key cur m
        ≡ some (outcome (slot info key) match (bucket (info.hash key % info.nmemb)))
  unfolding hash_find
  hash_find-first cur anew fuel =
      let r = t.rings index (omega arith) in
      rw anew (
        find_loop-Seg (bucket index) k (slot info key) (slot info key) match m r.linked r.distinct.0
          fuel)

  -- A call whose cursor is a node of the slot that matches the key goes on behind that node.
  pub hash_find-next :
      (cur : ℕ) (xs ys : List ℕ)
      → bucket (info.hash key % info.nmemb) ≡ xs ++ cur ∷ ys
      → cur ≢ 0
      → match cur ≡ true
      → length ys < k
      → hash_find k info key cur m ≡ some (outcome (slot info key) match ys)
  unfolding hash_find
  hash_find-next cur xs ys e ne hit fuel =
      let on : (cur == 0 || not (match cur)) ≡ false = ground arith in
      let head = slot info key in
      let r : Ring m head (xs ++ cur ∷ ys) = subst (Ring m head) e (t.rings index (omega arith)) in
      let row = subst (Seg m head) (append_assoc xs (cur ∷ ys) (head ∷ [])) r.linked in
      rw on (
        find_loop-Seg ys k cur head match m
          ((Seg-append m head xs (cur ∷ (ys ++ head ∷ []))).0 row).1.1
          (ground (arith, r.distinct.0, has-append head xs (cur ∷ ys))) fuel)
