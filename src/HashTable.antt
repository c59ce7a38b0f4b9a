-- ===== src/HashTable.antt =====
-- 01DataStruct/05HashTable/hashtable.c and hashtable.h: a table of ring heads, the `i`th at the address
-- `table + i`; `hash` and `hash_cmp` are the caller's, and read nodes by their addresses.
pub mod Buckets
pub mod ForEach
pub mod Ends
pub mod Find
mod Tests
use demo_class.Common.{
  ℕ, zero, suc, ◌+◌, ◌%◌, Bool, true, false, not, ◌||◌, Option, none, some, ◌>>=◌, List, [], ◌++◌,
  ◌==◌, if◌then◌else◌,
}
use demo_class.Links.{
  Links, list_head_init, list_add_tail, list_is_empty, list_del_init, list_for_each,
}

pub record HashTable : Type 0 where
  pub table : ℕ
  pub nmemb : ℕ
  pub hash : ℕ → ℕ
  pub hash_cmp : ℕ → ℕ → Bool

-- `info->table + info->hash(key) % info->nmemb`
abbrev pub slot : HashTable → ℕ → ℕ
slot info key = info.table + info.hash key % info.nmemb

unfoldable pub hash_push : HashTable → ℕ → Links → Links
unfolding list_add_tail
hash_push info node m = list_add_tail (slot info node) node m

-- the loop of `hash_find`, on fuel: what it returns, 0 for NULL, and where it leaves `cur`
unfoldable pub find_loop : ℕ → ℕ → (ℕ → Bool) → ℕ → Links → Option (ℕ × ℕ)
find_loop zero head match cur m = none
find_loop (suc k) head match cur m =
    let rest = find_loop k head match (m.next cur) m in
    if cur == head then some (0, cur) else if match cur then some (cur, cur) else rest

-- `cur` is static: a call is given what the call before has left, NULL at first
unfoldable pub hash_find : ℕ → HashTable → ℕ → ℕ → Links → Option (ℕ × ℕ)
unfolding find_loop
hash_find k info key cur m =
    let start = if cur == 0 || not (info.hash_cmp cur key) then slot info key else cur in
    find_loop k (slot info key) (λ node. info.hash_cmp node key) (m.next start) m

-- the loops over the table have `k` rounds to go, from `i`
unfoldable pub for_each_loop : ℕ → ℕ → ℕ → ℕ → Links → Option (List ℕ)
unfolding list_for_each
for_each_loop fuel zero i table m = some []
for_each_loop fuel (suc k) i table m = do
  xs ← list_for_each fuel (table + i) m
  rest ← for_each_loop fuel k (suc i) table m
  some (xs ++ rest)

-- the nodes that `todo` is called on; the loop over one ring runs on `fuel`
unfoldable pub hash_for_each : ℕ → HashTable → Links → Option (List ℕ)
unfolding for_each_loop
hash_for_each fuel info m = for_each_loop fuel info.nmemb 0 info.table m

unfoldable pub is_empty_loop : ℕ → ℕ → ℕ → Links → Bool
unfolding list_is_empty
is_empty_loop zero i table m = true
is_empty_loop (suc k) i table m =
    let rest = is_empty_loop k (suc i) table m in
    if list_is_empty (table + i) m then rest else false

unfoldable pub hash_is_empty : HashTable → Links → Bool
unfolding is_empty_loop
hash_is_empty info m = is_empty_loop info.nmemb 0 info.table m

unfoldable pub is_full_loop : ℕ → ℕ → ℕ → Links → Bool
unfolding list_is_empty
is_full_loop zero i table m = false
is_full_loop (suc k) i table m =
    let rest = is_full_loop k (suc i) table m in
    if not (list_is_empty (table + i) m) then rest else true

unfoldable pub hash_is_full : HashTable → Links → Bool
unfolding is_full_loop
hash_is_full info m = is_full_loop info.nmemb 0 info.table m

unfoldable pub init_loop : ℕ → ℕ → ℕ → Links → Links
unfolding list_head_init
init_loop zero i table m = m
init_loop (suc k) i table m = init_loop k (suc i) table (list_head_init (table + i) m)

-- `table` is what `malloc` returns; `none` is -1
unfoldable pub hashtable_init :
    ℕ → ℕ → (ℕ → ℕ) → (ℕ → ℕ → Bool) → Links → Option (HashTable × Links)
unfolding init_loop
hashtable_init table nmemb hash hash_cmp m =
    if table == 0
    then none
    else some (
      record { table = table; nmemb = nmemb; hash = hash; hash_cmp = hash_cmp },
      init_loop nmemb 0 table m,
    )

-- `while (!list_is_empty(head)) list_del_init(head->next)`, on fuel
unfoldable pub drain_loop : ℕ → ℕ → Links → Option Links
unfolding list_is_empty list_del_init
drain_loop zero head m = none
drain_loop (suc k) head m =
    let rest = drain_loop k head (list_del_init (m.next head) m) in
    if list_is_empty head m then some m else rest

unfoldable pub destroy_loop : ℕ → ℕ → ℕ → ℕ → Links → Option Links
unfolding drain_loop
destroy_loop fuel zero i table m = some m
destroy_loop fuel (suc k) i table m =
    drain_loop fuel (table + i) m >>= destroy_loop fuel k (suc i) table

-- the links that are left when the table is freed
unfoldable pub hashtable_destroy : ℕ → HashTable → Links → Option Links
unfolding destroy_loop
hashtable_destroy fuel info m = destroy_loop fuel info.nmemb 0 info.table m
