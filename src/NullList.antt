-- ===== src/NullList.antt =====
-- 01DataStruct/01Slist/02head_noloop_slist.c: a singly linked list that ends in NULL, 0, behind a head
-- that stands in `slist_info`. The nodes are the caller's. The walks run on fuel, and `none` says that
-- it was too little.
pub mod Delete
mod Tests
use demo_class.Common.{
  ℕ, zero, suc, Bool, Option, none, some, ◌>>=◌, List, [], ◌∷◌, ◌==◌, if◌then◌else◌,
}
use demo_class.Common.Int.{ℤ, pos}
use demo_class.SList.{Nodes, set_next, set_data, same_int}

unfoldable pub slist_init : ℕ → Nodes → Nodes
slist_init head h = set_next head 0 (set_data head (pos 0) h)

unfoldable pub slist_add : ℕ → ℕ → Nodes → Nodes
slist_add head node h = set_next head node (set_next node (h.next head) h)

-- what the walk prints
unfoldable pub each_loop : ℕ → ℕ → Nodes → Option (List ℤ)
each_loop zero cur h = none
each_loop (suc k) cur h =
    let rest = each_loop k (h.next cur) h in
    if cur == 0 then some [] else (rest >>= λ ds. some (h.elem cur ∷ ds))

unfoldable pub slist_for_each : ℕ → ℕ → Nodes → Option (List ℤ)
unfolding each_loop
slist_for_each k head h = each_loop k (h.next head) h

-- `while (cur != NULL && cur->next != NULL)`
unfoldable pub tail_loop : ℕ → ℕ → Nodes → Option ℕ
tail_loop zero cur h = none
tail_loop (suc k) cur h =
    let rest = tail_loop k (h.next cur) h in
    if cur == 0 then some cur else if h.next cur == 0 then some cur else rest

unfoldable pub slist_add_tail : ℕ → ℕ → ℕ → Nodes → Option Nodes
unfolding tail_loop
slist_add_tail k head node h = tail_loop k (h.next head) h >>= λ cur.
    let h₁ = set_next node 0 h in
    some (if cur == 0 then set_next head node h₁ else set_next cur node h₁)

unfoldable pub search_loop : ℕ → ℤ → ℕ → Nodes → Option ℕ
search_loop zero key cur h = none
search_loop (suc k) key cur h =
    let rest = search_loop k key (h.next cur) h in
    if cur == 0 then some 0 else if same_int (h.elem cur) key then some cur else rest

unfoldable pub slist_search : ℕ → ℕ → ℤ → Nodes → Option ℕ
unfolding search_loop
slist_search k head key h = if h.next head == 0 then some 0 else search_loop k key (h.next head) h

unfoldable pub slist_is_empty : ℕ → Nodes → Bool
slist_is_empty head h = h.next head == 0

unfoldable pub del_loop : ℕ → ℕ → ℕ → Nodes → Option Nodes
del_loop zero key cur h = none
del_loop (suc k) key cur h =
    let rest = del_loop k key (h.next cur) h in
    if cur == 0
    then some h
    else if h.next cur == key
    then some (set_next key 0 (set_next cur (h.next key) h))
    else rest

unfoldable pub slist_del : ℕ → ℕ → ℕ → Nodes → Option Nodes
unfolding del_loop slist_is_empty
slist_del k head key h =
    if slist_is_empty head h
    then some h
    else if h.next head == key
    then some (set_next key key (set_next head (h.next key) h))
    else del_loop k key (h.next head) h
