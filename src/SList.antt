-- ===== src/SList.antt =====
-- 01DataStruct/01Slist/01head_loop_slist.c: a circular singly linked list of nodes from `malloc` behind
-- a head node. `malloc` is the address that an operation is given, 0 for NULL. The walks run on fuel,
-- and `none` says that it was too little.
pub mod Chain
pub mod Invert
pub mod Delete
mod Tests
use demo_class.Common.{
  ℕ, zero, suc, Bool, true, false, Option, none, some, ◌>>=◌, List, [], ◌∷◌, ◌++◌, ◌==◌,
  if◌then◌else◌,
}
use demo_class.Common.Int.{ℤ, pos, negsuc}

pub record Nodes : Type 0 where
  pub next : ℕ → ℕ
  pub elem : ℕ → ℤ
  pub live : ℕ → Bool

abbrev pub set_next : ℕ → ℕ → Nodes → Nodes
set_next p q h = record h { next = λ x. if x == p then q else h.next x }

abbrev pub set_data : ℕ → ℤ → Nodes → Nodes
set_data p d h = record h { elem = λ x. if x == p then d else h.elem x }

abbrev pub set_live : ℕ → Bool → Nodes → Nodes
set_live p b h = record h { live = λ x. if x == p then b else h.live x }

-- `==` of two ints
abbrev pub same_int : ℤ → ℤ → Bool
same_int (pos a) (pos b) = a == b
same_int (negsuc a) (negsuc b) = a == b
same_int _ _ = false

-- `none` is NULL
unfoldable pub slist_init : ℕ → Nodes → Option Nodes
slist_init head h =
    if head == 0
    then none
    else some (set_next head head (set_data head (pos 0) (set_live head true h)))

-- the code is -1 in both cases
unfoldable pub slist_add : ℕ → ℕ → ℤ → Nodes → ℤ × Nodes
slist_add node head d h = if node == 0 then (negsuc 0, h) else (
  negsuc 0,
  set_next head node (set_next node (h.next head) (set_data node d (set_live node true h))),
)

-- `while (tail->next != phead)`
unfoldable pub tail_loop : ℕ → ℕ → ℕ → Nodes → Option ℕ
tail_loop zero head tail h = none
tail_loop (suc k) head tail h =
    let rest = tail_loop k head (h.next tail) h in if h.next tail == head then some tail else rest

unfoldable pub slist_add_tail : ℕ → ℕ → ℕ → ℤ → Nodes → Option (ℤ × Nodes)
unfolding tail_loop
slist_add_tail k node head d h =
    if node == 0
    then some (negsuc 0, h)
    else let h₁ = set_data node d (set_live node true h) in
      tail_loop k head (h₁.next head) h₁ >>= λ tail.
      some (negsuc 0, set_next tail node (set_next node (h₁.next tail) h₁))

unfoldable pub del_loop : ℕ → ℕ → ℤ → ℕ → ℕ → Nodes → Option (ℤ × Nodes)
del_loop zero head d before cur h = none
del_loop (suc k) head d before cur h =
    let after = h.next cur in
    let rest = del_loop k head d cur after h in
    if cur == head
    then some (negsuc 0, h)
    else if same_int (h.elem cur) d
    then some (pos 0, set_live cur false (set_next cur cur (set_next before after h)))
    else rest

unfoldable pub slist_del : ℕ → ℕ → ℤ → Nodes → Option (ℤ × Nodes)
unfolding del_loop
slist_del k head d h = del_loop k head d head (h.next head) h

-- what the walk prints
unfoldable pub each_loop : ℕ → ℕ → ℕ → Nodes → Option (List ℤ)
each_loop zero head cur h = none
each_loop (suc k) head cur h =
    let rest = each_loop k head (h.next cur) h in
    if cur == head then some [] else (rest >>= λ ds. some (h.elem cur ∷ ds))

unfoldable pub slist_for_each : ℕ → ℕ → Nodes → Option (List ℤ)
unfolding each_loop
slist_for_each k head h = each_loop k head (h.next head) h

-- `__slist_for_each_invert`
unfoldable pub each_invert_rec : ℕ → ℕ → ℕ → Nodes → Option (List ℤ)
each_invert_rec zero head node h = none
each_invert_rec (suc k) head node h =
    let rest = each_invert_rec k head (h.next node) h in
    if node == head then some [] else (rest >>= λ ds. some (ds ++ h.elem node ∷ []))

unfoldable pub slist_for_each_invert : ℕ → ℕ → Nodes → Option (List ℤ)
unfolding each_invert_rec
slist_for_each_invert k head h = each_invert_rec k head (h.next head) h

-- the loop, and the `next` of the head behind it
unfoldable pub invert_loop : ℕ → ℕ → ℕ → ℕ → Nodes → Option Nodes
invert_loop zero head before cur h = none
invert_loop (suc k) head before cur h =
    let rest = invert_loop k head cur (h.next cur) (set_next cur before h) in
    if cur == head then some (set_next head before h) else rest

unfoldable pub slist_invert : ℕ → ℕ → Nodes → Option Nodes
unfolding invert_loop
slist_invert k head h = invert_loop k head head (h.next head) h

unfoldable pub destroy_loop : ℕ → ℕ → ℕ → Nodes → Option Nodes
destroy_loop zero head cur h = none
destroy_loop (suc k) head cur h =
    let rest = destroy_loop k head (h.next cur) (set_live cur false (set_next cur cur h)) in
    if cur == head then some (set_live cur false h) else rest

unfoldable pub slist_destroy : ℕ → ℕ → Nodes → Option Nodes
unfolding destroy_loop
slist_destroy k head h = destroy_loop k head (h.next head) h
