-- ===== src/PlainList.antt =====
-- 01DataStruct/01Slist/03nohead_noloop_slist.c: a singly linked list that is a pointer to its first node, NULL, 0,
-- for none. The nodes are the caller's. The walk runs on fuel, and `none` says that it was too little.
pub mod Pushed
mod Tests
use demo_class.Common.{
  ℕ, zero, suc, true, false, Option, none, some, ◌>>=◌, List, [], ◌∷◌, ◌==◌, if◌then◌else◌,
}
use demo_class.Common.Int.{ℤ}
use demo_class.SList.{Nodes, set_next}

-- the pointer and the nodes
unfoldable pub slist_add : ℕ → ℕ → Nodes → ℕ × Nodes
slist_add phead node h = (node, if phead == 0 then set_next node 0 h else set_next node phead h)

-- what the walk prints
unfoldable pub slist_for_each : ℕ → ℕ → Nodes → Option (List ℤ)
slist_for_each zero cur h = none
slist_for_each (suc k) cur h = elim (cur == 0) [
  | true ↦ some []
  | false ↦ slist_for_each k (h.next cur) h >>= λ ds. some (h.elem cur ∷ ds)
]

-- the loop of `main` over its nodes
unfoldable pub add_loop : List ℕ → ℕ → Nodes → ℕ × Nodes
unfolding slist_add
add_loop [] phead h = (phead, h)
add_loop (node ∷ nodes) phead h =
    let (phead', h') = slist_add phead node h in add_loop nodes phead' h'
