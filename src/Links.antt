-- ===== src/Links.antt =====
-- 01DataStruct/04Kernel_list/list.h (05HashTable, 07Sort and 08Huffman hold the same file): circular
-- doubly linked lists of links that stand in the caller's structures. A link is its address; memory
-- is what the two fields of each link hold. Nothing is allocated here, and every pointer is valid.
pub mod Seg
pub mod Splice
pub mod Ring
pub mod Beside
pub mod Walk
use demo_class.Common.{
  ℕ, zero, suc, Bool, ◌&&◌, Option, none, some, List, [], ◌∷◌, ◌==◌, if◌then◌else◌,
}

pub record Links : Type 0 where
  pub next : ℕ → ℕ
  pub prev : ℕ → ℕ

abbrev pub update : (ℕ → ℕ) → ℕ → ℕ → ℕ → ℕ
update f p v q = if q == p then v else f q

-- `p->next = q` and `p->prev = q`
abbrev pub set_next : ℕ → ℕ → Links → Links
set_next p q m = record m { next = update m.next p q }

abbrev pub set_prev : ℕ → ℕ → Links → Links
set_prev p q m = record m { prev = update m.prev p q }

unfoldable pub list_head_init : ℕ → Links → Links
list_head_init node m = set_prev node node (set_next node node m)

-- `__list_add`
unfoldable pub list_insert : ℕ → ℕ → ℕ → Links → Links
list_insert node prev next m =
    set_next prev node (set_prev next node (set_prev node prev (set_next node next m)))

unfoldable pub list_add : ℕ → ℕ → Links → Links
unfolding list_insert
list_add head node m = list_insert node head (m.next head) m

unfoldable pub list_add_tail : ℕ → ℕ → Links → Links
unfolding list_insert
list_add_tail head node m = list_insert node (m.prev head) head m

unfoldable pub list_is_empty : ℕ → Links → Bool
list_is_empty head m = m.next head == head && m.prev head == head

-- the second assignment reads what the first has left
unfoldable pub list_del : ℕ → Links → Links
list_del node m =
    let m₁ = set_next (m.prev node) (m.next node) m in set_prev (m₁.next node) (m₁.prev node) m₁

unfoldable pub list_del_init : ℕ → Links → Links
unfolding list_del
list_del_init node m = set_prev node node (set_next node node (list_del node m))

-- `list_for_each_from`: the links from `cur` up to the head; `none` if the fuel runs out before
unfoldable pub list_for_each_from : ℕ → ℕ → ℕ → Links → Option (List ℕ)
list_for_each_from zero head cur m = none
list_for_each_from (suc k) head cur m =
    let rest = list_for_each_from k head (m.next cur) m in
    if cur == head then some [] else elim rest [ none ↦ none | some xs ↦ some (cur ∷ xs) ]

unfoldable pub list_for_each : ℕ → ℕ → Links → Option (List ℕ)
unfolding list_for_each_from
list_for_each k head m = list_for_each_from k head (m.next head) m
