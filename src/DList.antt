-- ===== src/DList.antt =====
-- 01DataStruct/02Dlist/stack/dlist.c (03Calc and 06Btree hold copies; 02Dlist/dlist is an earlier
-- one): a circular doubly linked list of nodes from `malloc`, each with a copy of the caller's data.
-- `malloc` is what an operation is given: the address that it returns, 0 for NULL. Memory keeps the
-- two pointers and the data of each address, and which addresses are allocated.
pub mod Laws
pub mod Removal
use demo_class.Common.{
  ℕ, suc, zero, Bool, true, false, Option, none, some, List, ◌==◌, if◌then◌else◌,
}
use demo_class.Links.{Links, set_next, set_prev, list_is_empty, list_for_each}

pub record Memory {ℓ} (D : Type ℓ) : Type ℓ where
  pub links : Links
  pub priv : ℕ → Option D
  pub live : ℕ → Bool

-- NULL
abbrev pub null : ℕ
null = 0

module _ {ℓ} {D : Type ℓ} where
  abbrev pub alloc : ℕ → Memory D → Memory D
  alloc p h = record h { live = λ q. if q == p then true else h.live q }

  abbrev pub free : ℕ → Memory D → Memory D
  free p h = record h { live = λ q. if q == p then false else h.live q }

  -- `memcpy(node->priv, data, data_size)`
  abbrev pub copy_data : ℕ → D → Memory D → Memory D
  copy_data p d h = record h { priv = λ q. if q == p then some d else h.priv q }

-- the four assignments of `dlist_add`, and those of `dlist_add_tail`
unfoldable pub link_front : ℕ → ℕ → Links → Links
link_front head node m =
    let m₁ = set_prev node head (set_next node (m.next head) m) in
    let m₂ = set_next head node m₁ in set_prev (m₂.next node) node m₂

unfoldable pub link_back : ℕ → ℕ → Links → Links
link_back head node m =
    let m₁ = set_next node head m in
    let m₂ = set_prev head node (set_prev node (m₁.prev head) m₁) in set_next (m₂.prev node) node m₂

-- the first two assignments of `dlist_del`
unfoldable pub unlink : ℕ → Links → Links
unlink node m =
    let m₁ = set_prev (m.next node) (m.prev node) m in set_next (m₁.prev node) (m₁.next node) m₁

module _ {ℓ} {D : Type ℓ} where
  unfoldable pub dlist_is_empty : ℕ → Memory D → Bool
  unfolding list_is_empty
  dlist_is_empty head h = list_is_empty head h.links

  -- a `malloc` that fails is reported, and the list is left as it is
  unfoldable pub dlist_add : ℕ → ℕ → D → Memory D → Memory D
  unfolding link_front
  dlist_add node head d h =
      if node == null
      then h
      else copy_data node d (record (alloc node h) { links = link_front head node h.links })

  unfoldable pub dlist_add_tail : ℕ → ℕ → D → Memory D → Memory D
  unfolding link_back
  dlist_add_tail node head d h =
      if node == null
      then h
      else copy_data node d (record (alloc node h) { links = link_back head node h.links })

  unfoldable pub dlist_del : ℕ → Memory D → Memory D
  unfolding unlink
  dlist_del node h =
      free node (record h { links = set_next node node (set_prev node node (unlink node h.links)) })

  -- the walks run on fuel, and `none` says that it was too little
  unfoldable pub dlist_find : ℕ → ℕ → (ℕ → Bool) → ℕ → Memory D → Option ℕ
  dlist_find zero head match cur h = none
  dlist_find (suc k) head match cur h =
      let rest = dlist_find k head match (h.links.next cur) h in
      if cur == head then some null else if match cur then some cur else rest

  unfoldable pub dlist_for_each : ℕ → ℕ → Memory D → Option (List ℕ)
  unfolding list_for_each
  dlist_for_each k head h = list_for_each k head h.links

  -- `Next = cur->next` is read before `todo(cur)`
  unfoldable pub dlist_for_each_safe :
      ℕ → ℕ → (ℕ → Memory D → Memory D) → ℕ → Memory D → Option (Memory D)
  dlist_for_each_safe zero head todo cur h = none
  dlist_for_each_safe (suc k) head todo cur h =
      let rest = dlist_for_each_safe k head todo (h.links.next cur) (todo cur h) in
      if cur == head then some h else rest

  -- `none` is the head that `malloc` did not give: -1
  unfoldable pub dlist_init : ℕ → Memory D → Option (Memory D)
  dlist_init head h =
      if head == null
      then none
      else some (record (alloc head h) { links = set_prev head head (set_next head head h.links) })

  unfoldable pub dlist_destroy : ℕ → ℕ → Memory D → Option (Memory D)
  unfolding dlist_for_each_safe dlist_del
  dlist_destroy k head h = elim (dlist_for_each_safe k head dlist_del (h.links.next head) h) [
    | none ↦ none
    | some h' ↦ some (free head h')
  ]
