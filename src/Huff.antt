-- ===== src/Huff.antt =====
-- 01DataStruct/08Huffman/huff.c, huff.h: a compressor of files by Huffman codes. The table of 511 nodes is
-- a function of the index for each field; `LIST(i)` has the address `i`, the head of the list 511. The
-- loops over lists and up the tree run on fuel, and `none` says that it was too little. An index of 511
-- lies behind the table; only the file of one byte value reads there, and no theorem is about it.
pub mod Archive
pub mod Climb
pub mod Build
pub mod Prepare
pub mod Table
mod Tests
use demo_class.Common.{
  ℕ, zero, suc, ◌+◌, ◌-◌, ◌*◌, ◌%◌, ◌^◌, Bool, true, false, Option, none, some, ◌>>=◌, List, [],
  ◌∷◌, Ordering, ltb, ◌==◌, if◌then◌else◌,
}
use Prim.Native.Nat.Ordering.{lt, eq, gt}
use demo_class.Common.Order.{is_gt}
use demo_class.Links.{Links, update, list_head_init, list_insert, list_add_tail, list_del_init}
use demo_class.ListSort.{insert_sort}

-- `struct huff_info`, without its streams and function pointers
pub record Huff : Type 0 where
  pub weight : ℕ → ℕ
  pub parent : ℕ → ℕ
  pub lchild : ℕ → ℕ
  pub rchild : ℕ → ℕ
  pub code : ℕ → ℕ
  pub code_len : ℕ → ℕ
  pub links : Links
  pub root : ℕ
  pub file_size : ℕ

abbrev pub leaf_num : ℕ
leaf_num = 256

abbrev pub unused : ℕ
unused = 511

abbrev pub head : ℕ
head = 511

-- rounds enough for each loop
abbrev pub fuel : ℕ
fuel = 600

unfoldable pub init_loop : ℕ → ℕ → Links → Links
unfolding list_head_init
init_loop zero i m = m
init_loop (suc k) i m = init_loop k (suc i) (list_head_init i m)

unfoldable pub huff_init : Links → Huff
unfolding init_loop
huff_init m = record {
  weight = λ i. 0;
  parent = λ i. unused;
  lchild = λ i. unused;
  rchild = λ i. unused;
  code = λ i. 0;
  code_len = λ i. 0;
  links = list_head_init head (init_loop 511 0 m);
  root = unused;
  file_size = 0;
}

-- `WEIGHT(rbuf) += 1` for each byte of the source
unfoldable pub hf_statistic_weight : List ℕ → Huff → Huff
hf_statistic_weight [] h = h
hf_statistic_weight (b ∷ bs) h =
    hf_statistic_weight bs (record h { weight = update h.weight b ((h.weight b + 1) % 2 ^ 64) })

-- `pa->weight - pb->weight` is a `size_t` that is returned as an `int`
unfoldable pub list_node_cmp : (ℕ → ℕ) → ℕ → ℕ → Ordering
list_node_cmp weight a b =
    let d = (weight a + 2 ^ 64 - weight b) % 2 ^ 32 in
    if d == 0 then eq else if ltb d (2 ^ 31) then gt else lt

unfoldable pub sort_list_loop : ℕ → ℕ → (ℕ → ℕ) → Links → Links
unfolding list_add_tail
sort_list_loop zero i weight m = m
sort_list_loop (suc k) i weight m =
    sort_list_loop k (suc i) weight (if weight i == 0 then m else list_add_tail head i m)

unfoldable pub hf_build_sort_list : Huff → Option Huff
hf_build_sort_list h =
    insert_sort (list_node_cmp h.weight) fuel head (sort_list_loop 256 0 h.weight h.links) >>= λ m.
    some (record h { links = m })

-- the loop of `list_add_with_sort`, and the `__list_add` behind it
unfoldable pub add_loop : (ℕ → ℕ → Ordering) → ℕ → ℕ → ℕ → Links → Option Links
unfolding list_insert
add_loop cmp zero node cur m = none
add_loop cmp (suc k) node cur m = elim (cur == head) [
  | true ↦ some (list_insert node (m.prev cur) cur m)
  | false ↦ elim (is_gt (cmp node cur)) [
    | true ↦ add_loop cmp k node (m.next cur) m
    | false ↦ some (list_insert node (m.prev cur) cur m)
  ]
]

unfoldable pub list_add_with_sort : (ℕ → ℕ → Ordering) → ℕ → Links → Option Links
unfolding add_loop
list_add_with_sort cmp node m = add_loop cmp fuel node (m.next head) m

-- what a round of `hf_build_hufftree` writes into the table
unfoldable pub join_nodes : ℕ → ℕ → ℕ → Huff → Huff
join_nodes index a b h = record h {
  weight = update h.weight index ((h.weight a + h.weight b) % 2 ^ 64);
  lchild = update h.lchild index a;
  rchild = update h.rchild index b;
  parent = update (update h.parent a index) b index;
}

unfoldable pub tree_loop : ℕ → ℕ → Huff → Option (ℕ × Huff)
unfolding join_nodes
tree_loop zero index h = none
tree_loop (suc k) index h = elim (h.links.next (h.links.next head) == head) [
  | true ↦ some (index, h)
  | false ↦
      let a = h.links.next head in
      let b = h.links.next a in
      let h' = join_nodes index a b h in
      list_add_with_sort (list_node_cmp h'.weight) index (list_del_init b (list_del_init a h.links))
      >>= λ m. tree_loop k (suc index) (record h' { links = m })
]

unfoldable pub hf_build_hufftree : Huff → Option Huff
hf_build_hufftree h = tree_loop fuel leaf_num h >>= λ r.
    some (record r.1 { root = if r.0 == 256 then 256 else r.0 - 1 })

-- `while (cur != info->root)`: the code and its length, a `short` and a `char`, both unsigned
unfoldable pub code_loop : ℕ → Huff → ℕ → ℕ → ℕ → Option (ℕ × ℕ)
code_loop zero h cur code len = none
code_loop (suc k) h cur code len = elim (cur == h.root) [
  | true ↦ some (code, len)
  | false ↦
      let bit = if h.rchild (h.parent cur) == cur then 1 else 0 in
      code_loop k h (h.parent cur) (code * 2 % 2 ^ 16 + bit) ((len + 1) % 2 ^ 8)
]

-- `for (i = 0; i < LEAF_NUM; ++i)`, with `k` rounds to go
unfoldable pub fill_loop : ℕ → ℕ → Huff → Option Huff
unfolding code_loop
fill_loop zero i h = some h
fill_loop (suc k) i h = elim (h.weight i == 0) [
  | true ↦ fill_loop k (suc i) h
  | false ↦ code_loop fuel h i (h.code i) (h.code_len i) >>= λ r.
      fill_loop k (suc i)
        (record h { code = update h.code i r.0; code_len = update h.code_len i r.1 })
]

unfoldable pub hf_fill_code : Huff → Option Huff
hf_fill_code h = fill_loop 256 0 h

-- none of the four steps returns an error
unfoldable pub huff_prepare : List ℕ → Huff → Option Huff
huff_prepare src h =
    hf_build_sort_list (hf_statistic_weight src h) >>= hf_build_hufftree >>= hf_fill_code
