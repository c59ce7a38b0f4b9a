-- ===== src/Huff/Tests.antt =====
-- Runs of 01DataStruct/08Huffman/huff.c on small files.
use demo_class.Common.{
  ℕ, ◌≤◌, ◌<◌, ◌≡◌, ◌≢◌, refl, true, Option, none, some, ◌>>=◌, List, ◌+◌, [], ◌∷◌, arith, inl, inr,
  ◌⊎◌,
}
use demo_class.Links.{Links, list_del_init}
use demo_class.Links.Seg.{has}
use demo_class.ListSort.{insert_sort}
use demo_class.Huff.{
  Huff, huff_init, huff_prepare, hf_statistic_weight, hf_build_sort_list, sort_list_loop,
  list_node_cmp, hf_build_hufftree, tree_loop, list_add_with_sort, hf_fill_code, fill_loop,
}
use demo_class.Huff.Archive.{huff_compress, huff_decompress}
use demo_class.Huff.Prepare.{count, hf_statistic_weight-count}
use demo_class.Huff.Table.{Coded, huff_prepare-Coded, huff_compress-huff_decompress}

abbrev blank : Links
blank = record { next = λ i. 0; prev = λ i. 0 }

abbrev text : List ℕ
text = 1 ∷ 2 ∷ 1 ∷ 3 ∷ []

abbrev or_else : Huff → Option Huff → Huff
or_else h none = h
or_else h (some t) = t

abbrev table : Huff
unfolding huff_init huff_prepare hf_statistic_weight hf_build_sort_list sort_list_loop list_node_cmp
    insert_sort hf_build_hufftree tree_loop list_del_init list_add_with_sort hf_fill_code fill_loop
table = or_else (huff_init blank) (huff_prepare text (huff_init blank))

prepared : huff_prepare text (huff_init blank) ≡ some table
unfolding huff_init huff_prepare hf_statistic_weight hf_build_sort_list sort_list_loop list_node_cmp
    insert_sort hf_build_hufftree tree_loop list_del_init list_add_with_sort hf_fill_code fill_loop
prepared = refl

codes :
    table.root
      ∷ table.code 1
      ∷ table.code_len 1
      ∷ table.code 2
      ∷ table.code_len 2
      ∷ table.code_len 3
      ∷ []
    ≡ 257 ∷ 1 ∷ 1 ∷ 0 ∷ 2 ∷ 2 ∷ []
unfolding table
codes = refl

text-IsBytes : (b : ℕ) → has b text ≡ true → b < 256
text-IsBytes b h = ground arith

members : (b : ℕ) → has b text ≡ true → (b ≡ 1) ⊎ (b ≡ 2) ⊎ (b ≡ 3)
members b h = ground arith

text-short : (b : ℕ) → has b text ≡ true → table.code_len b ≤ 16
unfolding table
text-short b h = elim (members b h) [
  | inl one ↦ rw one (omega arith)
  | inr (inl two) ↦ rw two (omega arith)
  | inr (inr three) ↦ rw three (omega arith)
]

one_two : ◌≢◌ {A = ℕ} 1 2
one_two = omega arith

hf_statistic_weight-count_example :
    (weight : ℕ → ℕ) × (hf_statistic_weight text (record (huff_init blank) { weight = λ q. 0 })
      ≡ record (huff_init blank) { weight = weight })
    × ((q : ℕ) → weight q ≡ 0 + count q text)
hf_statistic_weight-count_example =
    hf_statistic_weight-count (huff_init blank) text (λ q. 0) (λ q. omega arith)

huff_prepare-Coded_example :
    (t : Huff) × (huff_prepare text (huff_init blank) ≡ some t) × Coded t (λ b. count b text)
huff_prepare-Coded_example =
    huff_prepare-Coded blank text 1 2 (omega arith) text-IsBytes one_two refl refl

huff_compress-huff_decompress_example :
    (huff_compress text (huff_init blank) >>= λ z. huff_decompress z table) ≡ some text
huff_compress-huff_decompress_example =
    huff_compress-huff_decompress blank table table text 1 2 (omega arith) text-IsBytes one_two refl
      refl prepared text-short
