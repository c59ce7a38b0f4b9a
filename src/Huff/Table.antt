-- ===== src/Huff/Table.antt =====
-- The table of codes that `huff_prepare` builds, and the file that is written with it.
use mathlib.Core.Path.{subst}
use demo_class.Common.{
  some-injective, ℕ, suc, ◌-◌, ◌^◌, ◌≤◌, ◌<◌, ◌≡◌, ◌≢◌, refl, sym, ap, ◌∙◌, true, false, some,
  ◌>>=◌, List, [], ◌∷◌, arith, length, ◌==◌,
}
use demo_class.Links.{Links}
use demo_class.Links.Seg.{has}
use demo_class.Links.Ring.{Ring, list_head_init-Ring}
use demo_class.Huff.{
  Huff, head, fuel, init_loop, huff_init, hf_build_sort_list, hf_build_hufftree, tree_loop,
  hf_fill_code, huff_prepare,
}
use demo_class.Huff.Archive.{huff_compress, huff_decompress}
use demo_class.Huff.Archive.Bits.{low_first}
use demo_class.Huff.Archive.RoundTrip.{Leads, Codes, huff_decompress-packed}
use demo_class.Huff.Climb.{filled, fill_loop-Fills}
use demo_class.Huff.Build.Forest.{Forest}
use demo_class.Huff.Build.Tree.{tree_loop-Forest}
use demo_class.Huff.Prepare.{
  count, has-count, hf_statistic_weight-count, Forest-Climbing, hf_build_sort_list-Forest,
}

two_members : (x y : ℕ) (xs : List ℕ) → x ≢ y → has x xs ≡ true → has y xs ≡ true → 2 ≤ length xs
two_members x y [] ne h k = absurd (cc)
two_members x y (a ∷ []) ne h k = ground arith
two_members x y (a ∷ b ∷ xs) ne h k = omega arith

-- the codes of the used leaves lead to them, where they have not been cut to 16 bits
abbrev pub Coded : Huff → (ℕ → ℕ) → Type 0
Coded t weight =
    (256 ≤ t.root)
    × ((j : ℕ)
        → j < 256
        → weight j ≢ 0
        → t.code_len j ≤ 16
        → Leads t t.root (low_first (t.code_len j) (t.code j)) j)

hf_build_hufftree-root :
    (h : Huff) (root : ℕ) (h' : Huff)
    → tree_loop fuel 256 h ≡ some (suc root, h')
    → 256 ≤ root
    → hf_build_hufftree h ≡ some (record h' { root = root })
unfolding hf_build_hufftree
hf_build_hufftree-root h root h' run high =
    let later : (suc root == 256) ≡ false = ground arith in
    let last : suc root - 1 ≡ root = omega arith in rw (run, later, last) refl

-- from the sorted list to the codes
build-Coded :
    (h : Huff) (xs : List ℕ)
    → Forest h 256 xs
    → 2 ≤ length xs
    → ((q : ℕ) → (h.code q ≡ 0) × (h.code_len q ≡ 0))
    → (t : Huff) × ((hf_build_hufftree h >>= hf_fill_code) ≡ some t) × Coded t h.weight
unfolding hf_fill_code
build-Coded h xs f two fresh =
    let (root, h', run, forest, high, (code, code_len, weight)) =
      tree_loop-Forest fuel 256 h xs f (omega arith) (omega arith) (omega (arith, f.room)) in
    let g = record h' { root = root } in
    let (codes, lens, (filled, kept, leads)) =
      fill_loop-Fills g (Forest-Climbing h' root forest high) 256 0 h'.code h'.code_len
        (omega arith)
        (λ j low. (ap (λ q. q j) code ∙ (fresh j).0, ap (λ q. q j) code_len ∙ (fresh j).1)) in
    (
      record g { code = codes; code_len = lens },
      ap (λ q. q >>= hf_fill_code) (hf_build_hufftree-root h root h' run high) ∙ filled,
      (
        high,
        λ j low used short. leads j (omega arith) low (λ e. used (sym (weight j low) ∙ e)) short,
      ),
    )

init_loop-Ring : (m : Links) → Ring (huff_init m).links head []
unfolding huff_init
init_loop-Ring m = list_head_init-Ring head (init_loop 511 0 m)

-- On a fresh table `huff_prepare` ends for a file shorter than 2^64 bytes that holds two different
-- ones; each code that it builds for a byte of the file leads from the root down to that byte, if
-- it is not longer than 16 bits.
pub huff_prepare-Coded :
    (m : Links) (src : List ℕ) (x y : ℕ)
    → length src < 2 ^ 64
    → ((b : ℕ) → has b src ≡ true → b < 256)
    → x ≢ y
    → has x src ≡ true
    → has y src ≡ true
    → (t : Huff) × (huff_prepare src (huff_init m) ≡ some t) × Coded t (λ b. count b src)
unfolding huff_init huff_prepare
huff_prepare-Coded m src x y short bytes ne in_x in_y =
    let h = huff_init m in
    let (weight, run, total) =
      hf_statistic_weight-count h src (λ q. 0) (λ q. omega (arith, short)) in
    let h₁ = record h { weight = weight } in
    let (links, xs, sorted, f, members) = hf_build_sort_list-Forest h₁ (init_loop-Ring m) in
    let h₂ = record h₁ { links = links } in
    let used : (b : ℕ) → has b src ≡ true → has b xs ≡ true =
      λ b e. members b (bytes b e) (omega (arith, total b, has-count b src e)) in
    let (t, built, (high, leads)) =
      build-Coded h₂ xs f (two_members x y xs ne (used x in_x) (used y in_y)) (λ q. (refl, refl)) in
    (
      t,
      ap (λ q. hf_build_sort_list q >>= hf_build_hufftree >>= hf_fill_code) run
          ∙ ap (λ q. q >>= hf_build_hufftree >>= hf_fill_code) sorted
          ∙ built,
      (high, λ j low some_j. leads j low (λ e. some_j (omega (arith, total j, e)))),
    )

module _ (t : Huff) (file : List ℕ) (coded : Coded t (λ b. count b file))
    (bytes : (b : ℕ) → has b file ≡ true → b < 256)
    (short : (b : ℕ) → has b file ≡ true → t.code_len b ≤ 16) where
  Coded-Codes : (src : List ℕ) → ((b : ℕ) → has b src ≡ true → has b file ≡ true) → Codes t t src
  Coded-Codes [] sub = tt
  Coded-Codes (b ∷ src) sub =
      let here : has b file ≡ true = sub b (ground arith) in
      (
        bytes b here,
        coded.1 b (bytes b here) (omega (arith, has-count b file here)) (short b here),
        Coded-Codes src (λ q e. sub q (ground arith)),
      )

-- A file shorter than 2^64 bytes that holds at least two different ones comes back from the file
-- that `huff_compress` makes of it with a fresh table, whatever the reader's table holds before,
-- where no code has been cut: none is longer than 16 bits.
pub huff_compress-huff_decompress :
    (m : Links) (h t : Huff) (src : List ℕ) (x y : ℕ)
    → length src < 2 ^ 64
    → ((b : ℕ) → has b src ≡ true → b < 256)
    → x ≢ y
    → has x src ≡ true
    → has y src ≡ true
    → huff_prepare src (huff_init m) ≡ some t
    → ((b : ℕ) → has b src ≡ true → t.code_len b ≤ 16)
    → (huff_compress src (huff_init m) >>= λ z. huff_decompress z h) ≡ some src
unfolding huff_compress
huff_compress-huff_decompress m h t [] x y size bytes ne in_x in_y run short = absurd (cc)
huff_compress-huff_decompress m h t (b ∷ src) x y size bytes ne in_x in_y run short =
    let (t', run', coded) = huff_prepare-Coded m (b ∷ src) x y size bytes ne in_x in_y in
    let same : t' ≡ t = some-injective (sym run' ∙ run) in
    let coded' = subst (λ q. Coded q (λ c. count c (b ∷ src))) same coded in
    rw run (
      huff_decompress-packed t h b src coded'.0
        (Coded-Codes t (b ∷ src) coded' bytes short (b ∷ src) (λ q e. e)))
