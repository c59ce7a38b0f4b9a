-- ===== src/ListSort/Swap.antt =====
-- `swap` exchanges two links of a list.
use mathlib.Core.Path.{subst}
use demo_class.Common.{ℕ, ◌≡◌, sym, false, List, ◌∷◌, ◌++◌, append_assoc, arith}
use demo_class.Links.{Links, list_head_init, list_insert, list_del}
use demo_class.Links.Seg.{has}
use demo_class.Links.Ring.{Ring, Ring-frame, list_del-Ring, Distinct-delete}
use demo_class.Links.Beside.{insert_behind-Ring}
use demo_class.ListSort.{swap}

-- `q` put behind `p`, and `p` taken out: `q` stands where `p` stood, and `p` is in no list
replace-Ring :
    (m : Links) (head p q : ℕ) (xs ys : List ℕ)
    → Ring m head (xs ++ p ∷ ys)
    → has q (head ∷ (xs ++ p ∷ ys)) ≡ false
    → Ring (list_del p (list_insert q p (m.next p) m)) head (xs ++ q ∷ ys)
      × (has p (head ∷ (xs ++ q ∷ ys)) ≡ false)
replace-Ring m head p q xs ys r fresh =
    let both = insert_behind-Ring m head p q xs ys r fresh in
    (
      list_del-Ring (list_insert q p (m.next p) m) head p xs (q ∷ ys) both,
      (Distinct-delete head p xs (q ∷ ys) both.distinct).1,
    )

-- The same of a link further behind.
replace-later :
    (m : Links) (head p q x : ℕ) (xs ys zs : List ℕ)
    → Ring m head (xs ++ x ∷ (ys ++ p ∷ zs))
    → has q (head ∷ (xs ++ x ∷ (ys ++ p ∷ zs))) ≡ false
    → Ring (list_del p (list_insert q p (m.next p) m)) head (xs ++ x ∷ (ys ++ q ∷ zs))
      × (has p (head ∷ (xs ++ x ∷ (ys ++ q ∷ zs))) ≡ false)
replace-later m head p q x xs ys zs r fresh =
    let split : (ws : List ℕ) → (xs ++ x ∷ ys) ++ ws ≡ xs ++ x ∷ (ys ++ ws) =
      λ ws. append_assoc xs (x ∷ ys) ws in
    let (ring, out) =
      replace-Ring m head p q (xs ++ x ∷ ys) zs (subst (Ring m head) (sym (split (p ∷ zs))) r)
        (subst (λ ws. has q (head ∷ ws) ≡ false) (sym (split (p ∷ zs))) fresh) in
    (
      subst (Ring (list_del p (list_insert q p (m.next p) m)) head) (split (q ∷ zs)) ring,
      subst (λ ws. has p (head ∷ ws) ≡ false) (split (q ∷ zs)) out,
    )

init-frame :
    (m : Links) (head node : ℕ) (xs : List ℕ)
    → has node (head ∷ xs) ≡ false
    → Ring m head xs
    → Ring (list_head_init node m) head xs
unfolding list_head_init
init-frame m head node xs fresh r =
    Ring-frame m (list_head_init node m) head xs (λ p at. (ground arith, ground arith)) r

-- `swap` exchanges two links of a list, whichever of them comes first, where its local link is none
-- of theirs.
pub swap-Ring :
    (m : Links) (head node pa pb : ℕ) (xs ys zs : List ℕ)
    → has node (head ∷ (xs ++ pa ∷ (ys ++ pb ∷ zs))) ≡ false
    → Ring m head (xs ++ pa ∷ (ys ++ pb ∷ zs))
    → Ring (swap node pa pb m) head (xs ++ pb ∷ (ys ++ pa ∷ zs))
      × Ring (swap node pb pa m) head (xs ++ pb ∷ (ys ++ pa ∷ zs))
unfolding swap
swap-Ring m head node pa pb xs ys zs fresh r =
    let m₀ = list_head_init node m in
    let start = init-frame m head node (xs ++ pa ∷ (ys ++ pb ∷ zs)) fresh r in
    let m₁ = list_del pa (list_insert node pa (m₀.next pa) m₀) in
    let (one, pa_out) = replace-Ring m₀ head pa node xs (ys ++ pb ∷ zs) start fresh in
    let m₂ = list_del pb (list_insert pa pb (m₁.next pb) m₁) in
    let (two, pb_out) = replace-later m₁ head pb pa node xs ys zs one pa_out in
    let n₁ = list_del pb (list_insert node pb (m₀.next pb) m₀) in
    let (uno, pb_free) = replace-later m₀ head pb node pa xs ys zs start fresh in
    let n₂ = list_del pa (list_insert pb pa (n₁.next pa) n₁) in
    let (due, pa_free) = replace-Ring n₁ head pa pb xs (ys ++ node ∷ zs) uno pb_free in
    (
      (replace-Ring m₂ head node pb xs (ys ++ pa ∷ zs) two pb_out).0,
      (replace-later n₂ head node pa pb xs ys zs due pa_free).0,
    )
