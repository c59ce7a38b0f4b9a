-- ===== src/PlainList/Pushed.antt =====
-- 01DataStruct/01Slist/03nohead_noloop_slist.c: what the walk prints.
use mathlib.Core.Path.{subst}
use demo_class.Common.{
  ℕ, zero, suc, ◌+◌, ◌<◌, ◌≡◌, ◌≢◌, refl, sym, ap, ◌∙◌, inl, inr, Bool-cases, true, false, arith,
  some, List, [], ◌∷◌, ◌++◌, append_assoc, append-nil, map, reverse, length, ◌==◌,
}
use demo_class.Common.Int.{ℤ}
use demo_class.Links.Seg.{has, IsDistinct, Distinct-append, append-Distinct}
use demo_class.SList.{Nodes, set_next}
use demo_class.PlainList.{slist_add, slist_for_each, add_loop}

-- the nodes from `p` on
abbrev pub IsList : Nodes → ℕ → List ℕ → Type 0
IsList h p [] = p ≡ 0
IsList h p (x ∷ xs) = (p ≡ x) × (x ≢ 0) × IsList h (h.next x) xs

-- a list depends on its own nodes
IsList-frame :
    (h h' : Nodes) (p : ℕ) (xs : List ℕ)
    → ((x : ℕ) → has x xs ≡ true → h'.next x ≡ h.next x)
    → IsList h p xs
    → IsList h' p xs
IsList-frame h h' p [] same l = l
IsList-frame h h' p (x ∷ xs) same (e, ne, l) =
    let here : h'.next x ≡ h.next x = same x (ground arith) in
    (e, ne, rw here (IsList-frame h h' (h.next x) xs (λ y at. same y (ground arith)) l))

-- the nodes in the order in which they were added last
abbrev pub onto : List ℕ → List ℕ → List ℕ
onto [] xs = xs
onto (n ∷ ns) xs = onto ns (n ∷ xs)

-- an empty list is no case of its own
slist_add-eq : (h : Nodes) (p node : ℕ) → slist_add p node h ≡ (node, set_next node p h)
unfolding slist_add
slist_add-eq h p node = elim (Bool-cases (p == 0)) [
  | inl y ↦
      let p0 : p ≡ 0 = ground arith in rw y (ap (λ (q : ℕ). (node, set_next node q h)) (sym p0))
  | inr n ↦ rw n refl
]

set_next-IsList :
    (h : Nodes) (p node : ℕ) (xs : List ℕ)
    → IsList h p xs
    → node ≢ 0
    → has node xs ≡ false
    → IsList (set_next node p h) node (node ∷ xs)
set_next-IsList h p node xs l ne fresh =
    let self : (set_next node p h).next node ≡ p = ground arith in
    (
      refl,
      ne,
      subst (λ q. IsList (set_next node p h) q xs) (sym self)
          (IsList-frame h (set_next node p h) p xs (λ x at. ground arith) l),
    )

add_loop-IsList :
    (ns : List ℕ) (p : ℕ) (h : Nodes) (xs : List ℕ)
    → IsList h p xs
    → IsDistinct (ns ++ xs)
    → has 0 ns ≡ false
    → IsList (add_loop ns p h).1 (add_loop ns p h).0 (onto ns xs)
      × ((x : ℕ) → (add_loop ns p h).1.elem x ≡ h.elem x)
unfolding add_loop
add_loop-IsList [] p h xs l dx given = (l, λ x. refl)
add_loop-IsList (n ∷ ns) p h xs l dx given =
    let (dn, d, apart) = Distinct-append (n ∷ ns) xs dx in
    let fresh = apart n (ground arith) in
    let h' = set_next n p h in
    let d' = append-Distinct ns (n ∷ xs) dn.1 (fresh, d) (λ q at. ground (arith, apart q, dn.0)) in
    subst (λ (r : ℕ × Nodes). IsList r.1 r.0 (onto ns (n ∷ xs)) × ((x : ℕ) → r.1.elem x ≡ h.elem x))
      (sym (ap (λ (r : ℕ × Nodes). add_loop ns r.0 r.1) (slist_add-eq h p n)))
      (add_loop-IsList ns n h' (n ∷ xs) (set_next-IsList h p n xs l (ground arith) fresh) d'
        (ground arith))

slist_for_each-IsList :
    (xs : List ℕ) (k p : ℕ) (h : Nodes)
    → IsList h p xs
    → length xs < k
    → slist_for_each k p h ≡ some (map h.elem xs)
unfolding slist_for_each
slist_for_each-IsList xs zero p h l fuel = absurd (omega arith)
slist_for_each-IsList [] (suc k) p h l fuel =
    let stop : (p == 0) ≡ true = ground arith in rw (stop, slist_for_each) refl
slist_for_each-IsList (x ∷ xs) (suc k) p h (e, ne, l) fuel =
    let more : (x == 0) ≡ false = ground arith in
    let rest = slist_for_each-IsList xs k (h.next x) h l (omega arith) in
    let step : slist_for_each (suc k) x h ≡ some (h.elem x ∷ map h.elem xs) =
      rw (more, slist_for_each, rest) refl in
    ap (λ (q : ℕ). slist_for_each (suc k) q h) e ∙ step

onto-eq : (ns xs : List ℕ) → onto ns xs ≡ reverse ns ++ xs
onto-eq [] xs = refl
onto-eq (n ∷ ns) xs =
    onto-eq ns (n ∷ xs)
    ∙ sym (append_assoc (reverse ns) (n ∷ []) xs)
    ∙ ap (λ (zs : List ℕ). zs ++ xs) (sym (onto-eq ns (n ∷ [])))

length-onto : (ns xs : List ℕ) → length (onto ns xs) ≡ length ns + length xs
length-onto [] xs = (omega arith)
length-onto (n ∷ ns) xs = let rest = length-onto ns (n ∷ xs) in ground arith

map-same : (f g : ℕ → ℤ) (xs : List ℕ) → ((x : ℕ) → f x ≡ g x) → map f xs ≡ map g xs
map-same f g [] e = refl
map-same f g (x ∷ xs) e = let rest = map-same f g xs e in rw (e x, rest) refl

-- The walk over a list made of different nodes, none of them NULL, ends and prints their data, the node that
-- was added last first.
pub slist_for_each-reverse :
    (ns : List ℕ) (k : ℕ) (h : Nodes)
    → IsDistinct ns
    → has 0 ns ≡ false
    → length ns < k
    → slist_for_each k (add_loop ns 0 h).0 (add_loop ns 0 h).1 ≡ some (map h.elem (reverse ns))
slist_for_each-reverse ns k h dx given fuel =
    let r = add_loop ns 0 h in
    let (l, same) = add_loop-IsList ns 0 h [] refl (rw append-nil dx) given in
    let order : onto ns [] ≡ reverse ns = onto-eq ns [] ∙ append-nil (reverse ns) in
    let few : length (reverse ns) < k =
      let l = length-onto ns [] in let e = ap length order in ground arith in
    slist_for_each-IsList (reverse ns) k r.0 r.1 (subst (IsList r.1 r.0) order l) few
    ∙ ap (λ (ds : List ℤ). some ds) (map-same r.1.elem h.elem (reverse ns) same)
