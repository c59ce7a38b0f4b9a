-- ===== src/SList/Delete.antt =====
-- `slist_del` takes out the first node that holds the data.
use demo_class.Common.{
  ℕ, zero, suc, ◌<◌, ◌≡◌, refl, ◌∙◌, inl, inr, Bool, true, false, some, List, [], ◌∷◌, ◌==◌, arith,
  length, if◌then◌else◌, Bool-cases,
}
use demo_class.Common.Int.{ℤ, pos, negsuc}
use demo_class.Links.Seg.{has, IsDistinct}
use demo_class.SList.{Nodes, del_loop, slist_del, same_int, set_next, set_live}
use demo_class.SList.Chain.{Chain, Loop, Chain-frame}

-- the list without the first node that passes a test, and the code that `slist_del` returns
abbrev pub remove_first : (ℕ → Bool) → List ℕ → List ℕ
remove_first match [] = []
remove_first match (x ∷ xs) = if match x then xs else x ∷ remove_first match xs

abbrev pub code : (ℕ → Bool) → List ℕ → ℤ
code match [] = negsuc 0
code match (x ∷ xs) = if match x then pos 0 else code match xs

has-remove_first :
    (match : ℕ → Bool) (p : ℕ) (xs : List ℕ)
    → has p (remove_first match xs) ≡ true
    → has p xs ≡ true
has-remove_first match p [] h = h
has-remove_first match p (x ∷ xs) h = ground (arith, has-remove_first match p xs)

remove_first-IsDistinct :
    (match : ℕ → Bool) (xs : List ℕ) → IsDistinct xs → IsDistinct (remove_first match xs)
remove_first-IsDistinct match [] d = tt
remove_first-IsDistinct match (x ∷ xs) d = elim (Bool-cases (match x)) [
  | inl e ↦ rw e d.1
  | inr e ↦
      rw e (ground (arith, d.0, has-remove_first match x xs), remove_first-IsDistinct match xs d.1)
]

-- the nodes behind `x` stand behind `a` when its `next` is what `x`'s was
pub Chain-bypass :
    (f g : ℕ → ℕ) (x a end : ℕ) (xs : List ℕ)
    → g a ≡ f x
    → ((p : ℕ) → has p xs ≡ true → g p ≡ f p)
    → Chain f x xs end
    → Chain g a xs end
Chain-bypass f g x a end [] e same c = e ∙ c
Chain-bypass f g x a end (y ∷ ys) e same c = (e ∙ c.0, Chain-frame f g y end ys same c.1)

module _ (head : ℕ) (d : ℤ) (h : Nodes) where
  abbrev pub holds : ℕ → Bool
  holds x = same_int (h.elem x) d

  del_loop_lem :
      (xs : List ℕ) (k a : ℕ)
      → length xs < k
      → IsDistinct (a ∷ xs)
      → has head xs ≡ false
      → Chain h.next a xs head
      → (h' : Nodes) × (del_loop k head d a (h.next a) h ≡ some (code holds xs, h'))
        × Chain h'.next a (remove_first holds xs) head
        × ((p : ℕ) → has p (a ∷ xs) ≡ false → h'.next p ≡ h.next p)
  unfolding del_loop
  del_loop_lem xs zero a fuel dx out c = absurd (omega arith)
  del_loop_lem [] (suc k) a fuel dx out c =
      let home : (head == head) ≡ true = ground arith in rw (c, home) (h, refl, c, λ p away. refl)
  del_loop_lem (x ∷ xs) (suc k) a fuel dx out c =
      let more : (x == head) ≡ false = ground arith in
      elim (Bool-cases (holds x)) [
        | inl e ↦
            let h' = set_live x false (set_next x x (set_next a (h.next x) h)) in
            rw (c.0, more, e)
              (
                h',
                refl,
                Chain-bypass h.next h'.next x a head xs (ground (arith, dx.0))
                    (λ p at. ground (arith, dx.0, dx.1.0)) c.1,
                λ p away. ground arith,
              )
        | inr e ↦
            let (h', run, rest, same) = del_loop_lem xs k x (omega arith) dx.1 (ground arith) c.1 in
            rw (c.0, more, e) (h', run, (same a dx.0 ∙ c.0, rest), λ p away. same p (ground arith))
      ]

  -- `slist_del` ends with the first node that holds the data taken out, or with -1 and the list as it
  -- was where there is none.
  pub slist_del-Loop :
      (k : ℕ) (xs : List ℕ)
      → Loop h head xs
      → length xs < k
      → (h' : Nodes) × (slist_del k head d h ≡ some (code holds xs, h'))
        × Loop h' head (remove_first holds xs)
  unfolding slist_del
  slist_del-Loop k xs l fuel =
      let (h', run, rest, same) = del_loop_lem xs k head fuel l.distinct l.distinct.0 l.linked in
      (
        h',
        run,
        record {
          distinct = (
            ground (arith, l.distinct.0, has-remove_first holds head xs),
            remove_first-IsDistinct holds xs l.distinct.1,
          );
          linked = rest;
        },
      )
