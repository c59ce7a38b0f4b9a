-- ===== src/SList/Tests.antt =====
-- The theorems at the list 7, 8 behind the head 100.
use demo_class.Common.{◌≡◌, refl, some, [], ◌∷◌, arith, ◌==◌, true, if◌then◌else◌}
use demo_class.Common.Int.{pos, negsuc}
use demo_class.SList.{Nodes, slist_invert, slist_for_each}
use demo_class.SList.Chain.{Loop}
use demo_class.SList.Invert.{slist_invert-Loop}

abbrev nodes : Nodes
nodes = record {
  next = λ p. if p == 100 then 7 else if p == 7 then 8 else 100;
  elem = λ p. if p == 7 then pos 1 else negsuc 1;
  live = λ p. true;
}

nodes-Loop : Loop nodes 100 (7 ∷ 8 ∷ [])
nodes-Loop = record { distinct = (refl, (refl, (refl, tt))); linked = (refl, (refl, refl)) }

slist_invert-Loop_example :
    (h' : Nodes) × (slist_invert 3 100 nodes ≡ some h')
    × Loop h' 100 (8 ∷ 7 ∷ [])
    × (h'.elem ≡ nodes.elem)
slist_invert-Loop_example = slist_invert-Loop nodes 100 3 (7 ∷ 8 ∷ []) nodes-Loop (omega arith)

printed : slist_for_each 3 100 nodes ≡ some (pos 1 ∷ negsuc 1 ∷ [])
unfolding slist_for_each
printed = refl
