-- ===== src/PlainList/Tests.antt =====
-- The eight nodes of `main`, at the addresses 1 to 8.
use demo_class.Common.{ℕ, ◌≡◌, refl, true, some, List, [], ◌∷◌, map}
use demo_class.Common.Int.{pos}
use demo_class.SList.{Nodes}
use demo_class.PlainList.{slist_for_each, add_loop}

abbrev nodes : Nodes
nodes = record { next = λ p. 0; elem = λ p. pos p; live = λ p. true }

abbrev addresses : List ℕ
addresses = 1 ∷ 2 ∷ 3 ∷ 4 ∷ 5 ∷ 6 ∷ 7 ∷ 8 ∷ []

last_first :
    slist_for_each 9 (add_loop addresses 0 nodes).0 (add_loop addresses 0 nodes).1
    ≡ some (map pos (8 ∷ 7 ∷ 6 ∷ 5 ∷ 4 ∷ 3 ∷ 2 ∷ 1 ∷ []))
unfolding slist_for_each add_loop
last_first = refl
