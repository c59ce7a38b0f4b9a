-- ===== src/NullList/Tests.antt =====
-- The theorem at the list 7, 8 behind the head 100.
use demo_class.Common.{refl, [], ◌∷◌, ◌==◌, true, if◌then◌else◌}
use demo_class.Common.Int.{pos}
use demo_class.SList.{Nodes}
use demo_class.NullList.Delete.{Row}

abbrev nodes : Nodes
nodes = record {
  next = λ p. if p == 100 then 7 else if p == 7 then 8 else 0;
  elem = λ p. pos p;
  live = λ p. true;
}

nodes-Row : Row nodes 100 (7 ∷ 8 ∷ [])
nodes-Row = record {
  distinct = (refl, (refl, (refl, tt)));
  given = refl;
  linked = (refl, (refl, refl));
}
