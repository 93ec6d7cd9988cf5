-- ===== src/Adjuster/Racks.antt =====
-- The racks of a definition by their names, and what each change of adjuster.go is meant to do to them.
use cassandra_operator.Base.{
  String, ◌==◌, ◌≡◌, refl, Option, none, some, List, [], ◌∷◌, arith, if◌then◌else◌,
}
use mathlib.Core.List.{foldl}
use cassandra_operator.Base.Int.{ℤ}
use cassandra_operator.Api.{Rack}
use cassandra_operator.Adjuster.{
  ClusterChange, ClusterChangeType, delete_rack, add_rack, update_rack, scale_down_rack, find_rack,
}

-- What a change is meant to do to the replicas of the rack called k, where `none` is no such rack.
abbrev pub meant : ClusterChangeType → Rack → Option ℤ
meant add_rack rack = some rack.replicas
meant delete_rack rack = none
meant update_rack rack = some rack.replicas
meant scale_down_rack rack = some rack.replicas

abbrev pub effect : String → Option ℤ → ClusterChange → Option ℤ
effect k before c = if c.rack.name == k then meant c.change_type c.rack else before

-- The replicas of the rack called k after the changes, made in order.
abbrev pub after : String → Option ℤ → List ClusterChange → Option ℤ
after k = foldl (effect k)

-- The rack called k, and its replicas.
unfoldable pub rack_called : String → List Rack → Option Rack
rack_called k [] = none
rack_called k (rack ∷ racks) = if rack.name == k then some rack else rack_called k racks

abbrev pub replicas_of : Option Rack → Option ℤ
replicas_of none = none
replicas_of (some rack) = some rack.replicas

abbrev pub replicas_called : String → List Rack → Option ℤ
replicas_called k racks = replicas_of (rack_called k racks)

-- No two racks have one name.
abbrev pub DistinctNames : List Rack → Type 0
DistinctNames [] = Unit
DistinctNames (rack ∷ racks) = (rack_called rack.name racks ≡ none) × DistinctNames racks

pub find_rack-called : (r : Rack) (racks : List Rack) → find_rack r racks ≡ rack_called r.name racks
unfolding find_rack rack_called
find_rack-called r [] = refl
find_rack-called r (x ∷ racks) = ground (arith, find_rack-called r racks)
