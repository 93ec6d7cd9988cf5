-- ===== src/Adjuster/Steady.antt =====
-- An update to the definition that is already in force plans nothing.
use cassandra_operator.Base.{
  ==_iff, ==_refl, ◌≡◌, refl, true, Option, none, some, List, [], ◌∷◌, map, arith, ok, All,
}
use cassandra_operator.Platform.{Platform}
use cassandra_operator.Api.{Probe, Rack, CassandraSpec}
use cassandra_operator.Adjuster.{
  MatchedRack, match_old, match_new, scaled_up_racks, scaled_down_racks, changes_for_cluster,
  deep_equal_probes, changed_placement,
}
use cassandra_operator.Adjuster.Racks.{rack_called, DistinctNames, find_rack-called}

-- Every rack of the first list is the one of its name in the second.
Listed : List Rack → List Rack → Type 0
Listed all racks = All (λ r. rack_called r.name all ≡ some r) racks

Listed-cons :
    (x : Rack) (all racks : List Rack)
    → rack_called x.name racks ≡ none
    → Listed all racks
    → Listed (x ∷ all) racks
unfolding Listed rack_called
Listed-cons x all [] fresh l = tt
Listed-cons x all (r ∷ racks) fresh l = (
  ground (arith, ==_iff x.name r.name, ==_iff r.name x.name),
  Listed-cons x all racks (ground arith) l.1,
)

DistinctNames-Listed : (racks : List Rack) → DistinctNames racks → Listed racks racks
unfolding Listed rack_called
DistinctNames-Listed [] d = tt
DistinctNames-Listed (x ∷ racks) d =
    (ground (arith, ==_refl x.name), Listed-cons x racks racks d.0 (DistinctNames-Listed racks d.1))

abbrev unchanged : Rack → MatchedRack
unchanged r = record { old = r; new = r }

match_old-Listed :
    (all racks : List Rack) → Listed all racks → match_old all racks ≡ (map unchanged racks, [])
unfolding Listed match_old
match_old-Listed all [] l = refl
match_old-Listed all (r ∷ racks) l =
    ground (arith, find_rack-called r all, match_old-Listed all racks l.1)

match_new-Listed : (all racks : List Rack) → Listed all racks → match_new all racks ≡ []
unfolding Listed match_new
match_new-Listed all [] l = refl
match_new-Listed all (r ∷ racks) l =
    ground (arith, find_rack-called r all, match_new-Listed all racks l.1)

scaled_down-unchanged : (racks : List Rack) → scaled_down_racks (map unchanged racks) ≡ []
unfolding scaled_down_racks
scaled_down-unchanged [] = refl
scaled_down-unchanged (r ∷ racks) = ground (arith, scaled_down-unchanged racks)

scaled_up-unchanged : (racks : List Rack) → scaled_up_racks (map unchanged racks) ≡ []
unfolding scaled_up_racks
scaled_up-unchanged [] = refl
scaled_up-unchanged (r ∷ racks) = ground (arith, scaled_up-unchanged racks)

changed_placement-unchanged : (racks : List Rack) → changed_placement (map unchanged racks) ≡ none
unfolding changed_placement
changed_placement-unchanged [] = refl
changed_placement-unchanged (r ∷ racks) =
    ground (arith, ==_refl r.storage_class, ==_refl r.zone, changed_placement-unchanged racks)

deep_equal_probes_refl : (p : Option Probe) → deep_equal_probes p p ≡ true
unfolding deep_equal_probes
deep_equal_probes_refl none = refl
deep_equal_probes_refl (some p) = ground arith

module _ {P : Platform} where
  -- With no rack named twice, and quantities that are deeply equal to themselves, the update from a
  -- definition to itself is allowed and plans no change.
  pub changes_for_cluster_steady :
      (spec : CassandraSpec P)
      → DistinctNames spec.racks
      → P.deep_equal spec.pod.cpu spec.pod.cpu ≡ true
      → P.deep_equal spec.pod.memory spec.pod.memory ≡ true
      → changes_for_cluster spec spec ≡ ok []
  unfolding changes_for_cluster
  changes_for_cluster_steady spec d cpu memory =
      let l = DistinctNames-Listed spec.racks d in
      ground (
        arith,
        match_old-Listed spec.racks spec.racks l,
        match_new-Listed spec.racks spec.racks l,
        ==_refl spec.dc,
        ==_refl spec.pod.image,
        ==_refl spec.pod.bootstrapper_image,
        changed_placement-unchanged spec.racks,
        scaled_down-unchanged spec.racks,
        scaled_up-unchanged spec.racks,
        deep_equal_probes_refl spec.pod.liveness_probe,
        deep_equal_probes_refl spec.pod.readiness_probe,
      )
