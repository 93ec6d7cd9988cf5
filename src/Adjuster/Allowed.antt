-- ===== src/Adjuster/Allowed.antt =====
-- Which updates adjuster.go refuses, which of the planned changes the operator can carry out, and
-- that an unchanged definition needs none.
use cassandra_operator.Base.{
  ==_iff, ◌≡◌, ◌↔◌, refl, Option, none, some, List, [], ◌∷◌, ◌++◌, map, arith, Result, ok, err,
  Option-cases, All, ◌⊎◌, inl, inr, All-append_iff, All-map,
}
use cassandra_operator.Base.Int.{◌≤ℤ◌}
use cassandra_operator.Platform.{Platform}
use cassandra_operator.Api.{Rack, CassandraSpec}
use cassandra_operator.Adjuster.{
  ClusterChange, add_rack, update_rack, MatchedRack, find_rack, match_old, match_new, match_racks,
  scaled_down_racks, changes, changes_for_cluster, added_change, deleted_change, scaled_down_change,
  updated_change, racks_to_update, pod_spec_has_changed, ensure_change_is_allowed,
  changed_placement, ForbiddenChange,
}
use cassandra_operator.Adjuster.Racks.{rack_called, find_rack-called}

-- The rack of the same name, if the new definition has one, keeps its storage class and its zone.
abbrev pub KeepsPlacement : Rack → Option Rack → Type 0
KeepsPlacement r none = Unit
KeepsPlacement r (some f) = (f.storage_class ≡ r.storage_class) × (f.zone ≡ r.zone)

changed_placement_iff :
    (old new : List Rack)
    → (changed_placement (match_old new old).0 ≡ none)
      ↔ All (λ r. KeepsPlacement r (rack_called r.name new)) old
unfolding changed_placement match_old
changed_placement_iff [] new = (λ h. tt, λ h. refl)
changed_placement_iff (r ∷ old) new = elim (Option-cases (find_rack r new)) [
  | inl e ↦ ground (arith, find_rack-called r new, changed_placement_iff old new)
  | inr (f, e) ↦ ground (
    arith,
    find_rack-called r new,
    changed_placement_iff old new,
    ==_iff f.storage_class r.storage_class,
    ==_iff f.zone r.zone,
  )
]

abbrev pub Planned : Result ForbiddenChange (List ClusterChange) → Type 0
Planned (ok cs) = Unit
Planned (err e) = ⊥

-- A change that the operator carries out; the other two end in a warning.
abbrev pub IsSupported : ClusterChange → Type 0
IsSupported c = (c.change_type ≡ add_rack) ⊎ (c.change_type ≡ update_rack)

-- The rack of the same name is there, with at least as many replicas.
abbrev pub NotShrunk : Rack → Option Rack → Type 0
NotShrunk r none = ⊥
NotShrunk r (some f) = r.replicas ≤ℤ f.replicas

deleted_unsupported :
    (racks : List Rack) → All IsSupported (map deleted_change racks) ↔ (racks ≡ [])
deleted_unsupported [] = (λ h. refl, λ h. tt)
deleted_unsupported (r ∷ racks) = ground arith

scaled_unsupported :
    (ms : List MatchedRack) → All IsSupported (map scaled_down_change ms) ↔ (ms ≡ [])
scaled_unsupported [] = (λ h. refl, λ h. tt)
scaled_unsupported (m ∷ ms) = ground arith

nothing_lost_iff :
    (old new : List Rack)
    → (((match_old new old).1 ≡ []) × (scaled_down_racks (match_old new old).0 ≡ []))
      ↔ All (λ r. NotShrunk r (rack_called r.name new)) old
unfolding match_old scaled_down_racks
nothing_lost_iff [] new = (λ h. tt, λ h. (refl, refl))
nothing_lost_iff (r ∷ old) new = elim (Option-cases (find_rack r new)) [
  | inl e ↦ ground (arith, find_rack-called r new)
  | inr (f, e) ↦ ground (arith, find_rack-called r new, nothing_lost_iff old new)
]

module _ {P : Platform} where
  -- ChangesForCluster returns changes and no error exactly if the data centre, the Cassandra image and
  -- useEmptyDir are unchanged, and every old rack that the new definition has keeps its storage class
  -- and its zone.
  pub changes_for_cluster_allowed_iff :
      (old new : CassandraSpec P)
      → Planned (changes_for_cluster old new) ↔ (
          (old.dc ≡ new.dc)
          × (old.pod.image ≡ new.pod.image)
          × (old.use_empty_dir ≡ new.use_empty_dir)
          × All (λ r. KeepsPlacement r (rack_called r.name new.racks)) old.racks)
  unfolding changes_for_cluster match_racks ensure_change_is_allowed
  changes_for_cluster_allowed_iff old new = ground (
    arith,
    ==_iff old.dc new.dc,
    ==_iff old.pod.image new.pod.image,
    changed_placement_iff old.racks new.racks,
  )

  -- If an update is allowed, all its planned changes are of the kinds that the operator carries out,
  -- adding and updating a rack, exactly if every old rack is in the new definition with at least as many
  -- replicas.
  pub IsSupported-iff :
      (old new : CassandraSpec P) {cs : List ClusterChange}
      → changes_for_cluster old new ≡ ok cs
      → All IsSupported cs ↔ All (λ r. NotShrunk r (rack_called r.name new.racks)) old.racks
  unfolding changes_for_cluster match_racks changes
  IsSupported-iff old new {cs} h =
      let matched : List MatchedRack = (match_old new.racks old.racks).0 in
      let update : Rack → ClusterChange = updated_change new.pod in
      let racks : List Rack = racks_to_update (pod_spec_has_changed old new) matched in
      ground (
        arith,
        All-append_iff IsSupported (map added_change (match_new old.racks new.racks)) (
            map deleted_change (match_old new.racks old.racks).1
            ++ (map scaled_down_change (scaled_down_racks matched) ++ map update racks)),
        All-append_iff IsSupported (map deleted_change (match_old new.racks old.racks).1)
            (map scaled_down_change (scaled_down_racks matched) ++ map update racks),
        All-append_iff IsSupported (map scaled_down_change (scaled_down_racks matched))
            (map update racks),
        deleted_unsupported (match_old new.racks old.racks).1,
        scaled_unsupported (scaled_down_racks matched),
        All-map IsSupported added_change (match_new old.racks new.racks) (λ x. inl refl),
        All-map IsSupported update racks (λ x. inr refl),
        nothing_lost_iff old.racks new.racks,
      )
