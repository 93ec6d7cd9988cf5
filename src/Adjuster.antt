-- ===== src/Adjuster.antt =====
-- cassandra-operator/pkg/operator/operations/adjuster/adjuster.go: which changes turn the racks of
-- one definition into those of another.
pub mod Patch
pub mod Racks
pub mod Convergence
pub mod Allowed
pub mod Steady
use cassandra_operator.Base.{
  String, ◌==◌, Bool, true, false, not, ◌&&◌, ◌||◌, Option, none, some, List, [], ◌∷◌, ◌++◌, map,
  eq_bool, if◌then◌else◌, Result, ok, err,
}
use cassandra_operator.Base.Int.{ℤ, pos, ◌-ℤ◌, ltb_ℤ, eqb_ℤ, int32}
use cassandra_operator.Platform.{Platform}
use cassandra_operator.Api.{Probe, Pod, Rack, CassandraSpec}
use cassandra_operator.Kube.{ConfigMap}
use cassandra_operator.Hash.{config_map_hash}
use cassandra_operator.Cluster.Resources.{config_hash_annotation}
use cassandra_operator.Cluster.{default_cassandra_image, default_dc_name}
use cassandra_operator.Cluster.Definition.{default_text}
use cassandra_operator.Adjuster.Patch.{
  update_annotation_patch, patch_for_rack, scale_down_patch_for_rack,
}

pub data ClusterChangeType : Type 0 where
  delete_rack add_rack update_rack scale_down_rack : ClusterChangeType

pub record ClusterChange : Type 0 where
  pub rack : Rack
  pub change_type : ClusterChangeType
  pub patch : String
  pub nodes_to_scale_down : ℤ

pub record MatchedRack : Type 0 where
  pub old : Rack
  pub new : Rack

-- An error of ensureChangeIsAllowed, with the values that its message prints.
pub data ForbiddenChange : Type 0 where
  dc_changed image_changed : String → ForbiddenChange
  use_empty_dir_changed : Bool → ForbiddenChange
  storage_class_changed zone_changed : String → String → ForbiddenChange

-- The first rack of the given name.
unfoldable pub find_rack : Rack → List Rack → Option Rack
find_rack rack_to_find [] = none
find_rack rack_to_find (rack ∷ racks) =
    if rack.name == rack_to_find.name then some rack else find_rack rack_to_find racks

-- The first loop of matchRacks: the matched and the removed racks.
unfoldable pub match_old : List Rack → List Rack → List MatchedRack × List Rack
unfolding find_rack
match_old new [] = ([], [])
match_old new (rack ∷ old) =
    let (matched, removed) = match_old new old in
    elim (find_rack rack new) [
      | some found ↦ (record { old = rack; new = found } ∷ matched, removed)
      | none ↦ (matched, rack ∷ removed)
    ]

-- The second loop: the added racks.
unfoldable pub match_new : List Rack → List Rack → List Rack
unfolding find_rack
match_new old [] = []
match_new old (rack ∷ new) =
    let added = match_new old new in
    elim (find_rack rack old) [ some found ↦ added | none ↦ rack ∷ added ]

unfoldable pub scaled_up_racks : List MatchedRack → List Rack
scaled_up_racks [] = []
scaled_up_racks (m ∷ ms) =
    let rest = scaled_up_racks ms in
    if ltb_ℤ m.old.replicas m.new.replicas then m.new ∷ rest else rest

unfoldable pub scaled_down_racks : List MatchedRack → List MatchedRack
scaled_down_racks [] = []
scaled_down_racks (m ∷ ms) =
    let rest = scaled_down_racks ms in
    if ltb_ℤ m.new.replicas m.old.replicas then m ∷ rest else rest

unfoldable pub changed_placement : List MatchedRack → Option ForbiddenChange
changed_placement [] = none
changed_placement (m ∷ ms) =
    let rest = changed_placement ms in
    if not (m.new.storage_class == m.old.storage_class)
    then some (storage_class_changed m.old.name m.old.storage_class)
    else if not (m.new.zone == m.old.zone)
    then some (zone_changed m.old.name m.old.zone)
    else rest

-- reflect.DeepEqual at *Probe.
abbrev equal_probes : Probe → Probe → Bool
equal_probes p q =
    eqb_ℤ p.failure_threshold q.failure_threshold
    && eqb_ℤ p.initial_delay_seconds q.initial_delay_seconds
    && eqb_ℤ p.period_seconds q.period_seconds
    && eqb_ℤ p.success_threshold q.success_threshold
    && eqb_ℤ p.timeout_seconds q.timeout_seconds

unfoldable pub deep_equal_probes : Option Probe → Option Probe → Bool
deep_equal_probes none none = true
deep_equal_probes none (some q) = false
deep_equal_probes (some p) none = false
deep_equal_probes (some p) (some q) = equal_probes p q

abbrev pub added_change : Rack → ClusterChange
added_change rack = record {
  rack = rack;
  change_type = add_rack;
  patch = "";
  nodes_to_scale_down = pos 0;
}

abbrev pub deleted_change : Rack → ClusterChange
deleted_change rack = record {
  rack = rack;
  change_type = delete_rack;
  patch = "";
  nodes_to_scale_down = pos 0;
}

-- The difference of two int32, which wraps.
unfoldable pub nodes_to_remove : MatchedRack → ℤ
unfolding int32 ◌-ℤ◌
nodes_to_remove m = int32 (m.old.replicas -ℤ m.new.replicas)

abbrev pub scaled_down_change : MatchedRack → ClusterChange
scaled_down_change m = record {
  rack = m.new;
  change_type = scale_down_rack;
  patch = scale_down_patch_for_rack (nodes_to_remove m);
  nodes_to_scale_down = nodes_to_remove m;
}

-- The racks to update: all that matched if the pods change, else those that grow.
abbrev pub racks_to_update : Bool → List MatchedRack → List Rack
racks_to_update true matched = map (λ m. m.new) matched
racks_to_update false matched = scaled_up_racks matched

-- CreateConfigMapHashPatchForRack.
unfoldable pub config_map_hash_change : Platform → Rack → ConfigMap → ClusterChange
unfolding update_annotation_patch config_map_hash
config_map_hash_change P rack cm = record {
  rack = rack;
  change_type = update_rack;
  patch = update_annotation_patch config_hash_annotation (config_map_hash P (some cm));
  nodes_to_scale_down = pos 0;
}

module _ {P : Platform} where
  unfoldable pub match_racks :
      CassandraSpec P → CassandraSpec P → List Rack × List MatchedRack × List Rack
  unfolding match_old match_new
  match_racks old new =
      let (matched, removed) = match_old new.racks old.racks in
      (match_new old.racks new.racks, matched, removed)

  unfoldable pub ensure_change_is_allowed :
      CassandraSpec P → CassandraSpec P → List MatchedRack → Option ForbiddenChange
  unfolding changed_placement
  ensure_change_is_allowed old new matched =
      if not (old.dc == new.dc)
      then some (dc_changed (default_text default_dc_name old.dc))
      else if not (old.pod.image == new.pod.image)
      then some (image_changed (default_text default_cassandra_image old.pod.image))
      else if not (eq_bool old.use_empty_dir new.use_empty_dir)
      then some (use_empty_dir_changed old.use_empty_dir)
      else changed_placement matched

  unfoldable pub pod_spec_has_changed : CassandraSpec P → CassandraSpec P → Bool
  unfolding deep_equal_probes
  pod_spec_has_changed old new =
      not (P.deep_equal old.pod.cpu new.pod.cpu)
      || not (P.deep_equal old.pod.memory new.pod.memory)
      || not (deep_equal_probes old.pod.liveness_probe new.pod.liveness_probe)
      || not (deep_equal_probes old.pod.readiness_probe new.pod.readiness_probe)
      || not (old.pod.bootstrapper_image == new.pod.bootstrapper_image)

  abbrev pub updated_change : Pod P → Rack → ClusterChange
  updated_change pod rack = record {
    rack = rack;
    change_type = update_rack;
    patch = patch_for_rack rack pod;
    nodes_to_scale_down = pos 0;
  }

  -- The list that changesForCluster builds once the change is allowed.
  unfoldable pub changes :
      CassandraSpec P
      → CassandraSpec P
      → List Rack
      → List MatchedRack
      → List Rack
      → List ClusterChange
  unfolding scaled_up_racks scaled_down_racks
  changes old new added matched deleted =
      map added_change added
      ++ (map deleted_change deleted
          ++ (map scaled_down_change (scaled_down_racks matched)
              ++ map (updated_change new.pod)
                  (racks_to_update (pod_spec_has_changed old new) matched)))

  unfoldable pub changes_for_cluster :
      CassandraSpec P → CassandraSpec P → Result ForbiddenChange (List ClusterChange)
  unfolding match_racks ensure_change_is_allowed pod_spec_has_changed changes
  changes_for_cluster old new =
      let (added, matched, deleted) = match_racks old new in
      elim (ensure_change_is_allowed old new matched) [
        | some e ↦ err e
        | none ↦ ok (changes old new added matched deleted)
      ]
