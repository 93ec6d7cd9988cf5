-- ===== src/Examples/Settings.antt =====
-- Concrete snapshot settings and config maps at which the theorems hold.
use cassandra_operator.Base.{
  ◌*◌, ◌≤◌, ◌==◌, ◌≡◌, ◌≢◌, ◌↔◌, ◌⊎◌, inl, map, refl, true, false, none, some, [], ◌∷◌, ok,
}
use cassandra_operator.Base.Int.{pos}
use cassandra_operator.Api.{
  custom_config_map_name, qualified_name, has_retention_policy_enabled, values_differ,
  RetentionPolicy, Snapshot, snapshot_properties_updated, snapshot_cleanup_properties_updated,
}
use cassandra_operator.Api.Updates.{snapshot_properties_updated_panics_iff}
use cassandra_operator.Base.Text.{strip_prefix}
use cassandra_operator.Kube.{ConfigMap}
use cassandra_operator.Cluster.Jobs.{duration_days}
use cassandra_operator.Cluster.Jobs.Bounds.{duration_days_iff}
use cassandra_operator.Cluster.Resources.{create_stateful_set_for_rack}
use cassandra_operator.Cluster.ConfigMaps.Names.{contains, qualified_cluster_name_for-custom}
use cassandra_operator.Cluster.ConfigMaps.{
  qualified_cluster_name_for, add_custom_config_volume, remove_custom_config_volume,
}
use cassandra_operator.Cluster.ConfigMaps.Mounting.{remove-add}
use cassandra_operator.Operations.{
  delete_snapshot_cleanup, update_snapshot, update_snapshot_cleanup, add_snapshot_cleanup,
}
use cassandra_operator.Receiver.{snapshot_operations}
use cassandra_operator.Receiver.Planning.{Includes, snapshot_operations_iff}
use cassandra_operator.Operator.Handlers.{
  Message, config_map_added, config_map_deleted, on_cluster_added, on_cluster_deleted,
}
use cassandra_operator.Operator.Keys.{keys_of, keys_apart}
use cassandra_operator.Examples.{rack_a, one_rack, running}
use cassandra_operator.Examples.Runs.{known_world}

abbrev pub nightly : Snapshot
nightly = record {
  image = "";
  schedule = "0 1 * * *";
  keyspaces = none;
  timeout_seconds = none;
  retention_policy = none;
}

abbrev pub weekly : RetentionPolicy
weekly = record {
  enabled = true;
  retention_period_days = some (pos 7);
  cleanup_schedule = "";
  cleanup_timeout_seconds = none;
}

abbrev cleaned : Snapshot
cleaned = record nightly { retention_policy = some weekly }

snapshot_properties_updated_panics_iff_example :
    (snapshot_properties_updated nightly nightly ≡ none) ↔ (
      (nightly.schedule ≡ nightly.schedule)
      × ((nightly.timeout_seconds ≡ none) ⊎ (nightly.timeout_seconds ≡ none)))
snapshot_properties_updated_panics_iff_example =
    snapshot_properties_updated_panics_iff nightly nightly

duration_days_iff_example : (duration_days (pos 7) ≡ pos (7 * 86400000000000)) ↔ (7 ≤ 106751)
duration_days_iff_example = duration_days_iff 7

abbrev users_config : ConfigMap
users_config = record {
  name = "users-config";
  namespace = "team";
  contents = ("cassandra.yaml", "") ∷ [];
  binary_contents = [];
}

remove-add_example :
    remove_custom_config_volume running (
      add_custom_config_volume running
        (create_stateful_set_for_rack running rack_a none)
        users_config)
    ≡ create_stateful_set_for_rack running rack_a none
remove-add_example = remove-add running rack_a users_config

keys_apart_example :
    (map (λ (m : Message). m.key) (config_map_added users_config) ≡ "team.users-config" ∷ [])
    × (map (λ (m : Message). m.key) (config_map_deleted (("team.users", running) ∷ []) users_config)
        ≡ "team.users-config" ∷ [])
    × (keys_of (on_cluster_added true 0 known_world) ≡ some ("team.users" ∷ []))
    × (keys_of (on_cluster_deleted true 0 known_world) ≡ some ("team.users" ∷ []))
    × ("team.users-config" ≢ qualified_name one_rack)
unfolding custom_config_map_name qualified_name
keys_apart_example =
    keys_apart true 0 one_rack known_world (("team.users", running) ∷ []) users_config refl refl
      refl (inl refl)

abbrev timed : Snapshot
timed = record nightly { timeout_seconds = some (pos 60); retention_policy = some weekly }

abbrev kept : Snapshot
kept = record timed { timeout_seconds = some (pos 90); retention_policy = none }

snapshot_operations_iff_example :
    (Includes (delete_snapshot_cleanup 2) (delete_snapshot_cleanup 2 ∷ update_snapshot 0 2 ∷ [])
      ↔ ((has_retention_policy_enabled timed ≡ true) × (has_retention_policy_enabled kept ≡ false)))
    × (Includes (update_snapshot 0 2) (delete_snapshot_cleanup 2 ∷ update_snapshot 0 2 ∷ [])
        ↔ (true ≡ true))
    × (Includes (update_snapshot_cleanup 0 2) (delete_snapshot_cleanup 2 ∷ update_snapshot 0 2 ∷ [])
        ↔ (false ≡ true))
    × (¬ Includes (add_snapshot_cleanup 2) (delete_snapshot_cleanup 2 ∷ update_snapshot 0 2 ∷ []))
unfolding snapshot_operations snapshot_properties_updated snapshot_cleanup_properties_updated
    values_differ has_retention_policy_enabled ◌==◌
snapshot_operations_iff_example = snapshot_operations_iff 0 2 timed kept refl refl refl

qualified_cluster_name_for-custom_example :
    qualified_cluster_name_for users_config ≡ ok (qualified_name running.definition)
unfolding custom_config_map_name contains ◌==◌ strip_prefix
qualified_cluster_name_for-custom_example =
    qualified_cluster_name_for-custom running.definition users_config refl refl refl
