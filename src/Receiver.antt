-- ===== src/Receiver.antt =====
-- cassandra-operator/pkg/operator/operations/receiver.go and operations.go: which operations an event
-- leads to, and their execution in order.
pub mod Planning
use cassandra_operator.Base.{
  ℕ, String, Bool, not, ◌&&◌, Option, none, some, List, [], ◌∷◌, ◌++◌, if◌then◌else◌, ok, err,
}
use cassandra_operator.Base.Assoc.{lookup}
use cassandra_operator.Platform.{Platform}
use cassandra_operator.Api.{
  Snapshot, has_retention_policy_enabled, qualified_name, snapshot_properties_updated,
  snapshot_cleanup_properties_updated,
}
use cassandra_operator.Kube.{ConfigMap}
use cassandra_operator.Cluster.ConfigMaps.{qualified_cluster_name_for}
use cassandra_operator.World.{Environment, M, done, ◌>>=◌, ◌>>◌, pure, deref, definition_at}
use cassandra_operator.Operations.{
  Operation, add_cluster, delete_cluster, delete_snapshot, delete_snapshot_cleanup, add_snapshot,
  add_snapshot_cleanup, update_cluster, update_snapshot, update_snapshot_cleanup, gather_metrics,
  update_custom_config, add_custom_config, delete_custom_config,
}
use cassandra_operator.Operations.Clusters.{
  find_cluster, execute_add_cluster, execute_delete_cluster, execute_update_cluster,
}
use cassandra_operator.Operations.Snapshots.{
  execute_add_snapshot, execute_add_snapshot_cleanup, execute_delete_snapshot,
  execute_delete_snapshot_cleanup, execute_update_snapshot, execute_update_snapshot_cleanup,
}
use cassandra_operator.Operations.CustomConfigs.{
  execute_add_custom_config, execute_update_custom_config, execute_delete_custom_config,
  execute_gather_metrics,
}

-- An event's kind with its data, a pointer as an address.
pub data Event : Type 0 where
  cluster_added cluster_deleted : ℕ → Event
  cluster_updated : ℕ → ℕ → Event
  metrics_due : ℕ → Event
  config_added config_updated config_deleted : ConfigMap → Event
  unsupported : String → Event

-- if b { operations = append(operations, o) }
abbrev pub only_if : Bool → Operation → List Operation
only_if b o = if b then o ∷ [] else []

unfoldable pub operations_for_add_cluster : ℕ → Option Snapshot → List Operation
unfolding has_retention_policy_enabled
operations_for_add_cluster d none = add_cluster d ∷ []
operations_for_add_cluster d (some s) =
    add_cluster d
    ∷ add_snapshot d
    ∷ only_if (has_retention_policy_enabled s) (add_snapshot_cleanup d)

unfoldable pub operations_for_delete_cluster : ℕ → Option Snapshot → List Operation
unfolding has_retention_policy_enabled
operations_for_delete_cluster d none = delete_cluster d ∷ []
operations_for_delete_cluster d (some s) =
    delete_cluster d
    ∷ delete_snapshot d
    ∷ only_if (has_retention_policy_enabled s) (delete_snapshot_cleanup d)

-- The operations on the snapshot of an update, by the old and the new snapshot; comparing them may
-- panic. `a` is the cluster and `d` the new definition.
unfoldable pub snapshot_operations :
    ℕ → ℕ → Option Snapshot → Option Snapshot → Option (List Operation)
unfolding has_retention_policy_enabled snapshot_properties_updated
    snapshot_cleanup_properties_updated
snapshot_operations a d none none = some []
snapshot_operations a d (some old) none =
    some
      (delete_snapshot d ∷ only_if (has_retention_policy_enabled old) (delete_snapshot_cleanup d))
snapshot_operations a d none (some new) =
    some (add_snapshot d ∷ only_if (has_retention_policy_enabled new) (add_snapshot_cleanup d))
snapshot_operations a d (some old) (some new) = elim (snapshot_properties_updated old new) [
  | none ↦ none
  | some modified ↦ elim (snapshot_cleanup_properties_updated old new) [
    | none ↦ none
    | some cleanup_modified ↦ some (
        only_if (not (has_retention_policy_enabled new) && has_retention_policy_enabled old)
          (delete_snapshot_cleanup d)
        ++ (only_if modified (update_snapshot a d)
            ++ only_if cleanup_modified (update_snapshot_cleanup a d)))
  ]
]

module _ {P : Platform} {K : Environment P} where
  planned_update : ℕ → ℕ → Option ℕ → M K (List Operation)
  unfolding operations_for_add_cluster snapshot_operations
  planned_update old new none = do
    definition ← definition_at new
    pure (operations_for_add_cluster new definition.spec.snapshot)
  planned_update old new (some a) = do
    old_definition ← definition_at old
    new_definition ← definition_at new
    operations ←
        deref (snapshot_operations a new old_definition.spec.snapshot new_definition.spec.snapshot)
    pure (update_cluster a old new ∷ operations)

  unfoldable pub operations_for_update_cluster : ℕ → ℕ → M K (List Operation)
  unfolding planned_update lookup qualified_name
  operations_for_update_cluster old new = do
    definition ← definition_at new
    found ← find_cluster (qualified_name definition)
    planned_update old new found

  -- The cluster that a config map belongs to, by its name.
  unfoldable pub cluster_for_config_map : ConfigMap → M K (Option ℕ)
  unfolding qualified_cluster_name_for lookup
  cluster_for_config_map cm = elim (qualified_cluster_name_for cm) [
    | err e ↦ pure none
    | ok name ↦ find_cluster name
  ]

  for_found : (ℕ → Operation) → Option ℕ → M K (List Operation)
  for_found operation none = pure []
  for_found operation (some a) = pure (operation a ∷ [])

  unfoldable pub operations_to_execute : Event → M K (List Operation)
  unfolding operations_for_add_cluster operations_for_delete_cluster operations_for_update_cluster
      cluster_for_config_map for_found
  operations_to_execute (cluster_added d) = do
    definition ← definition_at d
    pure (operations_for_add_cluster d definition.spec.snapshot)
  operations_to_execute (cluster_deleted d) = do
    definition ← definition_at d
    pure (operations_for_delete_cluster d definition.spec.snapshot)
  operations_to_execute (cluster_updated old new) = operations_for_update_cluster old new
  operations_to_execute (metrics_due a) = pure (gather_metrics a ∷ [])
  operations_to_execute (config_updated cm) = do
    found ← cluster_for_config_map cm
    for_found (λ a. update_custom_config a cm) found
  operations_to_execute (config_added cm) = do
    found ← cluster_for_config_map cm
    for_found (λ a. add_custom_config a cm) found
  operations_to_execute (config_deleted cm) = do
    found ← cluster_for_config_map cm
    for_found (λ a. delete_custom_config a cm) found
  operations_to_execute (unsupported kind) = pure []

  unfoldable pub execute : Operation → M K (Unit {0})
  unfolding execute_add_cluster execute_delete_cluster execute_update_cluster execute_add_snapshot
      execute_add_snapshot_cleanup execute_delete_snapshot execute_delete_snapshot_cleanup
      execute_update_snapshot execute_update_snapshot_cleanup execute_gather_metrics
      execute_add_custom_config execute_update_custom_config execute_delete_custom_config
  execute (add_cluster d) = execute_add_cluster d
  execute (delete_cluster d) = execute_delete_cluster d
  execute (delete_snapshot d) = execute_delete_snapshot d
  execute (delete_snapshot_cleanup d) = execute_delete_snapshot_cleanup d
  execute (add_snapshot d) = execute_add_snapshot d
  execute (add_snapshot_cleanup d) = execute_add_snapshot_cleanup d
  execute (update_cluster a old new) = execute_update_cluster a old new
  execute (update_snapshot a d) = execute_update_snapshot a d
  execute (update_snapshot_cleanup a d) = execute_update_snapshot_cleanup a d
  execute (gather_metrics a) = execute_gather_metrics a
  execute (update_custom_config a cm) = execute_update_custom_config a cm
  execute (add_custom_config a cm) = execute_add_custom_config a cm
  execute (delete_custom_config a cm) = execute_delete_custom_config a

  unfoldable pub execute_all : List Operation → M K (Unit {0})
  unfolding execute
  execute_all [] w = done tt w
  execute_all (operation ∷ operations) w =
      let rest = execute_all operations in (do execute operation; rest) w

  unfoldable pub receive : Event → M K (Unit {0})
  unfolding operations_to_execute execute_all
  receive event = do operations ← operations_to_execute event; execute_all operations
