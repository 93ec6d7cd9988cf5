-- ===== src/Operator/Handlers.antt =====
-- cassandra-operator/pkg/operator/operator.go: the callbacks of the informers, and the metric polling.
use cassandra_operator.Base.{ℕ, String, ◌<>◌, Bool, not, ◌&&◌, List, [], ◌∷◌, if◌then◌else◌}
use cassandra_operator.Base.Assoc.{Assoc}
use cassandra_operator.Platform.{Platform}
use cassandra_operator.Api.{Cassandra, qualified_name}
use cassandra_operator.Kube.{ConfigMap}
use cassandra_operator.Cluster.{Cluster}
use cassandra_operator.Cluster.ConfigMaps.{
  looks_like_a_cassandra_config_map, config_map_belongs_to_a_managed_cluster,
}
use cassandra_operator.World.{
  Environment, M, done, ◌>>=◌, ◌>>◌, pure, definition_at, cluster_at, write_definition,
}
use cassandra_operator.Dispatcher.{Event}
use cassandra_operator.Receiver
use cassandra_operator.Receiver.{
  cluster_added, cluster_deleted, cluster_updated, metrics_due, config_added, config_updated,
  config_deleted,
}
use cassandra_operator.Operator.{adjusted, deep_equal_specs, deep_equal_maps}

abbrev pub Message : Type 0
Message = Event Receiver.Event

-- The key of a config map's events: its own namespace and name.
unfoldable pub config_map_key : ConfigMap → String
config_map_key cm = cm.namespace <> ("." <> cm.name)

unfoldable pub config_map_added : ConfigMap → List Message
unfolding looks_like_a_cassandra_config_map config_map_key
config_map_added cm =
    if looks_like_a_cassandra_config_map cm
    then record { kind = "ADD_CUSTOM_CONFIG"; key = config_map_key cm; data_of = config_added cm }
      ∷ []
    else []

module _ {P : Platform} where
  -- The two handlers read the operator's clusters, given by value.
  unfoldable pub config_map_deleted : Assoc (Cluster P) → ConfigMap → List Message
  unfolding config_map_belongs_to_a_managed_cluster config_map_key
  config_map_deleted clusters cm =
      if config_map_belongs_to_a_managed_cluster clusters cm
      then record {
        kind = "DELETE_CUSTOM_CONFIG";
        key = config_map_key cm;
        data_of = config_deleted cm;
      }
        ∷ []
      else []

  unfoldable pub config_map_updated : Assoc (Cluster P) → ConfigMap → ConfigMap → List Message
  unfolding deep_equal_maps config_map_belongs_to_a_managed_cluster config_map_key
  config_map_updated clusters old new =
      if not (deep_equal_maps old.contents new.contents)
        && config_map_belongs_to_a_managed_cluster clusters old
      then record {
        kind = "UPDATE_CUSTOM_CONFIG";
        key = config_map_key old;
        data_of = config_updated new;
      }
        ∷ []
      else []

  unfoldable pub update_messages : ℕ → ℕ → Cassandra P → Cassandra P → List Message
  unfolding deep_equal_specs qualified_name
  update_messages old new old_definition new_definition =
      if deep_equal_specs old_definition.spec new_definition.spec
      then []
      else record {
        kind = "UPDATE_CLUSTER";
        key = qualified_name new_definition;
        data_of = cluster_updated old new;
      }
        ∷ []

module _ {P : Platform} {K : Environment P} where
  -- adjustUseEmptyDir writes to the object that the informer's cache shares.
  unfoldable pub adjust_use_empty_dir : Bool → ℕ → M K (Cassandra P)
  unfolding adjusted
  adjust_use_empty_dir allow a = do
    definition ← definition_at a
    write_definition a (adjusted allow definition)
    pure (adjusted allow definition)

  unfoldable pub on_cluster_added : Bool → ℕ → M K (List Message)
  unfolding adjust_use_empty_dir qualified_name
  on_cluster_added allow a = do
    definition ← adjust_use_empty_dir allow a
    pure (
        record { kind = "ADD_CLUSTER"; key = qualified_name definition; data_of = cluster_added a }
        ∷ [])

  unfoldable pub on_cluster_deleted : Bool → ℕ → M K (List Message)
  unfolding adjust_use_empty_dir qualified_name
  on_cluster_deleted allow a = do
    definition ← adjust_use_empty_dir allow a
    pure (
        record {
          kind = "DELETE_CLUSTER";
          key = qualified_name definition;
          data_of = cluster_deleted a;
        }
        ∷ [])

  unfoldable pub on_cluster_updated : Bool → ℕ → ℕ → M K (List Message)
  unfolding adjust_use_empty_dir update_messages
  on_cluster_updated allow old new = do
    old_definition ← adjust_use_empty_dir allow old
    new_definition ← adjust_use_empty_dir allow new
    pure (update_messages old new old_definition new_definition)

  -- One round of startMetricPolling, in some order of the clusters.
  unfoldable pub poll_metrics : List ℕ → M K (List Message)
  unfolding qualified_name
  poll_metrics [] w = done [] w
  poll_metrics (a ∷ addresses) w =
      let rest = poll_metrics addresses in
      (do
        c ← cluster_at a
        messages ← rest
        pure (
            if c.online
            then record {
              kind = "GATHER_METRICS";
              key = qualified_name c.definition;
              data_of = metrics_due a;
            }
              ∷ messages
            else messages))
        w
