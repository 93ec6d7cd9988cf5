-- ===== src/Operator.antt =====
-- cassandra-operator/pkg/operator/operator.go: the handlers of the informers' callbacks and one round
-- of the metric polling, each giving the events that it dispatches, in order.
pub mod Handlers
pub mod Updates
pub mod Noticed
pub mod Startup
pub mod Status
pub mod Wiring
pub mod Registration
pub mod EndToEnd
pub mod Keys
use cassandra_operator.Base.{
  ℕ, String, ◌<>◌, ◌==◌, Bool, true, false, not, ◌&&◌, Option, none, some, List, [], ◌∷◌,
  if◌then◌else◌,
}
use cassandra_operator.Base.Int.{ℤ, eqb_ℤ}
use cassandra_operator.Base.Assoc.{Assoc, lookup}
use cassandra_operator.Platform.{Platform}
use cassandra_operator.Api.{
  Probe, Pod, Rack, RetentionPolicy, Snapshot, CassandraSpec, Cassandra, qualified_name,
  deep_equal_texts,
}
use cassandra_operator.Kube.{ConfigMap}
use cassandra_operator.Cluster.{Cluster}
use cassandra_operator.Cluster.ConfigMaps.{
  looks_like_a_cassandra_config_map, config_map_belongs_to_a_managed_cluster,
}
use cassandra_operator.Adjuster.{deep_equal_probes}
use cassandra_operator.World.{
  Environment, World, M, done, ◌>>=◌, ◌>>◌, pure, definition_at, cluster_at, write_definition,
}
use cassandra_operator.Dispatcher.{Event}
use cassandra_operator.Receiver.{
  cluster_added, cluster_deleted, cluster_updated, metrics_due, config_added, config_updated,
  config_deleted,
}
use cassandra_operator.Receiver

-- reflect.DeepEqual at the types that the handlers compare; maps are compared as maps, and neither a
-- nil map nor a nil list of racks is told from an empty one.
unfoldable pub deep_equal_numbers : Option ℤ → Option ℤ → Bool
deep_equal_numbers none none = true
deep_equal_numbers none (some b) = false
deep_equal_numbers (some a) none = false
deep_equal_numbers (some a) (some b) = eqb_ℤ a b

unfoldable pub equal_bools : Bool → Bool → Bool
equal_bools true b = b
equal_bools false b = not b

unfoldable pub deep_equal_policies : Option RetentionPolicy → Option RetentionPolicy → Bool
unfolding equal_bools deep_equal_numbers
deep_equal_policies none none = true
deep_equal_policies none (some q) = false
deep_equal_policies (some p) none = false
deep_equal_policies (some p) (some q) =
    equal_bools p.enabled q.enabled
    && deep_equal_numbers p.retention_period_days q.retention_period_days
    && p.cleanup_schedule == q.cleanup_schedule
    && deep_equal_numbers p.cleanup_timeout_seconds q.cleanup_timeout_seconds

unfoldable pub deep_equal_snapshots : Option Snapshot → Option Snapshot → Bool
unfolding deep_equal_texts deep_equal_numbers deep_equal_policies
deep_equal_snapshots none none = true
deep_equal_snapshots none (some t) = false
deep_equal_snapshots (some s) none = false
deep_equal_snapshots (some s) (some t) =
    s.image == t.image
    && s.schedule == t.schedule
    && deep_equal_texts s.keyspaces t.keyspaces
    && deep_equal_numbers s.timeout_seconds t.timeout_seconds
    && deep_equal_policies s.retention_policy t.retention_policy

unfoldable pub equal_racks : Rack → Rack → Bool
equal_racks r q =
    r.name == q.name
    && r.zone == q.zone
    && r.storage_class == q.storage_class
    && eqb_ℤ r.replicas q.replicas

unfoldable pub deep_equal_racks : List Rack → List Rack → Bool
unfolding equal_racks
deep_equal_racks [] [] = true
deep_equal_racks [] (q ∷ qs) = false
deep_equal_racks (r ∷ rs) [] = false
deep_equal_racks (r ∷ rs) (q ∷ qs) = equal_racks r q && deep_equal_racks rs qs

-- Every entry of the first map is in the second.
unfoldable pub same_entry : String → Option String → Bool
same_entry v none = false
same_entry v (some w) = v == w

unfoldable pub included : Assoc String → Assoc String → Bool
unfolding lookup same_entry
included [] n = true
included ((k, v) ∷ m) n = same_entry v (lookup k n) && included m n

unfoldable pub deep_equal_maps : Assoc String → Assoc String → Bool
unfolding included
deep_equal_maps m n = included m n && included n m

module _ {P : Platform} where
  unfoldable pub deep_equal_pods : Pod P → Pod P → Bool
  unfolding deep_equal_probes
  deep_equal_pods p q =
      p.bootstrapper_image == q.bootstrapper_image
      && p.image == q.image
      && P.deep_equal p.storage_size q.storage_size
      && P.deep_equal p.memory q.memory
      && P.deep_equal p.cpu q.cpu
      && deep_equal_probes p.liveness_probe q.liveness_probe
      && deep_equal_probes p.readiness_probe q.readiness_probe

  unfoldable pub deep_equal_specs : CassandraSpec P → CassandraSpec P → Bool
  unfolding deep_equal_racks deep_equal_pods deep_equal_snapshots equal_bools
  deep_equal_specs s t =
      s.dc == t.dc
      && deep_equal_racks s.racks t.racks
      && equal_bools s.use_empty_dir t.use_empty_dir
      && deep_equal_pods s.pod t.pod
      && deep_equal_snapshots s.snapshot t.snapshot

  unfoldable pub without_empty_dir : Cassandra P → Cassandra P
  without_empty_dir c = record c { spec = record c.spec { use_empty_dir = false } }

  -- What adjustUseEmptyDir leaves, by the AllowEmptyDir setting.
  unfoldable pub adjusted : Bool → Cassandra P → Cassandra P
  unfolding without_empty_dir
  adjusted allow c = if c.spec.use_empty_dir && not allow then without_empty_dir c else c
