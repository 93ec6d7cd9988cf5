-- ===== src/Api.antt =====
-- cassandra-operator/pkg/apis/cassandra/v1alpha1/types.go: the Cassandra resource and its names.
-- A pointer is an `Option`. Of the Kubernetes metadata the name and the namespace are kept, which is
-- all that the operator reads. A nil slice of keyspaces is `none`, since reflect.DeepEqual tells it
-- from an empty one.
pub mod Updates
pub mod Memory
pub mod Copies
use cassandra_operator.Base.{
  String, ◌<>◌, ◌==◌, Bool, true, false, not, ◌&&◌, Option, none, some, List, [], ◌∷◌, Run, ◌>>=◌,
  or_else,
}
use cassandra_operator.Base.Int.{ℤ, eqb_ℤ}
use cassandra_operator.Platform.{Platform}

abbrev pub node_service_account_name : String
node_service_account_name = "cassandra-node"

abbrev pub snapshot_service_account_name : String
snapshot_service_account_name = "cassandra-snapshot"

pub record Probe : Type 0 where
  pub failure_threshold : ℤ
  pub initial_delay_seconds : ℤ
  pub period_seconds : ℤ
  pub success_threshold : ℤ
  pub timeout_seconds : ℤ

pub record Pod (P : Platform) : Type 0 where
  pub bootstrapper_image : String
  pub image : String
  pub storage_size : P.Quantity
  pub memory : P.Quantity
  pub cpu : P.Quantity
  pub liveness_probe : Option Probe
  pub readiness_probe : Option Probe

pub record Rack : Type 0 where
  pub name : String
  pub zone : String
  pub storage_class : String
  pub replicas : ℤ

pub record RetentionPolicy : Type 0 where
  pub enabled : Bool
  pub retention_period_days : Option ℤ
  pub cleanup_schedule : String
  pub cleanup_timeout_seconds : Option ℤ

pub record Snapshot : Type 0 where
  pub image : String
  pub schedule : String
  pub keyspaces : Option (List String)
  pub timeout_seconds : Option ℤ
  pub retention_policy : Option RetentionPolicy

pub record CassandraSpec (P : Platform) : Type 0 where
  pub dc : String
  pub racks : List Rack
  pub use_empty_dir : Bool
  pub pod : Pod P
  pub snapshot : Option Snapshot

pub record Cassandra (P : Platform) : Type 0 where
  pub namespace : String
  pub name : String
  pub spec : CassandraSpec P

unfoldable pub has_retention_policy_enabled : Snapshot → Bool
has_retention_policy_enabled s = elim s.retention_policy [ none ↦ false | some p ↦ p.enabled ]

module _ {P : Platform} where
  unfoldable pub qualified_name : Cassandra P → String
  qualified_name c = c.namespace <> ("." <> c.name)

  unfoldable pub snapshot_job_name : Cassandra P → String
  snapshot_job_name c = c.name <> "-snapshot"

  unfoldable pub snapshot_cleanup_job_name : Cassandra P → String
  snapshot_cleanup_job_name c = c.name <> "-snapshot-cleanup"

  unfoldable pub service_name : Cassandra P → String
  service_name c = c.name <> ("." <> c.namespace)

  unfoldable pub storage_volume_name : Cassandra P → String
  storage_volume_name c = "cassandra-storage-" <> c.name

  unfoldable pub rack_name : Cassandra P → Rack → String
  rack_name c rack = c.name <> ("-" <> rack.name)

  unfoldable pub custom_config_map_name : Cassandra P → String
  custom_config_map_name c = c.name <> "-config"

-- *p, which panics at a nil pointer
abbrev pub deref {ℓ} : {A : Type ℓ} → Option A → Run A
deref p = p

-- *p != *q
unfoldable pub values_differ : Option ℤ → Option ℤ → Run Bool
values_differ p q = do a ← deref p; b ← deref q; some (not (eqb_ℤ a b))

unfoldable pub equal_texts : List String → List String → Bool
equal_texts [] [] = true
equal_texts [] (t ∷ ts) = false
equal_texts (s ∷ ss) [] = false
equal_texts (s ∷ ss) (t ∷ ts) = s == t && equal_texts ss ts

-- reflect.DeepEqual at []string
unfoldable pub deep_equal_texts : Option (List String) → Option (List String) → Bool
unfolding equal_texts
deep_equal_texts none none = true
deep_equal_texts none (some ts) = false
deep_equal_texts (some ss) none = false
deep_equal_texts (some ss) (some ts) = equal_texts ss ts

unfoldable pub snapshot_properties_updated : Snapshot → Snapshot → Run Bool
snapshot_properties_updated s t = or_else (some (not (s.schedule == t.schedule))) (
    or_else (values_differ s.timeout_seconds t.timeout_seconds)
      (some (not (deep_equal_texts s.keyspaces t.keyspaces))))

-- the comparison inside SnapshotCleanupPropertiesUpdated, at two policies that are not nil
unfoldable pub retention_policies_differ : RetentionPolicy → RetentionPolicy → Run Bool
retention_policies_differ p q = or_else (some (not (p.cleanup_schedule == q.cleanup_schedule))) (
    or_else (values_differ p.cleanup_timeout_seconds q.cleanup_timeout_seconds)
      (values_differ p.retention_period_days q.retention_period_days))

unfoldable pub snapshot_cleanup_properties_updated : Snapshot → Snapshot → Run Bool
snapshot_cleanup_properties_updated s t = elim s.retention_policy [
  | none ↦ some false
  | some p ↦ elim t.retention_policy [ none ↦ some false | some q ↦ retention_policies_differ p q ]
]
