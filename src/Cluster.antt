-- ===== src/Cluster.antt =====
-- cassandra-operator/pkg/cluster/cluster.go: constants and the Cluster type.
pub mod Validation
pub mod Definition
pub mod Pods
pub mod Resources
pub mod Jobs
pub mod ConfigMaps
pub mod Selectors
use cassandra_operator.Base.{String, Bool}
use cassandra_operator.Base.Int.{pos}
use cassandra_operator.Platform.{Platform}
use cassandra_operator.Api.{Probe, Cassandra}

abbrev pub operator_label : String
operator_label = "sky.uk/cassandra-operator"

abbrev pub default_cassandra_image : String
default_cassandra_image = "cassandra:3.11"

abbrev pub default_cassandra_snapshot_image : String
default_cassandra_snapshot_image = "skyuk/cassandra-snapshot:latest"

abbrev pub default_dc_name : String
default_dc_name = "dc1"

abbrev pub default_cassandra_bootstrapper_image : String
default_cassandra_bootstrapper_image = "skyuk/cassandra-bootstrapper:latest"

abbrev pub default_liveness_probe : Probe
default_liveness_probe = record {
  failure_threshold = pos 3;
  initial_delay_seconds = pos 30;
  period_seconds = pos 30;
  success_threshold = pos 1;
  timeout_seconds = pos 5;
}

abbrev pub default_readiness_probe : Probe
default_readiness_probe = record {
  failure_threshold = pos 3;
  initial_delay_seconds = pos 30;
  period_seconds = pos 15;
  success_threshold = pos 1;
  timeout_seconds = pos 5;
}

-- The definition that a Cluster holds is always the result of a successful CopyInto.
pub record Cluster (P : Platform) : Type 0 where
  pub definition : Cassandra P
  pub online : Bool
