-- ===== src/Metrics.antt =====
-- cassandra-operator/pkg/metrics/metrics.go: what Jolokia says of a cluster's nodes.
pub mod NodeStatus
pub mod Gatherer
pub mod Prometheus
pub mod Readings
use cassandra_operator.Base.{String, List}
use cassandra_operator.Base.Assoc.{Assoc}

pub record ClusterStatus : Type 0 where
  pub node_racks : Assoc String
  pub live_nodes : List String
  pub unreachable_nodes : List String
  pub joining_nodes : List String
  pub leaving_nodes : List String
  pub moving_nodes : List String
