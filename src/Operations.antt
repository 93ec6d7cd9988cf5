-- ===== src/Operations.antt =====
-- cassandra-operator/pkg/operator/operations: what each operation does when it is executed. An
-- operation holds the pointers that it was planned with, as addresses in the World's stores; logging
-- is left out.
pub mod Clusters
pub mod Snapshots
pub mod CustomConfigs
use cassandra_operator.Base.{ℕ}
use cassandra_operator.Kube.{ConfigMap}

-- The receiver's planned work. A definition, a cluster and the snapshot inside a definition are given
-- by address; a config map is never written to and is given by value.
pub data Operation : Type 0 where
  add_cluster delete_cluster : ℕ → Operation
  delete_snapshot delete_snapshot_cleanup add_snapshot add_snapshot_cleanup : ℕ → Operation
  -- the cluster, the old definition and the new one
  update_cluster : ℕ → ℕ → ℕ → Operation
  -- the cluster, and the definition whose snapshot is the new one
  update_snapshot update_snapshot_cleanup : ℕ → ℕ → Operation
  gather_metrics : ℕ → Operation
  update_custom_config add_custom_config delete_custom_config : ℕ → ConfigMap → Operation
