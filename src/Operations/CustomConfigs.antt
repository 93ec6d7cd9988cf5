-- ===== src/Operations/CustomConfigs.antt =====
-- add_configmap.go, update_configmap.go, delete_configmap.go and gather_metrics.go.
use cassandra_operator.Base.{ℕ}
use cassandra_operator.Platform.{Platform}
use cassandra_operator.Kube.{ConfigMap}
use cassandra_operator.Cluster.ConfigMaps.{add_custom_config_volume, remove_custom_config_volume}
use cassandra_operator.Adjuster.{config_map_hash_change}
use cassandra_operator.World.{
  Environment, cluster_update, M, ◌>>=◌, ◌>>◌, pure, record_event, cluster_at,
}
use cassandra_operator.Accessor.StatefulSets.{
  for_each_rack, update_stateful_set, patch_stateful_set,
}
use cassandra_operator.Metrics.Prometheus.{update_metrics}

module _ {P : Platform} {K : Environment P} where
  -- The loops over the racks stop at the first error, which is only logged.
  unfoldable pub execute_add_custom_config : ℕ → ConfigMap → M K (Unit {0})
  unfolding for_each_rack update_stateful_set add_custom_config_volume
  execute_add_custom_config a cm = do
    c ← cluster_at a
    record_event cluster_update
    for_each_rack c.definition.spec.racks
        (λ rack. update_stateful_set c rack (λ sts. add_custom_config_volume c sts cm))
    pure tt

  unfoldable pub execute_delete_custom_config : ℕ → M K (Unit {0})
  unfolding for_each_rack update_stateful_set remove_custom_config_volume
  execute_delete_custom_config a = do
    c ← cluster_at a
    record_event cluster_update
    for_each_rack c.definition.spec.racks
        (λ rack. update_stateful_set c rack (remove_custom_config_volume c))
    pure tt

  unfoldable pub execute_update_custom_config : ℕ → ConfigMap → M K (Unit {0})
  unfolding for_each_rack patch_stateful_set config_map_hash_change
  execute_update_custom_config a cm = do
    c ← cluster_at a
    record_event cluster_update
    for_each_rack c.definition.spec.racks (λ rack.
        let change = config_map_hash_change P rack cm in
        patch_stateful_set c change.rack change.patch)
    pure tt

  unfoldable pub execute_gather_metrics : ℕ → M K (Unit {0})
  unfolding update_metrics
  execute_gather_metrics a = do c ← cluster_at a; update_metrics c
