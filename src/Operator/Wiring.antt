-- ===== src/Operator/Wiring.antt =====
-- cassandra-operator/pkg/operator/operator.go: which callback an informer's notification reaches, and
-- which handler a request of the HTTP server.
use cassandra_operator.Base.{ℕ, String, ◌==◌, Bool, List, [], ◌∷◌, Result, if◌then◌else◌}
use cassandra_operator.Base.Assoc.{Assoc}
use cassandra_operator.Platform.{Platform}
use cassandra_operator.Kube.{ConfigMap}
use cassandra_operator.Cluster.{Cluster}
use cassandra_operator.World.{Environment, M, done, ◌>>=◌, pure, cluster_at}
use cassandra_operator.Operator.Handlers.{
  Message, on_cluster_added, on_cluster_updated, on_cluster_deleted, config_map_added,
  config_map_updated, config_map_deleted,
}
use cassandra_operator.Operator.Status.{Response, status_page, liveness_and_readiness_check}

-- What the informers of Cassandra resources and of config maps notify of; a Cassandra resource by its
-- address in the informer's cache.
pub data Notification : Type 0 where
  cassandra_added : ℕ → Notification
  cassandra_updated : ℕ → ℕ → Notification
  cassandra_deleted : ℕ → Notification
  config_map_was_added : ConfigMap → Notification
  config_map_was_updated : ConfigMap → ConfigMap → Notification
  config_map_was_deleted : ConfigMap → Notification

module _ {P : Platform} {K : Environment P} where
  -- The clusters behind the pointers of the operator's map.
  unfoldable pub clusters_of : Assoc ℕ → M K (Assoc (Cluster P))
  clusters_of [] w = done [] w
  clusters_of ((name, a) ∷ entries) w =
      let rest = clusters_of entries in (do c ← cluster_at a; cs ← rest; pure ((name, c) ∷ cs)) w

  abbrev pub managed_clusters : M K (Assoc (Cluster P))
  unfolding clusters_of
  managed_clusters w = clusters_of w.clusters w

  -- `allow` is the operator's AllowEmptyDir.
  unfoldable pub notify : Bool → Notification → M K (List Message)
  unfolding on_cluster_added on_cluster_updated on_cluster_deleted config_map_added
      config_map_updated config_map_deleted clusters_of
  notify allow (cassandra_added a) = on_cluster_added allow a
  notify allow (cassandra_updated old new) = on_cluster_updated allow old new
  notify allow (cassandra_deleted a) = on_cluster_deleted allow a
  notify allow (config_map_was_added cm) = pure (config_map_added cm)
  notify allow (config_map_was_updated old new) = do
    clusters ← managed_clusters
    pure (config_map_updated clusters old new)
  notify allow (config_map_was_deleted cm) = do
    clusters ← managed_clusters
    pure (config_map_deleted clusters cm)

-- startServer: the handlers by path. The one for metrics is Prometheus', and net/http answers the other
-- paths; `marshalled` is what json.Marshal gives for the version.
unfoldable pub serve :
    (Response → Response)
    → (Response → Response)
    → Result String String
    → String
    → Response
    → Response
unfolding status_page liveness_and_readiness_check
serve metrics not_found marshalled path =
    if path == "/metrics"
    then metrics
    else if path == "/live"
    then liveness_and_readiness_check
    else if path == "/ready"
    then liveness_and_readiness_check
    else if path == "/status"
    then status_page marshalled
    else not_found
