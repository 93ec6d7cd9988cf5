-- ===== src/Operations/Clusters/Deletion.antt =====
-- What the deletion of a cluster leaves.
use cassandra_operator.Base.{
  ℕ, String, ◌==◌, ==_refl, ◌≡◌, refl, ap, ◌∙◌, sym, false, none, some, [], ◌∷◌, ◌++◌, arith,
  if◌then◌else◌, get_elem?, set, get_elem?-set, Option-cases, inl, inr,
}
use mathlib.Core.Path.{subst}
use mathlib.Core.List.{append_assoc}
use cassandra_operator.Base.Assoc.{lookup, delete, lookup-delete}
use cassandra_operator.Platform.{Platform}
use cassandra_operator.Api.{Cassandra, qualified_name}
use cassandra_operator.Cluster.{Cluster}
use cassandra_operator.World.{
  Ends, Environment, World, done, stateful_sets_deleted, service_deleted,
}
use cassandra_operator.Accessor.{
  cluster_selector, delete_stateful_sets_for_cluster, delete_service_for_cluster,
}
use cassandra_operator.Metrics.Prometheus.{delete_metrics, remove_nodes, size_labels}
use cassandra_operator.Operations.Clusters.{execute_delete_cluster, deleted, set_online}

module _ {P : Platform} {K : Environment P} where
  -- The cluster called k at address a is gone, and other names stand for what they did; its stateful
  -- sets and its service have been asked to be deleted, by two calls; its pods are no longer known to the metrics.
  pub record Deleted (w : World K) (k : String) (a : ℕ) (c : Cluster P) (j : String) (v : World K)
      : Type 0 where
    pub names : lookup j v.clusters ≡ (if k == j then none else lookup j w.clusters)
    pub offline : get_elem? v.stored_clusters a ≡ some (record c { online = false })
    pub requests : v.requests ≡ (
        w.requests
        ++ stateful_sets_deleted c.definition.namespace (cluster_selector c)
          ∷ service_deleted c.definition.namespace c.definition.name
          ∷ [])
    pub topology : lookup k v.topology ≡ none
    pub kube : v.kube ≡ (
        (K.delete_service c.definition.namespace c.definition.name
          (K.delete_stateful_sets c.definition.namespace (cluster_selector c) w.kube).1).1)

  -- The world after the name is forgotten and the cluster is offline.
  abbrev withdrawn : World K → ℕ → Cluster P → World K
  withdrawn w a c = record w {
    clusters = delete (qualified_name c.definition) w.clusters;
    stored_clusters = set w.stored_clusters a (record c { online = false });
  }

  -- The world after the two requests.
  abbrev requested : Cluster P → World K → World K
  requested c w = record w {
    kube =
        (K.delete_service c.definition.namespace c.definition.name
          (K.delete_stateful_sets c.definition.namespace (cluster_selector c) w.kube).1).1;
    requests =
        w.requests
        ++ stateful_sets_deleted c.definition.namespace (cluster_selector c) ∷ []
        ++ service_deleted c.definition.namespace c.definition.name ∷ [];
  }

  execute_delete_cluster-run :
      (w v : World K) (d a : ℕ) (n : Cassandra P) (c : Cluster P)
      → get_elem? w.definitions d ≡ some n
      → lookup (qualified_name n) w.clusters ≡ some a
      → get_elem? w.stored_clusters a ≡ some c
      → delete_metrics c (withdrawn w a c) ≡ done tt v
      → execute_delete_cluster d w ≡ done tt (requested c v)
  unfolding execute_delete_cluster deleted set_online delete_stateful_sets_for_cluster
      delete_service_for_cluster
  execute_delete_cluster-run w v d a n c has_definition has_name has_cluster metrics =
      ground (arith, has_definition, has_name, has_cluster, metrics)

  -- The metrics are deleted without touching anything else, and the cluster's pods are forgotten.
  record Unpublished (w : World K) (c : Cluster P) : Type 0 where
    result : World K
    run : delete_metrics c w ≡ done tt result
    clusters : result.clusters ≡ w.clusters
    stored : result.stored_clusters ≡ w.stored_clusters
    requests : result.requests ≡ w.requests
    kube : result.kube ≡ w.kube
    topology : lookup (qualified_name c.definition) result.topology ≡ none

  delete_metrics-Unpublished : (w : World K) (c : Cluster P) → Unpublished w c
  unfolding delete_metrics
  delete_metrics-Unpublished w c =
      let k = qualified_name c.definition in
      let sized : World K = record w {
        cluster_size = (K.delete_gauge (size_labels c) w.cluster_size).1;
      } in
      elim (Option-cases (lookup k w.topology)) [
        | inl e ↦ record {
          result = sized;
          run = ground (arith, e);
          clusters = refl;
          stored = refl;
          requests = refl;
          kube = refl;
          topology = e;
        }
        | inr nodes ↦ record {
          result = record sized {
            node_status = remove_nodes K c nodes.0 w.node_status;
            topology = delete k w.topology;
          };
          run = ground (arith, nodes.1);
          clusters = refl;
          stored = refl;
          requests = refl;
          kube = refl;
          topology = ground (arith, ==_refl k, lookup-delete k k w.topology);
        }
      ]

  -- Executing the deletion of a cluster that is known under its qualified name returns, whatever
  -- Kubernetes answers: the name is forgotten and every other name kept, the cluster is offline,
  -- Kubernetes is called twice, first to delete its stateful sets and then its service, both in the
  -- cluster's namespace, and the metrics know none of its pods.
  pub execute_delete_cluster-Deleted :
      (w : World K) (d a : ℕ) (n : Cassandra P) (c : Cluster P) (j : String)
      → get_elem? w.definitions d ≡ some n
      → lookup (qualified_name n) w.clusters ≡ some a
      → get_elem? w.stored_clusters a ≡ some c
      → qualified_name c.definition ≡ qualified_name n
      → Ends (Deleted w (qualified_name n) a c j) (execute_delete_cluster d w)
  execute_delete_cluster-Deleted w d a n c j has_definition has_name has_cluster same =
      let u = delete_metrics-Unpublished (withdrawn w a c) c in
      subst (Ends (Deleted w (qualified_name n) a c j))
        (sym
          (execute_delete_cluster-run w u.result d a n c has_definition has_name has_cluster u.run))
        (record {
          names =
              ap (lookup j) u.clusters
              ∙ lookup-delete (qualified_name c.definition) j w.clusters
              ∙ ap (λ k. if k == j then none else lookup j w.clusters) same;
          offline =
              ap (λ l. get_elem? l a) u.stored ∙ get_elem?-set w.stored_clusters a c _ has_cluster;
          requests =
              ap
                (λ l.
                  l
                  ++ stateful_sets_deleted c.definition.namespace (cluster_selector c) ∷ []
                  ++ service_deleted c.definition.namespace c.definition.name ∷ [])
                u.requests
              ∙ append_assoc w.requests
                  (stateful_sets_deleted c.definition.namespace (cluster_selector c) ∷ []) _;
          topology = ap (λ k. lookup k u.result.topology) (sym same) ∙ u.topology;
          kube =
              ap
                (λ s.
                  (K.delete_service c.definition.namespace c.definition.name
                    (K.delete_stateful_sets c.definition.namespace (cluster_selector c) s).1).1)
                u.kube;
        })
