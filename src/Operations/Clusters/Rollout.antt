-- ===== src/Operations/Clusters/Rollout.antt =====
-- What an update of a cluster sends, when Kubernetes accepts it.
use cassandra_operator.Base.{
  ℕ, ◌<>◌, ◌≡◌, ◌≢◌, refl, ◌∙◌, sym, Option, some, List, ◌++◌, arith, get_elem?, set, get_elem?-set,
  get_elem?-set_ne, ok,
}
use mathlib.Core.Path.{subst}
use cassandra_operator.Platform.{Platform}
use cassandra_operator.Api.{Cassandra}
use cassandra_operator.Kube.{ConfigMap}
use cassandra_operator.Cluster.{Cluster}
use cassandra_operator.Cluster.Definition.{prepare, copy_into}
use cassandra_operator.Adjuster.{ClusterChange, changes_for_cluster}
use cassandra_operator.World.{Environment, World}
use cassandra_operator.Accessor.{to_option}
use cassandra_operator.Accessor.Accepting.{Accepting}
use cassandra_operator.Operations.Clusters.{
  execute_update_cluster, copy_definition, copied, planned, perform_changes,
}
use cassandra_operator.Operations.Clusters.Addition.{prepare-readiness}
use cassandra_operator.World.{Ends}
use cassandra_operator.Operations.Clusters.Changes.{
  Applying, all_requests_for, perform_changes-Sent,
}

-- The definition is stored, and the requests are those of the changes.
pub record Updated {P : Platform} {K : Environment P} (w : World K) (a new : ℕ) (c : Cluster P)
    (n s : Cassandra P) (cm : Option ConfigMap) (changes : List ClusterChange) (v : World K)
    : Type 0 where
  pub requests :
      v.requests ≡ (w.requests ++ all_requests_for (record c { definition = s }) cm changes)
  pub stored : v.stored_clusters ≡ set w.stored_clusters a (record c { definition = s })
  pub definitions : v.definitions ≡ set w.definitions new (prepare n).1
  pub clusters : v.clusters ≡ w.clusters

module _ {P : Platform} {K : Environment P} (accepting : Accepting K) (applying : Applying K) where
  execute_update_cluster-planned :
      (w : World K) (a old new : ℕ) (c : Cluster P) (n o s : Cassandra P)
      (changes : List ClusterChange)
      → get_elem? w.stored_clusters a ≡ some c
      → get_elem? w.definitions new ≡ some n
      → get_elem? w.definitions old ≡ some o
      → new ≢ old
      → (prepare n).0 ≡ ok s
      → changes_for_cluster o.spec (prepare n).1.spec ≡ ok changes
      → execute_update_cluster a old new w
        ≡ perform_changes a changes (record w {
          definitions = set w.definitions new (prepare n).1;
          stored_clusters = set w.stored_clusters a (record c { definition = s });
        })
  unfolding execute_update_cluster copy_definition copied copy_into planned
  execute_update_cluster-planned w a old new c n o s changes at is_new is_old apart valid allowed =
      ground (
        arith,
        at,
        is_new,
        valid,
        allowed,
        get_elem?-set_ne w.definitions new old (prepare n).1 apart ∙ is_old,
        get_elem?-set w.definitions new n (prepare n).1 is_new,
      )

  -- If Kubernetes accepts what it is sent and every change of a stateful set is applied, executing an
  -- update whose definition passes the checks and whose changes are allowed returns: the new definition
  -- with its defaults is stored in the cluster, and what has been sent is, in the order of the planned
  -- changes, the patch of each rack that is updated and the stateful set of each rack that is added,
  -- and nothing else. The two definitions stand at different addresses, and the custom config map
  -- is the same whenever it is looked for.
  pub execute_update_cluster-Updated :
      (w : World K) (a old new : ℕ) (c : Cluster P) (n o s : Cassandra P) (cm : Option ConfigMap)
      (changes : List ClusterChange)
      → get_elem? w.stored_clusters a ≡ some c
      → get_elem? w.definitions new ≡ some n
      → get_elem? w.definitions old ≡ some o
      → new ≢ old
      → (prepare n).0 ≡ ok s
      → changes_for_cluster o.spec (prepare n).1.spec ≡ ok changes
      → ((k : K.State) → to_option (K.get_config_map s.namespace (s.name <> "-config") k).0 ≡ cm)
      → Ends (Updated w a new c n s cm changes) (execute_update_cluster a old new w)
  execute_update_cluster-Updated w a old new c n o s cm changes at is_new is_old apart valid allowed
        config =
      let p = prepare-readiness n s valid in
      let w1 : World K = record w {
        definitions = set w.definitions new (prepare n).1;
        stored_clusters = set w.stored_clusters a (record c { definition = s });
      } in
      let rest =
        perform_changes-Sent accepting applying (record c { definition = s }) p.0 p.1 cm a config
          changes w1 (get_elem?-set w.stored_clusters a c (record c { definition = s }) at) in
      subst (Ends (Updated w a new c n s cm changes))
        (sym (
          execute_update_cluster-planned w a old new c n o s changes at is_new is_old apart valid
            allowed
          ∙ rest.run))
        (record { requests = refl; stored = refl; definitions = refl; clusters = refl })
