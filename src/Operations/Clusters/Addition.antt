-- ===== src/Operations/Clusters/Addition.antt =====
-- What the addition of a cluster sends, when Kubernetes accepts it.
use cassandra_operator.Base.{
  ℕ, String, ◌<>◌, ◌==◌, ◌≡◌, refl, ap, ◌∙◌, sym, true, false, inl, inr, Option, some, List, [],
  ◌∷◌, ◌++◌, map, arith, if◌then◌else◌, get_elem?, set, length, ok, Option-cases,
}
use mathlib.Core.Path.{subst}
use mathlib.Core.List.{append_assoc}
use cassandra_operator.Base.Assoc.{lookup, insert, lookup-insert}
use cassandra_operator.Platform.{Platform}
use cassandra_operator.Api.{Probe, Cassandra, qualified_name}
use cassandra_operator.Kube.{ConfigMap}
use cassandra_operator.Cluster.{Cluster}
use cassandra_operator.Cluster.Resources
use cassandra_operator.Cluster.Definition.{prepare, new}
use cassandra_operator.World.{Environment, World, done, Reason, Request, service_created}
use cassandra_operator.Accessor.StatefulSets.{register_stateful_sets}
use cassandra_operator.World.{Ends}
use cassandra_operator.Accessor.{
  cluster_selector, listed, find_custom_config_map, find_existing_resources_for,
  create_service_for_cluster, to_option,
}
use cassandra_operator.Accessor.Accepting.{Accepting, racks-Sent, set_request}
use cassandra_operator.Operations.Clusters.{
  execute_add_cluster, new_cluster, added, create_unless_found, after_service, after_sets,
  set_online,
}

module _ {P : Platform} where
  -- A definition that is stored has a readiness probe.
  pub prepare-readiness :
      (n s : Cassandra P)
      → (prepare n).0 ≡ ok s
      → (p : Probe) × (s.spec.pod.readiness_probe ≡ some p)
  unfolding prepare
  prepare-readiness n s h = elim (Option-cases s.spec.pod.readiness_probe) [
    | inl absent ↦ ground (arith, absent, h)
    | inr present ↦ present
  ]

  abbrev pub created : Cassandra P → Cluster P
  created s = record { definition = s; online = false }

module _ {A : Type 0} where
  pub get_elem?-last : (xs : List A) (x : A) → get_elem? (xs ++ x ∷ []) (length xs) ≡ some x
  get_elem?-last [] x = refl
  get_elem?-last (y ∷ xs) x = get_elem?-last xs x

  set-last : (xs : List A) (x y : A) → set (xs ++ x ∷ []) (length xs) y ≡ (xs ++ y ∷ [])
  set-last [] x y = refl
  set-last (z ∷ xs) x y = ap (λ l. z ∷ l) (set-last xs x y)

-- The three lists of what has the cluster's label are empty or fail, one after another.
pub record Unclaimed {P : Platform} (K : Environment P) (s : Cassandra P) (k : K.State)
    : Type 0 where
  pub services :
      listed "service:" (K.list_services s.namespace (cluster_selector (created s)) k).0 ≡ []
  pub sets :
      listed "statefulset:"
        (K.list_stateful_sets s.namespace
          (cluster_selector (created s))
          (K.list_services s.namespace (cluster_selector (created s)) k).1).0
      ≡ []
  pub pods :
      listed "pod:"
        (K.list_pods s.namespace
          (cluster_selector (created s))
          (K.list_stateful_sets s.namespace
            (cluster_selector (created s))
            (K.list_services s.namespace (cluster_selector (created s)) k).1).1).0
      ≡ []

module _ {P : Platform} {K : Environment P} where
  find_existing-none :
      (s : Cassandra P) (w : World K)
      → Unclaimed K s w.kube
      → (k : K.State) × (find_existing_resources_for (created s) w
          ≡ done [] (record w { kube = k }))
  unfolding find_existing_resources_for
  find_existing-none s w u = (
    (K.list_pods s.namespace (cluster_selector (created s))
        (K.list_stateful_sets s.namespace (cluster_selector (created s))
          (K.list_services s.namespace (cluster_selector (created s)) w.kube).1).1).1,
    ground (arith, u.services, u.sets, u.pods),
  )

  -- The world once the cluster stands in the store and in the map, at the next address.
  abbrev pub installed : World K → ℕ → Cassandra P → Cassandra P → World K
  installed w d n s = record w {
    kube = (K.get_config_map n.namespace (n.name <> "-config") w.kube).1;
    definitions = set w.definitions d (prepare n).1;
    stored_clusters = w.stored_clusters ++ created s ∷ [];
    clusters = insert (qualified_name s) (length w.stored_clusters) w.clusters;
  }

  abbrev pub custom_config : World K → Cassandra P → Option ConfigMap
  custom_config w n = to_option (K.get_config_map n.namespace (n.name <> "-config") w.kube).0

  execute_add_cluster-installed :
      (w : World K) (d : ℕ) (n s : Cassandra P)
      → get_elem? w.definitions d ≡ some n
      → (prepare n).0 ≡ ok s
      → Unclaimed K s (K.get_config_map n.namespace (n.name <> "-config") w.kube).1
      → (k : K.State) × (execute_add_cluster d w
          ≡ create_unless_found
              (length w.stored_clusters)
              (custom_config w n)
              []
              (record (installed w d n s) { kube = k }))
  unfolding execute_add_cluster new_cluster added find_custom_config_map new
  execute_add_cluster-installed w d n s has_definition valid u =
      let f = find_existing-none s (installed w d n s) u in
      (
        f.0,
        ground (arith, has_definition, valid, f.1, get_elem?-last w.stored_clusters (created s)),
      )

  abbrev pub sent_for : World K → Cassandra P → Cassandra P → List (Request P)
  sent_for w n s =
      service_created (created s).definition.namespace (Resources.create_service (created s))
      ∷ map (set_request (created s) (custom_config w n)) s.spec.racks

  -- The cluster is stored, known and online; its service and then the stateful set of each rack have
  -- been asked for.
  pub record Added (w : World K) (d : ℕ) (n s : Cassandra P) (j : String) (v : World K)
      : Type 0 where
    pub requests : v.requests ≡ (w.requests ++ sent_for w n s)
    pub stored :
        v.stored_clusters ≡ (w.stored_clusters ++ record { definition = s; online = true } ∷ [])
    pub names :
        lookup j v.clusters
        ≡ (if qualified_name s == j then some (length w.stored_clusters) else lookup j w.clusters)
    pub definitions : v.definitions ≡ set w.definitions d (prepare n).1

  create_unless_found-done :
      (accepting : Accepting K) (v : World K) (a : ℕ) (cm : Option ConfigMap) (s : Cassandra P)
      (probe : Probe)
      → s.spec.pod.readiness_probe ≡ some probe
      → get_elem? v.stored_clusters a ≡ some (created s)
      → (k : K.State) × (log : List Reason) × (create_unless_found a cm [] v
          ≡ done tt (record v {
            kube = k;
            events = log;
            requests =
                v.requests
                ++ service_created
                    (created s).definition.namespace
                    (Resources.create_service (created s))
                  ∷ map (set_request (created s) cm) s.spec.racks;
            stored_clusters = set v.stored_clusters a (record { definition = s; online = true });
          }))
  unfolding create_unless_found create_service_for_cluster after_service after_sets set_online
      register_stateful_sets
  create_unless_found-done accepting v a cm s probe ready at =
      let service = Resources.create_service (created s) in
      let v1 : World K = record v {
        kube = (K.create_service s.namespace service v.kube).1;
        requests = v.requests ++ service_created (created s).definition.namespace service ∷ [];
      } in
      let rest = racks-Sent accepting (created s) probe ready s.spec.racks cm v1 in
      (
        rest.kube,
        rest.log,
        ground (
          arith,
          at,
          accepting.services s.namespace service v.kube,
          rest.run,
          rest.good,
          append_assoc v.requests (service_created (created s).definition.namespace service ∷ [])
              (map (set_request (created s) cm) s.spec.racks),
        ),
      )

  -- If Kubernetes accepts every service and stateful set and each wait for a rack ends, executing the
  -- addition of a cluster whose definition passes the checks, and whose label nothing has, returns: the
  -- cluster is stored, online, and known under its qualified name, every other name is kept, and what
  -- has been sent is the cluster's service and then the stateful set of each rack, in the order of the
  -- racks, each with the custom config map if it was found.
  pub execute_add_cluster-Added :
      (accepting : Accepting K) (w : World K) (d : ℕ) (n s : Cassandra P) (j : String)
      → get_elem? w.definitions d ≡ some n
      → (prepare n).0 ≡ ok s
      → Unclaimed K s (K.get_config_map n.namespace (n.name <> "-config") w.kube).1
      → Ends (Added w d n s j) (execute_add_cluster d w)
  execute_add_cluster-Added accepting w d n s j has_definition valid u =
      let p = prepare-readiness n s valid in
      let first = execute_add_cluster-installed w d n s has_definition valid u in
      let rest =
        create_unless_found-done accepting (record (installed w d n s) { kube = first.0 })
          (length w.stored_clusters) (custom_config w n) s p.0 p.1
          (get_elem?-last w.stored_clusters (created s)) in
      subst (Ends (Added w d n s j)) (sym (first.1 ∙ rest.2)) (record {
        requests = refl;
        stored = set-last w.stored_clusters (created s) _;
        names = lookup-insert (qualified_name s) j (length w.stored_clusters) w.clusters;
        definitions = refl;
      })
