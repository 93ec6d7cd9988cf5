-- ===== src/Operations/Clusters/InOrder.antt =====
-- What the addition of a cluster sends, whatever Kubernetes answers.
use cassandra_operator.Base.{
  ℕ, String, ◌≡◌, refl, ap, ◌∙◌, sym, true, inl, inr, Option, some, List, [], ◌∷◌, ◌++◌, map, arith,
  get_elem?, length, Result, ok, err, Option-cases,
}
use mathlib.Core.Path.{subst}
use mathlib.Core.List.{append_assoc}
use cassandra_operator.Platform.{Platform}
use cassandra_operator.Api.{Cassandra}
use cassandra_operator.Kube.{ConfigMap}
use cassandra_operator.Cluster.{Cluster}
use cassandra_operator.Cluster.Resources
use cassandra_operator.Cluster.Definition.{prepare, new}
use cassandra_operator.World.{
  Environment, World, done, panicked, waiting, deref, cluster_at, M, ◌>>=◌, Request,
  service_created,
}
use cassandra_operator.Accessor.{
  find_custom_config_map, find_existing_resources_for, create_service_for_cluster, cluster_selector,
  listed,
}
use cassandra_operator.Accessor.StatefulSets.{register_stateful_sets}
use cassandra_operator.Accessor.Accepting.{set_request}
use cassandra_operator.Accessor.InOrder.{final, Begins, quiet-Begins, Begins-then, racks-Begins}
use cassandra_operator.Operations.Clusters.{
  execute_add_cluster, new_cluster, added, create_unless_found, after_service, after_sets,
  set_online,
}
use cassandra_operator.Operations.Clusters.Addition.{
  created, installed, custom_config, sent_for, get_elem?-last,
}

abbrev sets_for : {P : Platform} → Cluster P → Option ConfigMap → List (Request P)
sets_for c cm = map (set_request c cm) c.definition.spec.racks

module _ {P : Platform} {K : Environment P} where
  set_online-requests : (a : ℕ) (w : World K) → (final (set_online a true w)).requests ≡ w.requests
  unfolding set_online final
  set_online-requests a w = elim (Option-cases (get_elem? w.stored_clusters a)) [
    | inl absent ↦ ground (arith, absent)
    | inr present ↦ ground (arith, present.1)
  ]

  after_sets-requests :
      (a : ℕ) (r : Result String (Unit {0})) (w : World K)
      → (final (after_sets a r w)).requests ≡ w.requests
  unfolding after_sets final
  after_sets-requests a (err e) w = refl
  after_sets-requests a (ok _) w = set_online-requests a w

  cluster_at-some :
      {B : Type 0} (a : ℕ) (c : Cluster P) (w : World K) (next : Cluster P → M K B)
      → get_elem? w.stored_clusters a ≡ some c
      → (cluster_at a >>= next) w ≡ next c w
  cluster_at-some a c w next at =
      ap
        (λ o. elim (deref {A = Cluster P} o w) [
          | done x v ↦ next x v
          | panicked v ↦ panicked v
          | waiting v ↦ waiting v
        ])
        at

  module _ (a : ℕ) (cm : Option ConfigMap) (c : Cluster P) where
    after_service-Begins :
        (r : Result String (Unit {0})) (w : World K)
        → get_elem? w.stored_clusters a ≡ some c
        → Begins w (sets_for c cm) (after_service a cm r w)
    unfolding after_service register_stateful_sets final
    after_service-Begins (err e) w at = quiet-Begins w _ _ refl
    after_service-Begins (ok _) w at =
        subst (Begins w (sets_for c cm))
          (sym (cluster_at-some a c w (λ c. register_stateful_sets c cm >>= after_sets a) at))
          (Begins-then w (sets_for c cm) (register_stateful_sets c cm w) (after_sets a)
            (after_sets-requests a) (racks-Begins c cm c.definition.spec.racks w))

    create_unless_found-Begins :
        (found : List String) (w : World K)
        → get_elem? w.stored_clusters a ≡ some c
        → Begins w
            (service_created c.definition.namespace (Resources.create_service c) ∷ sets_for c cm)
            (create_unless_found a cm found w)
    unfolding create_unless_found create_service_for_cluster final
    create_unless_found-Begins (name ∷ found) w at = quiet-Begins w _ _ (set_online-requests a w)
    create_unless_found-Begins [] w at =
        let service = Resources.create_service c in
        let answer = K.create_service c.definition.namespace service w.kube in
        let v : World K = record w {
          kube = answer.1;
          requests = w.requests ++ service_created c.definition.namespace service ∷ [];
        } in
        subst (Begins w (service_created c.definition.namespace service ∷ sets_for c cm))
          (sym
            (cluster_at-some a c w (λ c. create_service_for_cluster c >>= after_service a cm) at))
          (let r = after_service-Begins answer.0 v at in
            record {
              sent = service_created c.definition.namespace service ∷ r.sent;
              unsent = r.unsent;
              split = ap (λ l. service_created c.definition.namespace service ∷ l) r.split;
              requests =
                  r.requests
                  ∙ append_assoc w.requests (service_created c.definition.namespace service ∷ [])
                      r.sent;
            })

  -- The addition of a valid cluster, up to what is created.
  execute_add_cluster-created :
      (w : World K) (d : ℕ) (n s : Cassandra P)
      → get_elem? w.definitions d ≡ some n
      → (prepare n).0 ≡ ok s
      → execute_add_cluster d w
        ≡ (find_existing_resources_for (created s)
              >>= create_unless_found (length w.stored_clusters) (custom_config w n))
            (installed w d n s)
  unfolding execute_add_cluster new_cluster added find_custom_config_map new
  execute_add_cluster-created w d n s has_definition valid =
      ground (arith, has_definition, valid, get_elem?-last w.stored_clusters (created s))

  -- Whatever Kubernetes answers, and whether the run returns, panics or waits for ever, executing the
  -- addition of a cluster whose definition passes the checks sends a first part, possibly empty, of these
  -- requests and nothing else: the creation of the cluster's service, and then of the stateful set
  -- of each rack, in the order of the racks, each with the custom config map if it was found.
  pub execute_add_cluster-Begins :
      (w : World K) (d : ℕ) (n s : Cassandra P)
      → get_elem? w.definitions d ≡ some n
      → (prepare n).0 ≡ ok s
      → Begins w (sent_for w n s) (execute_add_cluster d w)
  unfolding find_existing_resources_for
  execute_add_cluster-Begins w d n s has_definition valid =
      let a = length w.stored_clusters in
      let v = installed w d n s in
      let cm = custom_config w n in
      let services = K.list_services s.namespace (cluster_selector (created s)) v.kube in
      let sets = K.list_stateful_sets s.namespace (cluster_selector (created s)) services.1 in
      let pods = K.list_pods s.namespace (cluster_selector (created s)) sets.1 in
      subst (Begins w (sent_for w n s))
        (sym (execute_add_cluster-created w d n s has_definition valid))
        (let b =
            create_unless_found-Begins a cm (created s)
              (listed "service:" services.0
                ++ (listed "statefulset:" sets.0 ++ listed "pod:" pods.0))
              (record v { kube = pods.1 }) (get_elem?-last w.stored_clusters (created s)) in
          record { sent = b.sent; unsent = b.unsent; split = b.split; requests = b.requests })
