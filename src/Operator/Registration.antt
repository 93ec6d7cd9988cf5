-- ===== src/Operator/Registration.antt =====
-- Run, registerCassandraInformer and registerConfigMapInformer of
-- cassandra-operator/pkg/operator/operator.go: the informers that the operator registers and runs, by
-- the value of OPERATOR_NAMESPACE. The server, the signal handler and the end of the process are steps.
use cassandra_operator.Base.{
  ℕ, String, ◌<>◌, ◌==◌, ==_refl, none, List, [], ◌∷◌, ◌≡◌, refl, if◌then◌else◌, arith,
}
use cassandra_operator.Base.Int.{ℤ, pos}
use cassandra_operator.Platform.{Platform}
use cassandra_operator.Client.Rest.{Options}
use cassandra_operator.Client.Cassandras.{list_request, watch_request}
use cassandra_operator.Client.Factory.{
  Informer, Process, start, with_namespace, new_shared_informer_factory_with_options,
  new_filtered_shared_informer_factory,
}
use cassandra_operator.Client.Factory.Entries.{count, marked-le-registered}
use cassandra_operator.Client.Factory.Once.{
  FactoryCall, start_call, informer_for_call, call_all, IsConsistent, call_all-IsConsistent,
  new_process, new_process-IsConsistent,
}
use cassandra_operator.Client.Factory.Kept.{Runs, call_all-Runs, marked_of_lookup}
use cassandra_operator.Client.Informers.{
  core, v1alpha1, cassandras, informer, cassandra_type, default_informer,
  new_filtered_cassandra_informer, tweaked,
}

-- 5 * time.Minute
abbrev pub resource_resync_interval : ℤ
resource_resync_interval = pos 300_000_000_000

-- The controller of the config maps, by the arguments of NewListWatchFromClient and NewInformer.
pub record Controller : Type 0 where
  pub resource : String
  pub namespace : String
  pub resync_period : ℤ

-- What Run does, in order, up to the wait for the stop channel.
pub data RunStep : Type 0 where
  logged : String → RunStep
  handlers_added : ℕ → RunStep
  server_started : RunStep
  signals_handled : RunStep
  cassandras_started : RunStep
  config_maps_run : Controller → RunStep

unfoldable pub register_config_map_informer : String → Controller
register_config_map_informer ns = record {
  resource = "configmaps";
  namespace = ns;
  resync_period = resource_resync_interval;
}

unfoldable pub listening : String → String
listening ns =
    if ns == ""
    then "Operator listening for changes in any namespace"
    else "Operator listening for changes in namespace " <> ns

module _ {P : Platform} (O : Options P) where
  -- The factory, the informer that its handlers are added to, and the process once both are made.
  unfoldable pub register_cassandra_informer : String → ℕ × Process O
  unfolding new_shared_informer_factory_with_options with_namespace core v1alpha1 cassandras
      informer
  register_cassandra_informer ns =
      let factory =
        new_shared_informer_factory_with_options resource_resync_interval
          (with_namespace ns ∷ []) in
      informer (cassandras (v1alpha1 (core factory)))
        (record { factory = factory; created = []; running = [] })

  unfoldable pub run : String → List RunStep × Process O
  unfolding register_cassandra_informer register_config_map_informer listening start
  run ns =
      let (address, registered) = register_cassandra_informer ns in
      (
        logged (listening ns)
            ∷ handlers_added address
            ∷ server_started
            ∷ signals_handled
            ∷ cassandras_started
            ∷ config_maps_run (register_config_map_informer ns)
            ∷ [],
        start registered,
      )

  -- The informer that watches the Cassandra resources of a namespace.
  abbrev pub namespaced : String → Informer O
  namespaced ns = record {
    list_func = λ options. list_request ns options;
    watch_func = λ options. watch_request ns options;
    resync_period = resource_resync_interval;
    indexers = "namespace" ∷ [];
  }

  run-Runs : (ns : String) → Runs cassandra_type 0 (namespaced ns) (run ns).1
  unfolding run default_informer new_filtered_cassandra_informer tweaked with_namespace core
      v1alpha1 cassandras
  run-Runs ns = record {
    known = ground (arith, ==_refl cassandra_type);
    made = refl;
    flagged = ground (arith, ==_refl cassandra_type);
  }

  -- Run calls InformerFor and Start on a new factory.
  run-IsConsistent : (ns : String) → IsConsistent (run ns).1
  unfolding run informer with_namespace core v1alpha1 cassandras start
      new_shared_informer_factory_with_options new_filtered_shared_informer_factory
  run-IsConsistent ns =
      call_all-IsConsistent
        (informer_for_call cassandra_type
            (default_informer (record { namespace = ns; tweak_list_options = none }))
          ∷ start_call
          ∷ [])
        (new_process resource_resync_interval ns none)
        (new_process-IsConsistent resource_resync_interval ns none)

  -- Once Run has started its informers, and whatever is called on the factory from then on: the informer
  -- of the Cassandra resources is the one that Run has added its handlers to; it lists and watches the
  -- resources of the namespace in OPERATOR_NAMESPACE (of all, if that is empty) with the options as
  -- given, resyncs every five minutes and has been run exactly once.
  pub run-Watches :
      (ns : String) (calls : List (FactoryCall O))
      → let p = call_all calls (run ns).1 in
        ((register_cassandra_informer ns).0 ≡ 0)
        × Runs cassandra_type 0 (namespaced ns) p
        × (count 0 p.running ≡ 1)
  unfolding register_cassandra_informer
  run-Watches ns calls =
      let p = call_all calls (run ns).1 in
      let r = call_all-Runs calls cassandra_type 0 (namespaced ns) (run ns).1 (run-Runs ns) in
      let i = call_all-IsConsistent calls (run ns).1 (run-IsConsistent ns) in
      let entries = p.factory.informers in
      (
        refl,
        r,
        omega (
          arith,
          IsConsistent.tallies i 0,
          IsConsistent.single i 0,
          marked-le-registered 0 entries p.factory.started_informers,
          marked_of_lookup cassandra_type 0 entries p.factory.started_informers (Runs.known r)
              (Runs.flagged r),
        ),
      )
