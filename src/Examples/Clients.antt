-- ===== src/Examples/Clients.antt =====
-- The generated clients against a server and a tracker that log what they are asked for.
use cassandra_operator.Base.{
  ℕ, String, ◌==◌, Bool, true, false, Option, none, some, List, [], ◌∷◌, ◌++◌, ◌≡◌, ◌↔◌, refl, ok,
  ltb,
}
use cassandra_operator.Base.Int.{ℤ, pos}
use cassandra_operator.Client.Rest.{Options, RestRequest, Server}
use cassandra_operator.Client.Fake.{Action, Tracker}
use cassandra_operator.Client.Calls.{
  Call, get_call, watch_call, create_call, update_status_call, delete_call, ServerLog, TrackerLog,
  perform_all, fake_perform_all,
}
use cassandra_operator.Client.Agreement.{Agree, perform_all-Agree}
use cassandra_operator.Client.Clientset.{
  ClientGo, Config, Constructors, ClientSet, set_config_defaults,
}
use cassandra_operator.Operator.Startup.{
  Libraries, started, default_flags, config_of, root_command, exit_status, AcceptsArgs, IsGiven,
  root_command-started_iff,
}
use cassandra_operator.Client.Factory.Entries.{count}
use cassandra_operator.Client.Factory.Once.{
  FactoryCall, informer_for_call, start_call, call_all, new_process, RunsOnce, call_all-RunsOnce,
}
use cassandra_operator.Client.Factory.Kept.{Runs}
use cassandra_operator.Client.Informers.{cassandra_type, new_cassandra_informer}
use cassandra_operator.Operator.Registration.{
  run, namespaced, register_cassandra_informer, run-Watches,
}
use cassandra_operator.Examples.{plain, one_rack}

-- List options are a name to select and whether to watch.
abbrev by_name : Options plain
by_name = record {
  ListOptions = Option String × Bool;
  GetOptions = Unit {0};
  DeleteOptions = Unit {0};
  ListMeta = Unit {0};
  watching = λ o. (o.0, true);
  Selector = Option String;
  everything = none;
  label_of = λ o. elim o.0 [ none ↦ none | some n ↦ some (some n) ];
  selects = λ s c. elim s [ none ↦ true | some n ↦ c.name == n ];
}

abbrev logging : Server by_name
logging = record {
  State = List (RestRequest by_name);
  Error = String;
  Stream = ℕ;
  send_resource = λ r s. ((one_rack, none), s ++ (r ∷ []));
  send_list = λ r s. ((record { metadata = tt; items = one_rack ∷ [] }, none), s ++ (r ∷ []));
  send = λ r s. (none, s ++ (r ∷ []));
  open_stream = λ r s. ((some 0, none), s ++ (r ∷ []));
}

abbrev tracking : Tracker by_name
tracking = record {
  State = List (Action by_name);
  Error = String;
  Stream = ℕ;
  invoke = λ a s. ((none, some "not found"), s ++ (a ∷ []));
  invoke_list = λ a s. ((none, none), s ++ (a ∷ []));
  invoke_watch = λ a s. ((some 0, none), s ++ (a ∷ []));
}

abbrev server_log : ServerLog logging
server_log = record {
  log = λ s. s;
  resources = λ r s. refl;
  lists = λ r s. refl;
  others = λ r s. refl;
  streams = λ r s. refl;
}

abbrev tracker_log : TrackerLog tracking
tracker_log = record {
  log = λ s. s;
  invocations = λ a s. refl;
  lists = λ a s. refl;
  watches = λ a s. refl;
}

abbrev calls : List (Call by_name)
calls =
    create_call one_rack
    ∷ update_status_call one_rack
    ∷ watch_call (some "users", false)
    ∷ get_call "users" tt
    ∷ delete_call "users" tt
    ∷ []

perform_all-Agree_example :
    Agree server_log tracker_log "team"
      (perform_all logging "team" calls [])
      (fake_perform_all tracking "team" calls [])
perform_all-Agree_example = perform_all-Agree server_log tracker_log "team" calls [] [] refl

abbrev factory_calls : List (FactoryCall by_name)
factory_calls =
    start_call
    ∷ informer_for_call "v1alpha1.Cassandra" (λ resync. new_cassandra_informer "team" resync [])
    ∷ start_call
    ∷ informer_for_call "v1.Pod" (λ resync. new_cassandra_informer "" resync [])
    ∷ informer_for_call "v1alpha1.Cassandra" (λ resync. new_cassandra_informer "" resync [])
    ∷ start_call
    ∷ []

call_all-RunsOnce_example : RunsOnce (call_all factory_calls (new_process (pos 30) "team" none))
call_all-RunsOnce_example = call_all-RunsOnce (pos 30) "team" none factory_calls

run-Watches_example :
    ((register_cassandra_informer by_name "team").0 ≡ 0)
    × Runs cassandra_type 0
        (namespaced by_name "team")
        (call_all factory_calls (run by_name "team").1)
    × (count 0 (call_all factory_calls (run by_name "team").1).running ≡ 1)
run-Watches_example = run-Watches by_name "team" factory_calls

-- Rate limiters by what they were made from.
abbrev by_number : ClientGo
by_number = record {
  Limiter = ℕ × ℤ;
  Qps = ℕ;
  positive = ltb 0;
  new_token_bucket_rate_limiter = λ qps burst. (qps, burst);
  Serializer = String;
  direct_codec_factory = "codecs";
  default_kubernetes_user_agent = "operator/v1";
  Error = String;
}

abbrev given : Config by_number
given = record {
  qps = 5;
  burst = pos 10;
  rate_limiter = none;
  group_version = none;
  api_path = "";
  negotiated_serializer = none;
  user_agent = "";
}

-- Clients that keep their configuration.
abbrev keeping : Constructors by_number
keeping = record {
  RestClient = Config by_number;
  DiscoveryClient = Config by_number;
  rest_client_for = ok;
  new_discovery_client_for_config = ok;
}

abbrev for_cassandras : Config by_number
for_cassandras = record given {
  group_version = some ("core.sky.uk", "v1alpha1");
  api_path = "/apis";
  negotiated_serializer = some "codecs";
  user_agent = "operator/v1";
}

abbrev client_set : ClientSet keeping
client_set = record { discovery = given; core_v1alpha1 = for_cassandras }

-- A pod in which everything is found; Kubernetes clients are configurations too.
abbrev in_pod : Libraries keeping
in_pod = record {
  parses_level = λ level. level == "info";
  add_to_scheme = none;
  in_cluster_config = ok given;
  KubeClients = Config by_number;
  new_kube_clients = ok;
  error_text = λ e. e;
}

root_command-started_iff_example :
    ((root_command in_pod default_flags ≡ started (config_of default_flags) given client_set) ↔ (
      AcceptsArgs in_pod default_flags
      × (in_pod.add_to_scheme ≡ none)
      × (in_pod.new_kube_clients given ≡ ok given)
      × (keeping.rest_client_for (set_config_defaults given) ≡ ok for_cassandras)
      × (keeping.new_discovery_client_for_config given ≡ ok given)
      × ((config_of default_flags).metric_poll_interval ≡ default_flags.metric_poll_interval)
      × ((config_of default_flags).metric_request_duration ≡ default_flags.metric_poll_interval)
      × ((config_of default_flags).allow_empty_dir ≡ default_flags.allow_empty_dir)))
    × ((exit_status (root_command in_pod default_flags) ≡ 2) ↔ (
        AcceptsArgs in_pod default_flags
        × (in_pod.add_to_scheme ≡ none)
        × IsGiven (in_pod.new_kube_clients given)
        × (¬ (
            IsGiven (keeping.rest_client_for (set_config_defaults given))
            × IsGiven (keeping.new_discovery_client_for_config given)))))
root_command-started_iff_example =
    root_command-started_iff in_pod default_flags given (config_of default_flags) given client_set
      refl
