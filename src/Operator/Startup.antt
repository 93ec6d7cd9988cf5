-- ===== src/Operator/Startup.antt =====
-- cassandra-operator/cmd/operator/main.go, and New in cassandra-operator/pkg/operator/operator.go: from
-- the flags of the command, through the clients that client-go gives, to the start of the operator, or
-- to the way the process ends without it, and the operator's first state.
use cassandra_operator.Base.{
  ℕ, Result-cases, inl, inr, String, Bool, true, false, Option, none, some, List, [], Result, ok,
  err, if◌then◌else◌, ◌<>◌, ◌≡◌, ◌↔◌, arith,
}
use cassandra_operator.Base.Int.{ℤ, pos, ltb_ℤ}
use cassandra_operator.Platform.{Platform}
use cassandra_operator.Api.{Cassandra}
use cassandra_operator.World.{Environment, World}
use cassandra_operator.Client.Clientset
use cassandra_operator.Client.Clientset.{
  ClientGo, Constructors, ClientSet, new_for_config_or_die, set_config_defaults,
  new_core_for_config, with_discovery,
}

-- The flags, which cobra parses.
pub record Flags : Type 0 where
  pub metric_poll_interval : ℤ
  pub metric_request_timeout : ℤ
  pub log_level : String
  pub allow_empty_dir : Bool

abbrev pub default_flags : Flags
default_flags = record {
  metric_poll_interval = pos 5_000_000_000;
  metric_request_timeout = pos 2_000_000_000;
  log_level = "info";
  allow_empty_dir = false;
}

-- currentTime.Add(duration).After(currentTime)
unfoldable pub is_positive : ℤ → Bool
is_positive duration = ltb_ℤ (pos 0) duration

-- The error if any; `parses` tells whether logrus knows a level.
unfoldable pub handle_args : (String → Bool) → Flags → Option String
unfolding is_positive
handle_args parses f =
    if is_positive f.metric_poll_interval
    then (if parses f.log_level then none else some "invalid log-level")
    else some "invalid metric-poll-interval, it must be a positive integer"

-- operator.Config
pub record Config : Type 0 where
  pub metric_poll_interval : ℤ
  pub metric_request_duration : ℤ
  pub allow_empty_dir : Bool

abbrev pub config_of : Flags → Config
config_of f = record {
  metric_poll_interval = f.metric_poll_interval;
  metric_request_duration = f.metric_poll_interval;
  allow_empty_dir = f.allow_empty_dir;
}

-- What the command gets from logrus, from the registration of the scheme and from client-go.
pub record Libraries {G : ClientGo} (N : Constructors G) : Type 1 where
  pub parses_level : String → Bool
  pub add_to_scheme : Option G.Error
  pub in_cluster_config : Result G.Error (Clientset.Config G)
  pub KubeClients : Type 0
  pub new_kube_clients : Clientset.Config G → Result G.Error KubeClients
  pub error_text : G.Error → String

module _ {G : ClientGo} {N : Constructors G} where
  -- How the command ends: New and Run are called, an error is returned, log.Fatalf exits, or it panics.
  pub data Ran (L : Libraries N) : Type 0 where
    started : Config → L.KubeClients → ClientSet N → Ran L
    failed : String → Ran L
    fatal : String → Ran L
    panicked : G.Error → Ran L

  -- The arguments of operator.New.
  run_with : (L : Libraries N) → Config → L.KubeClients → Result G.Error (ClientSet N) → Ran L
  run_with L config kube (err e) = panicked e
  run_with L config kube (ok clients) = started config kube clients

  -- kubernetesClient, and then cassandraClient.
  with_clients :
      (L : Libraries N) → Config → Clientset.Config G → Result G.Error L.KubeClients → Ran L
  unfolding new_for_config_or_die run_with
  with_clients L config c (err e) = fatal ("Unable to obtain clientset: " <> L.error_text e)
  with_clients L config c (ok kube) = run_with L config kube (new_for_config_or_die N c)

  -- kubernetesConfig, and what needs it.
  with_config : (L : Libraries N) → Config → Result G.Error (Clientset.Config G) → Ran L
  unfolding with_clients
  with_config L config (err e) = fatal ("Unable to obtain in-cluster config: " <> L.error_text e)
  with_config L config (ok c) = with_clients L config c (L.new_kube_clients c)

  unfoldable pub start_operator : (L : Libraries N) → Flags → Ran L
  unfolding with_config
  start_operator L f = elim L.add_to_scheme [
    | some e ↦ failed ("unable to register metadata for Cassandra resources: " <> L.error_text e)
    | none ↦ with_config L (config_of f) L.in_cluster_config
  ]

  -- cobra runs PersistentPreRunE, and RunE unless that fails.
  unfoldable pub root_command : (L : Libraries N) → Flags → Ran L
  unfolding handle_args start_operator
  root_command L f = elim (handle_args L.parses_level f) [
    | some e ↦ failed e
    | none ↦ start_operator L f
  ]

  -- The status of the process: Run returns when the operator is stopped.
  unfoldable pub exit_status : {L : Libraries N} → Ran L → ℕ
  exit_status (started config kube clients) = 0
  exit_status (failed e) = 1
  exit_status (fatal e) = 1
  exit_status (panicked e) = 2

module _ {P : Platform} (K : Environment P) where
  -- What New makes: no clusters, no topology, and a dispatcher without channels.
  unfoldable pub new_world : K.State → List (Cassandra P) → K.Gauge → K.Gauge → World K
  new_world kube definitions node_status cluster_size = record {
    kube = kube;
    definitions = definitions;
    stored_clusters = [];
    clusters = [];
    requests = [];
    events = [];
    node_status = node_status;
    cluster_size = cluster_size;
    topology = [];
  }

abbrev pub IsGiven : {E A : Type 0} → Result E A → Type 0
IsGiven (ok a) = Unit {0}
IsGiven (err e) = ⊥

module _ {G : ClientGo} {N : Constructors G} (L : Libraries N) where
  abbrev pub AcceptsArgs : Flags → Type 0
  AcceptsArgs f =
      (ltb_ℤ (pos 0) f.metric_poll_interval ≡ true) × (L.parses_level f.log_level ≡ true)

  handle_args_iff : (f : Flags) → (handle_args L.parses_level f ≡ none) ↔ AcceptsArgs f
  unfolding handle_args is_positive
  handle_args_iff f = ground arith

  -- In a pod, the command calls the operator's New and Run exactly if the polling interval is positive,
  -- the log level is known, the scheme is registered, and client-go gives both clientsets: the
  -- Kubernetes one for the pod's configuration, and the one of the Cassandra resources for that
  -- configuration with their group, path and codec, with a discovery client beside it. The operator then
  -- polls at the interval, and gives a metric request the same interval, whatever the request
  -- timeout is. The process panics exactly if only a client of the Cassandra resources is missing.
  pub root_command-started_iff :
      (f : Flags) (c : Clientset.Config G) (config : Config) (kube : L.KubeClients)
      (clients : ClientSet N)
      → L.in_cluster_config ≡ ok c
      → ((root_command L f ≡ started config kube clients) ↔ (
          AcceptsArgs f
          × (L.add_to_scheme ≡ none)
          × (L.new_kube_clients c ≡ ok kube)
          × (N.rest_client_for (set_config_defaults c) ≡ ok clients.core_v1alpha1)
          × (N.new_discovery_client_for_config c ≡ ok clients.discovery)
          × (config.metric_poll_interval ≡ f.metric_poll_interval)
          × (config.metric_request_duration ≡ f.metric_poll_interval)
          × (config.allow_empty_dir ≡ f.allow_empty_dir)))
        × ((exit_status (root_command L f) ≡ 2) ↔ (
            AcceptsArgs f
            × (L.add_to_scheme ≡ none)
            × IsGiven (L.new_kube_clients c)
            × (¬ (
                IsGiven (N.rest_client_for (set_config_defaults c))
                × IsGiven (N.new_discovery_client_for_config c)))))
  unfolding root_command start_operator with_config with_clients run_with new_for_config_or_die
      new_core_for_config with_discovery exit_status handle_args is_positive
  root_command-started_iff f c config kube clients found =
      elim (Result-cases (L.new_kube_clients c)) [
        | inl (e, x) ↦ ground (arith, found, x)
        | inr (k, x) ↦ elim (Result-cases (N.rest_client_for (set_config_defaults c))) [
          | inl (e, y) ↦ ground (arith, found, x, y)
          | inr (r, y) ↦ elim (Result-cases (N.new_discovery_client_for_config c)) [
            | inl (e, z) ↦ ground (arith, found, x, y, z)
            | inr (d, z) ↦ ground (arith, found, x, y, z)
          ]
        ]
      ]
