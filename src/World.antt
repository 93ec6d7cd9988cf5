-- ===== src/World.antt =====
-- What the operator's operations act on: its environment, which is a parameter, and the memory of
-- the process. Definitions and clusters are shared by pointer (an operation keeps the pointer that it
-- was planned with), so both live in stores and are named by their address.
use cassandra_operator.Base.{
  ℕ, String, Bool, List, [], ◌∷◌, ◌++◌, Option, none, some, Result, length, get_elem?, set,
}
use cassandra_operator.Base.Int.{ℤ}
use cassandra_operator.Base.Assoc.{Assoc}
use cassandra_operator.Platform.{Platform}
use cassandra_operator.Api.{Cassandra}
use cassandra_operator.Kube.{StatefulSet, Service, CronJob, ConfigMap}
use cassandra_operator.Cluster.{Cluster}

-- The fields of a stateful set's status that are read, with a nil ObservedGeneration as `none`.
pub record SetStatus : Type 0 where
  pub observed_generation : Option ℤ
  pub update_revision : String
  pub current_revision : String
  pub ready_replicas : ℤ
  pub replicas : ℤ

-- A stateful set as the API returns it: the object and the generation that the server gave it.
pub record AppliedSet (P : Platform) : Type 0 where
  pub object : StatefulSet P
  pub generation : ℤ

-- A pod, as the metrics read it.
pub record PodInfo : Type 0 where
  pub name : String
  pub ip : String

-- An HTTP response, whose body may fail to be read.
pub record Response : Type 0 where
  pub status_code : ℕ
  pub body : Result String String

-- The calls that the operator makes of client-go, of an HTTP client with its JSON decoder, of a
-- random source and of Prometheus gauges. A call may fail with a message and may change the state.
-- `observe` gives the answers to the repeated reads of one wait, which may end before the stateful
-- set is ready. The decoders give the status and the value of a Jolokia response.
pub record Environment (P : Platform) : Type 1 where
  pub State : Type 0
  pub create_service : String → Service → State → Result String (Unit {0}) × State
  pub delete_service : String → String → State → Result String (Unit {0}) × State
  pub delete_stateful_sets : String → String → State → Result String (Unit {0}) × State
  pub get_config_map : String → String → State → Result String ConfigMap × State
  pub create_stateful_set : String → StatefulSet P → State → Result String (AppliedSet P) × State
  pub patch_stateful_set : String → String → String → State → Result String (AppliedSet P) × State
  pub get_stateful_set : String → String → State → Result String (AppliedSet P) × State
  pub update_stateful_set : String → AppliedSet P → State → Result String (AppliedSet P) × State
  pub observe : String → String → State → List (Result String SetStatus) × State
  pub list_services : String → String → State → Result String (List String) × State
  pub list_stateful_sets : String → String → State → Result String (List String) × State
  pub list_pods : String → String → State → Result String (List String) × State
  pub create_cron_job : String → Option (CronJob P) → State → Result String (Unit {0}) × State
  pub list_cron_jobs : String → String → State → Result String (List (CronJob P)) × State
  pub delete_cron_job : String → String → State → Result String (Unit {0}) × State
  pub update_cron_job : String → CronJob P → State → Result String (Unit {0}) × State
  pub list_pod_infos : String → String → State → Result String (List PodInfo) × State
  pub http_get : String → State → Result String Response × State
  pub decode_values : String → Result String (ℕ × List String)
  pub decode_value : String → Result String (ℕ × String)
  pub random_below : ℕ → State → ℕ × State
  pub Gauge : Type 0
  pub set_gauge : List String → ℕ → Gauge → Gauge
  pub delete_gauge : List String → Gauge → Bool × Gauge

-- The requests that change something in Kubernetes, each with the namespace that it is made in.
pub data Request (P : Platform) : Type 0 where
  service_created : String → Service → Request P
  service_deleted : String → String → Request P
  stateful_set_created : String → StatefulSet P → Request P
  stateful_set_patched : String → String → String → Request P
  stateful_set_updated : String → AppliedSet P → Request P
  stateful_sets_deleted : String → String → Request P
  cron_job_created : String → Option (CronJob P) → Request P
  cron_job_updated : String → CronJob P → Request P
  cron_job_deleted : String → String → Request P

-- What a request is answered with.
abbrev pub Answer : {P : Platform} → Request P → Type 0
Answer {P} (stateful_set_created n s) = AppliedSet P
Answer {P} (stateful_set_patched n s p) = AppliedSet P
Answer {P} (stateful_set_updated n s) = AppliedSet P
Answer _ = Unit {0}

-- The call that makes a request.
abbrev pub answer :
    {P : Platform} (K : Environment P) (r : Request P)
    → K.State
    → Result String (Answer r) × K.State
answer K (service_created n s) = K.create_service n s
answer K (service_deleted n s) = K.delete_service n s
answer K (stateful_set_created n s) = K.create_stateful_set n s
answer K (stateful_set_patched n s p) = K.patch_stateful_set n s p
answer K (stateful_set_updated n s) = K.update_stateful_set n s
answer K (stateful_sets_deleted n l) = K.delete_stateful_sets n l
answer K (cron_job_created n j) = K.create_cron_job n j
answer K (cron_job_updated n j) = K.update_cron_job n j
answer K (cron_job_deleted n j) = K.delete_cron_job n j

-- cassandra-operator/pkg/cluster/events.go: the reasons of the events that are recorded.
pub data Reason : Type 0 where
  invalid_change cluster_update waiting_for_stateful_set_change : Reason
  snapshot_creation_scheduled snapshot_creation_unscheduled snapshot_creation_modified : Reason
  snapshot_cleanup_scheduled snapshot_cleanup_unscheduled snapshot_cleanup_modified : Reason

pub record World {P : Platform} (K : Environment P) : Type 0 where
  pub kube : K.State
  pub definitions : List (Cassandra P)
  pub stored_clusters : List (Cluster P)
  -- the operator's map from qualified names to cluster pointers
  pub clusters : Assoc ℕ
  -- what has been sent to Kubernetes and to the event recorder, in order
  pub requests : List (Request P)
  pub events : List Reason
  -- the metrics: the two gauges, and the racks of the pods that were last seen in each cluster
  pub node_status : K.Gauge
  pub cluster_size : K.Gauge
  pub topology : Assoc (Assoc String)

-- How a run ends: it returns, it panics, or it waits for a stateful set that never becomes ready.
pub data Outcome {P : Platform} (K : Environment P) (A : Type 0) : Type 0 where
  done : A → World K → Outcome K A
  panicked : World K → Outcome K A
  waiting : World K → Outcome K A

abbrev pub M : {P : Platform} → Environment P → Type 0 → Type 0
M K A = World K → Outcome K A

module _ {P : Platform} {K : Environment P} where
  infixl 5 ◌>>=◌ ◌>>◌
  abbrev pub ◌>>=◌ : {A B : Type 0} → M K A → (A → M K B) → M K B
  ◌>>=◌ m f w = elim (m w) [ done a v ↦ f a v | panicked v ↦ panicked v | waiting v ↦ waiting v ]

  abbrev pub ◌>>◌ : {A B : Type 0} → M K A → M K B → M K B
  m >> n = m >>= λ _. n

  abbrev pub pure : {A : Type 0} → A → M K A
  pure a w = done a w

  abbrev pub panic : {A : Type 0} → M K A
  panic w = panicked w

  abbrev pub deref : {A : Type 0} → Option A → M K A
  deref none w = panicked w
  deref (some a) w = done a w

  -- eventRecorder.Event and Eventf
  abbrev pub record_event : Reason → M K (Unit {0})
  record_event reason w = done tt (record w { events = w.events ++ (reason ∷ []) })

  -- A call that reads, and the call that a request makes, which is logged.
  abbrev pub reads : {A : Type 0} → (K.State → A × K.State) → M K A
  reads call w = let (a, s) = call w.kube in done a (record w { kube = s })

  abbrev pub sends : (r : Request P) → M K (Result String (Answer r))
  sends request w =
      let (a, s) = answer K request w.kube in
      done a (record w { kube = s; requests = w.requests ++ (request ∷ []) })

  -- The objects behind a pointer; an address that was never handed out is a nil pointer.
  abbrev pub definition_at : ℕ → M K (Cassandra P)
  definition_at a w = deref (get_elem? w.definitions a) w

  abbrev pub cluster_at : ℕ → M K (Cluster P)
  cluster_at a w = deref (get_elem? w.stored_clusters a) w

  abbrev pub write_definition : ℕ → Cassandra P → M K (Unit {0})
  write_definition a d w = done tt (record w { definitions = set w.definitions a d })

  abbrev pub write_cluster : ℕ → Cluster P → M K (Unit {0})
  write_cluster a c w = done tt (record w { stored_clusters = set w.stored_clusters a c })

  -- &Cluster{}: the address of a new object.
  abbrev pub allocate_cluster : Cluster P → M K ℕ
  allocate_cluster c w =
      done (length w.stored_clusters) (record w { stored_clusters = w.stored_clusters ++ (c ∷ []) })

  -- What a run returns, if it returns.
  abbrev pub returned : {A : Type 0} → Outcome K A → Option A
  returned (done a v) = some a
  returned _ = none

  -- The run returns, in a world that the predicate holds of.
  abbrev pub Ends : {A : Type 0} → (World K → Type 0) → Outcome K A → Type 0
  Ends Q (done r v) = Q v
  Ends Q (panicked v) = ⊥
  Ends Q (waiting v) = ⊥
