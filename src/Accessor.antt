-- ===== src/Accessor.antt =====
-- cassandra-operator/pkg/cluster/accessor.go. Errors carry the message of the
-- API; the text that is wrapped around it is only logged.
pub mod StatefulSets
pub mod Waiting
pub mod Accepting
pub mod InOrder
use cassandra_operator.Base.{
  ℕ, String, ◌<>◌, ◌==◌, Bool, true, false, not, ◌&&◌, Option, none, some, List, [], ◌∷◌, ◌++◌, map,
  is_empty, if◌then◌else◌, Result, ok, err, length, ltb,
}
use cassandra_operator.Base.Int.{ℤ, pos, ◌*ℤ◌, ltb_ℤ, eqb_ℤ, int32, int64}
use cassandra_operator.Base.Duration.{second}
use cassandra_operator.Platform.{Platform}
use cassandra_operator.Api.{Rack, Cassandra, rack_name}
use cassandra_operator.Kube.{StatefulSet, ConfigMap, CronJob}
use cassandra_operator.Cluster.{Cluster, operator_label}
use cassandra_operator.Cluster.Resources
use cassandra_operator.World.{
  Environment, SetStatus, AppliedSet, Request, service_created, service_deleted,
  stateful_set_created, stateful_set_patched, stateful_set_updated, stateful_sets_deleted,
  cron_job_created, cron_job_updated, cron_job_deleted, waiting_for_stateful_set_change, World,
  Outcome, waiting, M, ◌>>=◌, ◌>>◌, pure, deref, record_event, reads, sends,
}

-- max of two int32.
abbrev max_int : ℤ → ℤ → ℤ
max_int x y = if ltb_ℤ y x then x else y

-- time.Duration(replicas * delay) * time.Second: a product of int32 and one of int64, which wrap.
unfoldable pub time_before_first_check : ℤ → ℤ → ℤ
unfolding int32 int64 ◌*ℤ◌
time_before_first_check replicas initial_delay_seconds =
    int64 (int32 (replicas *ℤ initial_delay_seconds) *ℤ second)

unfoldable pub time_between_checks : ℤ → ℤ
unfolding int64 ◌*ℤ◌
time_between_checks period_seconds = int64 (max_int period_seconds (pos 5) *ℤ second)

observed : Option ℤ → ℤ → Bool
observed none generation = false
observed (some g) generation = not (ltb_ℤ g generation)

-- statefulSetChangeApplied, at the status that was read and the generation that was applied.
unfoldable pub change_applied : SetStatus → ℤ → Bool
unfolding observed
change_applied s generation =
    observed s.observed_generation generation
    && s.update_revision == s.current_revision
    && eqb_ℤ s.ready_replicas s.replicas

abbrev pub to_option : {A : Type 0} → Result String A → Option A
to_option (ok a) = some a
to_option (err e) = none

-- A list call that fails counts as no resource.
abbrev pub listed : String → Result String (List String) → List String
listed kind (ok names) = map (λ n. kind <> n) names
listed kind (err e) = []

module _ {P : Platform} where
  abbrev pub cluster_selector : Cluster P → String
  cluster_selector c = operator_label <> ("=" <> c.definition.name)

  -- The job if there is exactly one, and an error if there are several.
  abbrev pub single_job : Result String (List (CronJob P)) → Result String (Option (CronJob P))
  single_job (err e) = err e
  single_job (ok []) = ok none
  single_job (ok (job ∷ [])) = ok (some job)
  single_job (ok (job ∷ other ∷ jobs)) = err "found several cronjobs when expecting just one"

module _ {P : Platform} {K : Environment P} where
  -- wait.PollImmediateInfinite: check until the change is applied or a read fails.
  unfoldable pub poll : List (Result String SetStatus) → ℤ → M K (Result String (Unit {0}))
  unfolding change_applied
  poll [] generation w = waiting w
  poll (err e ∷ answers) generation w = pure (err e) w
  poll (ok s ∷ answers) generation w =
      (if change_applied s generation
          then pure (ok tt)
          else (record_event waiting_for_stateful_set_change >> poll answers generation))
        w

  unfoldable pub wait_until_rack_change_applied :
      Cluster P → AppliedSet P → M K (Result String (Unit {0}))
  unfolding poll
  wait_until_rack_change_applied c sts = do
    record_event waiting_for_stateful_set_change
    probe ← deref c.definition.spec.pod.readiness_probe
    answers ← reads (K.observe sts.object.metadata.namespace sts.object.metadata.name)
    poll answers sts.generation

  unfoldable pub create_service_for_cluster : Cluster P → M K (Result String (Unit {0}))
  unfolding Resources.create_service
  create_service_for_cluster c =
      sends (service_created c.definition.namespace (Resources.create_service c))

  unfoldable pub delete_service_for_cluster : Cluster P → M K (Result String (Unit {0}))
  delete_service_for_cluster c = sends (service_deleted c.definition.namespace c.definition.name)

  unfoldable pub delete_stateful_sets_for_cluster : Cluster P → M K (Result String (Unit {0}))
  delete_stateful_sets_for_cluster c =
      sends (stateful_sets_deleted c.definition.namespace (cluster_selector c))

  unfoldable pub find_custom_config_map : String → String → M K (Option ConfigMap)
  find_custom_config_map namespace cluster_name = do
    r ← reads (K.get_config_map namespace (cluster_name <> "-config"))
    pure (to_option r)

  unfoldable pub create_stateful_set_for_rack :
      Cluster P → Rack → Option ConfigMap → M K (Result String (AppliedSet P))
  unfolding Resources.create_stateful_set_for_rack
  create_stateful_set_for_rack c rack cm =
      let sts = Resources.create_stateful_set_for_rack c rack cm in
      sends (stateful_set_created c.definition.namespace sts)

  unfoldable pub patch_rack : Cluster P → Rack → String → M K (Result String (AppliedSet P))
  unfolding rack_name
  patch_rack c rack patch =
      let name = rack_name c.definition rack in
      sends (stateful_set_patched c.definition.namespace name patch)

  unfoldable pub get_stateful_set_for_rack : Cluster P → Rack → M K (Result String (AppliedSet P))
  unfolding rack_name
  get_stateful_set_for_rack c rack =
      reads (K.get_stateful_set c.definition.namespace (rack_name c.definition rack))

  unfoldable pub update_set : Cluster P → AppliedSet P → M K (Result String (AppliedSet P))
  update_set c sts = sends (stateful_set_updated c.definition.namespace sts)

  unfoldable pub find_existing_resources_for : Cluster P → M K (List String)
  find_existing_resources_for c = do
    services ← reads (K.list_services c.definition.namespace (cluster_selector c))
    sets ← reads (K.list_stateful_sets c.definition.namespace (cluster_selector c))
    pods ← reads (K.list_pods c.definition.namespace (cluster_selector c))
    pure (listed "service:" services ++ (listed "statefulset:" sets ++ listed "pod:" pods))

  unfoldable pub create_cron_job_for_cluster :
      Cluster P → Option (CronJob P) → M K (Result String (Unit {0}))
  create_cron_job_for_cluster c job = sends (cron_job_created c.definition.namespace job)

  unfoldable pub find_cron_job_for_cluster :
      Cassandra P → String → M K (Result String (Option (CronJob P)))
  find_cron_job_for_cluster d label = do
    r ← reads (K.list_cron_jobs d.namespace label)
    pure (single_job r)

  unfoldable pub delete_cron_job : CronJob P → M K (Result String (Unit {0}))
  delete_cron_job job = sends (cron_job_deleted job.metadata.namespace job.metadata.name)

  unfoldable pub update_cron_job : CronJob P → M K (Result String (Unit {0}))
  update_cron_job job = sends (cron_job_updated job.metadata.namespace job)
