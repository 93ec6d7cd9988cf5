-- ===== src/Cluster/Jobs.antt =====
-- The cron jobs that create and clean up snapshots, in cluster.go.
pub mod Bounds
use cassandra_operator.Base.{
  String, ◌<>◌, Option, none, some, List, [], ◌∷◌, ◌++◌, is_empty, if◌then◌else◌, Run, ◌>>=◌,
}
use cassandra_operator.Base.Int.{ℤ, pos, ◌*ℤ◌, int64}
use cassandra_operator.Base.Text.{join}
use cassandra_operator.Base.Duration.{second, hour, duration_string}
use cassandra_operator.Platform.{Platform}
use cassandra_operator.Api.{
  Snapshot, RetentionPolicy, snapshot_service_account_name, snapshot_job_name,
  snapshot_cleanup_job_name, has_retention_policy_enabled, deref,
}
use cassandra_operator.Kube.{Container, CronJob}
use cassandra_operator.Cluster.{Cluster, operator_label}
use cassandra_operator.Cluster.Pods.{object_metadata}

-- time.Duration(*days) * time.Hour * 24, two products of int64, which wrap.
unfoldable pub duration_days : ℤ → ℤ
unfolding int64 ◌*ℤ◌
duration_days days = int64 (int64 (days *ℤ hour) *ℤ pos 24)

unfoldable pub duration_seconds : ℤ → ℤ
unfolding int64 ◌*ℤ◌
duration_seconds seconds = int64 (seconds *ℤ second)

-- The container of a job: a name, an image and a command.
abbrev pub job_container : {P : Platform} → String → String → List String → Container P
job_container name image command = record {
  name = name;
  image = image;
  command = command;
  ports = [];
  resources = none;
  liveness_probe = none;
  readiness_probe = none;
  pre_stop = none;
  env = [];
  volume_mounts = [];
}

timeout_flag : Option ℤ → List String
unfolding duration_seconds duration_string
timeout_flag none = []
timeout_flag (some seconds) = "-t" ∷ duration_string (duration_seconds seconds) ∷ []

retention_flag : Option ℤ → List String
unfolding duration_days duration_string
retention_flag none = []
retention_flag (some days) = "-r" ∷ duration_string (duration_days days) ∷ []

keyspaces_flag : Option (List String) → List String
unfolding join
keyspaces_flag none = []
keyspaces_flag (some keyspaces) = if is_empty keyspaces then [] else "-k" ∷ join keyspaces "," ∷ []

module _ {P : Platform} where
  unfoldable pub pod_labels : Cluster P → String
  pod_labels c = operator_label <> ("=" <> (c.definition.name <> (",app=" <> c.definition.name)))

  unfoldable pub create_snapshot_container : Cluster P → Snapshot → Container P
  unfolding pod_labels timeout_flag keyspaces_flag snapshot_job_name
  create_snapshot_container c snapshot =
      job_container (snapshot_job_name c.definition) snapshot.image (
        ("/cassandra-snapshot"
          ∷ "create"
          ∷ "-n"
          ∷ c.definition.namespace
          ∷ "-l"
          ∷ pod_labels c
          ∷ [])
        ++ (timeout_flag snapshot.timeout_seconds ++ keyspaces_flag snapshot.keyspaces))

  -- Reading a field of a nil retention policy panics.
  unfoldable pub create_snapshot_cleanup_container : Cluster P → Snapshot → Run (Container P)
  unfolding pod_labels timeout_flag retention_flag snapshot_cleanup_job_name
  create_snapshot_cleanup_container c snapshot = do
    policy ← deref snapshot.retention_policy
    some (
        job_container (snapshot_cleanup_job_name c.definition) snapshot.image (
          ("/cassandra-snapshot"
            ∷ "cleanup"
            ∷ "-n"
            ∷ c.definition.namespace
            ∷ "-l"
            ∷ pod_labels c
            ∷ [])
          ++ (retention_flag policy.retention_period_days
              ++ timeout_flag policy.cleanup_timeout_seconds)))

  unfoldable pub create_cron_job : Cluster P → String → String → String → Container P → CronJob P
  unfolding object_metadata
  create_cron_job c object_name service_account_name schedule container = record {
    metadata = object_metadata c object_name ("app" ∷ object_name ∷ []);
    schedule = schedule;
    concurrency_policy = "Forbid";
    job_metadata = object_metadata c object_name ("app" ∷ object_name ∷ []);
    pod_metadata = object_metadata c object_name ("app" ∷ object_name ∷ []);
    restart_policy = "OnFailure";
    service_account_name = service_account_name;
    containers = container ∷ [];
  }

  -- `none` is the nil job of a cluster without snapshots.
  unfoldable pub create_snapshot_job : Cluster P → Option (CronJob P)
  unfolding create_cron_job create_snapshot_container snapshot_job_name
  create_snapshot_job c = elim c.definition.spec.snapshot [
    | none ↦ none
    | some snapshot ↦ some (
        create_cron_job c (snapshot_job_name c.definition) snapshot_service_account_name
          snapshot.schedule (create_snapshot_container c snapshot))
  ]

  cleanup_job : Cluster P → Snapshot → RetentionPolicy → Run (Option (CronJob P))
  unfolding create_cron_job create_snapshot_cleanup_container snapshot_cleanup_job_name
  cleanup_job c snapshot policy = do
    container ← create_snapshot_cleanup_container c snapshot
    some (
        some (
          create_cron_job c (snapshot_cleanup_job_name c.definition) snapshot_service_account_name
            policy.cleanup_schedule container))

  unfoldable pub enabled_cleanup_job : Cluster P → Snapshot → Run (Option (CronJob P))
  unfolding cleanup_job
  enabled_cleanup_job c snapshot = do
    policy ← deref snapshot.retention_policy
    cleanup_job c snapshot policy

  unfoldable pub create_snapshot_cleanup_job : Cluster P → Run (Option (CronJob P))
  unfolding enabled_cleanup_job has_retention_policy_enabled
  create_snapshot_cleanup_job c = elim c.definition.spec.snapshot [
    | none ↦ some none
    | some snapshot ↦
        if has_retention_policy_enabled snapshot then enabled_cleanup_job c snapshot else some none
  ]
