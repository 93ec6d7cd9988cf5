-- ===== src/Operations/Snapshots.antt =====
-- add_snapshot.go, add_cleanup_snapshot.go, delete_snapshot.go, delete_snapshot_cleanup.go,
-- update_snapshot.go and update_snapshot_cleanup.go.
pub mod Effects
pub mod Scheduled
pub mod Modified
use cassandra_operator.Base.{ℕ, String, ◌<>◌, Option, none, some, List, [], ◌∷◌, Result, ok, err}
use cassandra_operator.Platform.{Platform}
use cassandra_operator.Api.{snapshot_job_name, snapshot_cleanup_job_name}
use cassandra_operator.Kube.{CronJob, Container}
use cassandra_operator.Cluster.{Cluster}
use cassandra_operator.Cluster.Validation.{ValidationError}
use cassandra_operator.Cluster.Jobs.{
  create_snapshot_job, create_snapshot_cleanup_job, create_snapshot_container,
  create_snapshot_cleanup_container,
}
use cassandra_operator.World.{
  Environment, Reason, snapshot_creation_scheduled, snapshot_creation_unscheduled,
  snapshot_creation_modified, snapshot_cleanup_scheduled, snapshot_cleanup_unscheduled,
  snapshot_cleanup_modified, M, ◌>>=◌, ◌>>◌, pure, panic, deref, record_event, definition_at,
  cluster_at,
}
use cassandra_operator.Accessor.{
  create_cron_job_for_cluster, find_cron_job_for_cluster, delete_cron_job, update_cron_job,
}
use cassandra_operator.Operations.Clusters.{new_cluster}

module _ {P : Platform} {K : Environment P} where
  -- An event is recorded only if the call succeeded.
  unfoldable pub scheduled : Reason → Result String (Unit {0}) → M K (Unit {0})
  scheduled reason (err e) = pure tt
  scheduled reason (ok _) = record_event reason

  unfoldable pub add_snapshot_job : Result ValidationError ℕ → M K (Unit {0})
  unfolding create_cron_job_for_cluster create_snapshot_job scheduled
  add_snapshot_job (err e) = pure tt
  add_snapshot_job (ok a) = do
    c ← cluster_at a
    r ← create_cron_job_for_cluster c (create_snapshot_job c)
    scheduled snapshot_creation_scheduled r

  unfoldable pub execute_add_snapshot : ℕ → M K (Unit {0})
  unfolding new_cluster add_snapshot_job
  execute_add_snapshot d = do r ← new_cluster d; add_snapshot_job r

  unfoldable pub add_snapshot_cleanup_job : Result ValidationError ℕ → M K (Unit {0})
  unfolding create_cron_job_for_cluster create_snapshot_cleanup_job scheduled
  add_snapshot_cleanup_job (err e) = pure tt
  add_snapshot_cleanup_job (ok a) = do
    c ← cluster_at a
    job ← deref (create_snapshot_cleanup_job c)
    r ← create_cron_job_for_cluster c job
    scheduled snapshot_cleanup_scheduled r

  unfoldable pub execute_add_snapshot_cleanup : ℕ → M K (Unit {0})
  unfolding new_cluster add_snapshot_cleanup_job
  execute_add_snapshot_cleanup d = do r ← new_cluster d; add_snapshot_cleanup_job r

  -- The event is recorded even if the deletion failed; a failed or empty search does nothing.
  unfoldable pub delete_found : Reason → Result String (Option (CronJob P)) → M K (Unit {0})
  unfolding delete_cron_job
  delete_found reason (err e) = pure tt
  delete_found reason (ok none) = pure tt
  delete_found reason (ok (some job)) = do delete_cron_job job; record_event reason

  unfoldable pub execute_delete_snapshot : ℕ → M K (Unit {0})
  unfolding find_cron_job_for_cluster delete_found snapshot_job_name
  execute_delete_snapshot d = do
    definition ← definition_at d
    r ← find_cron_job_for_cluster definition ("app=" <> snapshot_job_name definition)
    delete_found snapshot_creation_unscheduled r

  unfoldable pub execute_delete_snapshot_cleanup : ℕ → M K (Unit {0})
  unfolding find_cron_job_for_cluster delete_found snapshot_cleanup_job_name
  execute_delete_snapshot_cleanup d = do
    definition ← definition_at d
    r ← find_cron_job_for_cluster definition ("app=" <> snapshot_cleanup_job_name definition)
    delete_found snapshot_cleanup_unscheduled r

  -- Containers[0] = container, which panics if there is none.
  abbrev first_container : List (Container P) → Container P → M K (List (Container P))
  first_container [] container = panic
  first_container (old ∷ containers) container = pure (container ∷ containers)

  unfoldable pub modify_job : Reason → CronJob P → String → Container P → M K (Unit {0})
  unfolding update_cron_job scheduled
  modify_job reason job schedule container = do
    containers ← first_container job.containers container
    r ← update_cron_job (record job { schedule = schedule; containers = containers })
    scheduled reason r

  unfoldable pub update_found_job :
      Cluster P → ℕ → Result String (Option (CronJob P)) → M K (Unit {0})
  unfolding modify_job create_snapshot_container
  update_found_job c d (err e) = pure tt
  update_found_job c d (ok none) = pure tt
  update_found_job c d (ok (some job)) = do
    definition ← definition_at d
    snapshot ← deref definition.spec.snapshot
    modify_job snapshot_creation_modified job snapshot.schedule
        (create_snapshot_container c snapshot)

  unfoldable pub execute_update_snapshot : ℕ → ℕ → M K (Unit {0})
  unfolding find_cron_job_for_cluster update_found_job snapshot_job_name
  execute_update_snapshot a d = do
    c ← cluster_at a
    r ← find_cron_job_for_cluster c.definition ("app=" <> snapshot_job_name c.definition)
    update_found_job c d r

  unfoldable pub update_found_cleanup_job :
      Cluster P → ℕ → Result String (Option (CronJob P)) → M K (Unit {0})
  unfolding modify_job create_snapshot_cleanup_container
  update_found_cleanup_job c d (err e) = pure tt
  update_found_cleanup_job c d (ok none) = pure tt
  update_found_cleanup_job c d (ok (some job)) = do
    definition ← definition_at d
    snapshot ← deref definition.spec.snapshot
    policy ← deref snapshot.retention_policy
    container ← deref (create_snapshot_cleanup_container c snapshot)
    modify_job snapshot_cleanup_modified job policy.cleanup_schedule container

  unfoldable pub execute_update_snapshot_cleanup : ℕ → ℕ → M K (Unit {0})
  unfolding find_cron_job_for_cluster update_found_cleanup_job snapshot_cleanup_job_name
  execute_update_snapshot_cleanup a d = do
    c ← cluster_at a
    r ← find_cron_job_for_cluster c.definition ("app=" <> snapshot_cleanup_job_name c.definition)
    update_found_cleanup_job c d r
