-- ===== src/Examples/Schedules.antt =====
-- Concrete runs of the operations on snapshots, in a Kubernetes that finds a job.
use cassandra_operator.Base.{
  ◌<>◌, ◌==◌, refl, arith, ap, ◌∙◌, ◌≢◌, String, Result, if◌then◌else◌, some, List, [], ◌∷◌, ok,
}
use cassandra_operator.Api.{snapshot_job_name, snapshot_cleanup_job_name}
use cassandra_operator.Kube.{Container, CronJob}
use cassandra_operator.Cluster.Jobs.{create_cron_job, create_snapshot_cleanup_container}
use cassandra_operator.Cluster.Definition.{new}
use cassandra_operator.World.{
  Ends, Environment, World, snapshot_creation_unscheduled, snapshot_cleanup_unscheduled,
  snapshot_creation_modified, snapshot_cleanup_modified,
}
use cassandra_operator.Operations.Snapshots.{
  execute_add_snapshot, execute_add_snapshot_cleanup, execute_delete_snapshot,
  execute_delete_snapshot_cleanup, execute_update_snapshot, execute_update_snapshot_cleanup,
}
use cassandra_operator.Operations.Snapshots.Effects.{
  Sent, Unscheduled, execute_delete_snapshot-Unscheduled,
}
use cassandra_operator.Operations.Snapshots.Scheduled.{
  ScheduledJob, ScheduledCleanup, execute_add_snapshot-Sent,
}
use cassandra_operator.Operations.Snapshots.Modified.{
  HasContainer, updates, recorded_updates, snapshot_jobs, cleanup_jobs,
  execute_update_snapshot-Sent,
}
use cassandra_operator.Examples.{plain}
use cassandra_operator.Examples.Settings.{nightly, weekly}
use cassandra_operator.Examples.Runs.{quiet}
use cassandra_operator.Examples.Selecting.{
  saving, saving_job, saving_container, cleaning_job, cleaning_container,
}

-- The Kubernetes that finds the one job it is asked for.
abbrev scheduling : Environment plain
scheduling = record quiet {
  list_cron_jobs = λ n s k.
      if s == ("app=" <> snapshot_job_name saving.definition)
      then (ok (saving_job ∷ []), k)
      else (ok (cleaning_job ∷ []), k);
}

abbrev saved_world : World scheduling
saved_world = record {
  kube = tt;
  definitions = saving.definition ∷ [];
  stored_clusters = saving ∷ [];
  clusters = ("team.users", 0) ∷ [];
  requests = [];
  events = [];
  node_status = tt;
  cluster_size = tt;
  topology = [];
}

execute_delete_snapshot-Unscheduled_example :
    Ends
      (Unscheduled saved_world snapshot_creation_unscheduled (ok (saving_job ∷ []), tt))
      (execute_delete_snapshot 0 saved_world)
    × Ends
        (Unscheduled saved_world snapshot_cleanup_unscheduled (ok (cleaning_job ∷ []), tt))
        (execute_delete_snapshot_cleanup 0 saved_world)
unfolding snapshot_job_name snapshot_cleanup_job_name ◌==◌
execute_delete_snapshot-Unscheduled_example =
    execute_delete_snapshot-Unscheduled saved_world 0 saving.definition refl

execute_add_snapshot-Sent_example :
    Ends (ScheduledJob saved_world (new saving.definition).0) (execute_add_snapshot 0 saved_world)
    × Ends
        (ScheduledCleanup saved_world (new saving.definition).0)
        (execute_add_snapshot_cleanup 0 saved_world)
execute_add_snapshot-Sent_example = execute_add_snapshot-Sent saved_world 0 saving.definition refl

-- The containers of the one job that is found.
abbrev containers_found : Result String (List (CronJob plain)) → List (Container plain)
containers_found (ok (job ∷ [])) = job.containers
containers_found _ = []

cons_nonempty {ℓ} : {A : Type ℓ} (x : A) (xs : List A) → x ∷ xs ≢ []
cons_nonempty x xs e = ground arith

saving_job-HasContainer : HasContainer (ok (saving_job ∷ []))
unfolding create_cron_job
saving_job-HasContainer job e none_there =
    cons_nonempty saving_container [] (ap containers_found e ∙ none_there)

cleaning_job-HasContainer : HasContainer (ok (cleaning_job ∷ []))
unfolding create_cron_job
cleaning_job-HasContainer job e none_there =
    cons_nonempty cleaning_container [] (ap containers_found e ∙ none_there)

execute_update_snapshot-Sent_example :
    Ends
      (Sent saved_world
        (updates nightly.schedule saving_container (snapshot_jobs saving saved_world).0)
        (recorded_updates scheduling snapshot_creation_modified nightly.schedule saving_container
          (snapshot_jobs saving saved_world)))
      (execute_update_snapshot 0 0 saved_world)
    × Ends
        (Sent saved_world
          (updates weekly.cleanup_schedule cleaning_container (cleanup_jobs saving saved_world).0)
          (recorded_updates scheduling snapshot_cleanup_modified weekly.cleanup_schedule
            cleaning_container
            (cleanup_jobs saving saved_world)))
        (execute_update_snapshot_cleanup 0 0 saved_world)
unfolding create_snapshot_cleanup_container snapshot_job_name snapshot_cleanup_job_name ◌==◌
execute_update_snapshot-Sent_example =
    execute_update_snapshot-Sent saved_world 0 0 saving saving.definition
      (record nightly { retention_policy = some weekly }) weekly cleaning_container refl refl refl
      refl refl saving_job-HasContainer cleaning_job-HasContainer
