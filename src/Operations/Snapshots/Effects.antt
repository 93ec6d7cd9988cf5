-- ===== src/Operations/Snapshots/Effects.antt =====
-- What the operations on snapshots send to Kubernetes and record, on every branch.
use cassandra_operator.Base.{
  ℕ, String, ◌<>◌, ◌≡◌, refl, sym, some, List, [], ◌∷◌, ◌++◌, Result, ok, err, get_elem?, arith,
}
use mathlib.Core.List.{append-nil}
use mathlib.Core.Path.{subst}
use cassandra_operator.Platform.{Platform}
use cassandra_operator.Api.{Cassandra, snapshot_job_name, snapshot_cleanup_job_name}
use cassandra_operator.Kube.{CronJob}
use cassandra_operator.Cluster.{Cluster}
use cassandra_operator.World.{
  Ends, M, ◌>>=◌, definition_at, cluster_at, Environment, World, Request, cron_job_deleted, Reason,
  snapshot_creation_unscheduled, snapshot_cleanup_unscheduled,
}
use cassandra_operator.Accessor.{single_job, find_cron_job_for_cluster, delete_cron_job}
use cassandra_operator.Operations.Snapshots.{
  execute_delete_snapshot, execute_delete_snapshot_cleanup, delete_found,
}

module _ {P : Platform} where
  -- A search that finds exactly one job leads to its deletion, and to an event whatever that answers.
  abbrev pub deletions : Result String (List (CronJob P)) → List (Request P)
  deletions (ok (job ∷ [])) = cron_job_deleted job.metadata.namespace job.metadata.name ∷ []
  deletions _ = []

  abbrev pub recorded_deletions : Reason → Result String (List (CronJob P)) → List Reason
  recorded_deletions reason (ok (job ∷ [])) = reason ∷ []
  recorded_deletions reason _ = []

  -- What Kubernetes is left in: the job is deleted in its own namespace.
  abbrev pub after_deletion :
      (K : Environment P) → Result String (List (CronJob P)) × K.State → K.State
  after_deletion K (ok (job ∷ []), s) =
      (K.delete_cron_job job.metadata.namespace job.metadata.name s).1
  after_deletion K (_, s) = s

module _ {P : Platform} {K : Environment P} where
  -- What was sent and recorded on the way from one world to another, and nothing else.
  abbrev pub Sent : World K → List (Request P) → List Reason → World K → Type 0
  Sent w requests events v = (v.requests ≡ w.requests ++ requests) × (v.events ≡ w.events ++ events)

  -- A step that reads the definition at an address, or the cluster.
  pub with_definition :
      {A : Type 0} (w : World K) (d : ℕ) (n : Cassandra P) (f : Cassandra P → M K A)
      → get_elem? w.definitions d ≡ some n
      → (definition_at d >>= f) w ≡ f n w
  with_definition w d n f at = ground (arith, at)

  pub with_cluster :
      {A : Type 0} (w : World K) (a : ℕ) (c : Cluster P) (f : Cluster P → M K A)
      → get_elem? w.stored_clusters a ≡ some c
      → (cluster_at a >>= f) w ≡ f c w
  with_cluster w a c f at = ground (arith, at)

  -- The effect of a deletion, by the answer to the search.
  abbrev pub Unscheduled :
      World K → Reason → Result String (List (CronJob P)) × K.State → World K → Type 0
  Unscheduled w reason jobs v =
      Sent w (deletions jobs.0) (recorded_deletions reason jobs.0) v
      × (v.kube ≡ after_deletion K jobs)

  delete_found-Unscheduled :
      (w : World K) (reason : Reason) (s : K.State) (found : Result String (List (CronJob P)))
      → Ends
          (Unscheduled w reason (found, s))
          (delete_found reason (single_job found) (record w { kube = s }))
  unfolding delete_found delete_cron_job
  delete_found-Unscheduled w reason s (err e) = ((sym (append-nil _), sym (append-nil _)), refl)
  delete_found-Unscheduled w reason s (ok []) = ((sym (append-nil _), sym (append-nil _)), refl)
  delete_found-Unscheduled w reason s (ok (job ∷ [])) = ((refl, refl), refl)
  delete_found-Unscheduled w reason s (ok (job ∷ other ∷ jobs)) =
      ((sym (append-nil _), sym (append-nil _)), refl)

  -- Executing the deletion of a snapshot job or of a cleanup job, for the definition at an address,
  -- returns whatever Kubernetes answers. If the search by the job's label finds exactly one job,
  -- Kubernetes is called once more, to delete the job of that name in that job's namespace, and the
  -- event is recorded even if the deletion fails; otherwise nothing is sent and nothing recorded.
  pub execute_delete_snapshot-Unscheduled :
      (w : World K) (d : ℕ) (n : Cassandra P)
      → get_elem? w.definitions d ≡ some n
      → let jobs = K.list_cron_jobs n.namespace ("app=" <> snapshot_job_name n) w.kube in
        let cleanups =
          K.list_cron_jobs n.namespace ("app=" <> snapshot_cleanup_job_name n) w.kube in
        Ends (Unscheduled w snapshot_creation_unscheduled jobs) (execute_delete_snapshot d w)
        × Ends
            (Unscheduled w snapshot_cleanup_unscheduled cleanups)
            (execute_delete_snapshot_cleanup d w)
  unfolding execute_delete_snapshot execute_delete_snapshot_cleanup find_cron_job_for_cluster
  execute_delete_snapshot-Unscheduled w d n at =
      let jobs = K.list_cron_jobs n.namespace ("app=" <> snapshot_job_name n) w.kube in
      let cleanups = K.list_cron_jobs n.namespace ("app=" <> snapshot_cleanup_job_name n) w.kube in
      (
        subst (Ends _) (sym (with_definition w d n _ at))
            (delete_found-Unscheduled w snapshot_creation_unscheduled jobs.1 jobs.0),
        subst (Ends _) (sym (with_definition w d n _ at))
            (delete_found-Unscheduled w snapshot_cleanup_unscheduled cleanups.1 cleanups.0),
      )
