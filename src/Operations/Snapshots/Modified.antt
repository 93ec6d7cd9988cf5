-- ===== src/Operations/Snapshots/Modified.antt =====
-- What the updates of the cron jobs send to Kubernetes and record.
use cassandra_operator.Base.{
  ℕ, String, ◌<>◌, ◌≡◌, ◌≢◌, refl, sym, ◌∙◌, ap, Option, some, List, [], ◌∷◌, ◌++◌, Result, ok, err,
  get_elem?, arith,
}
use mathlib.Core.List.{append-nil}
use mathlib.Core.Path.{subst}
use cassandra_operator.Platform.{Platform}
use cassandra_operator.Api.{
  Cassandra, Snapshot, RetentionPolicy, snapshot_job_name, snapshot_cleanup_job_name,
}
use cassandra_operator.Kube.{CronJob, Container}
use cassandra_operator.Cluster.{Cluster}
use cassandra_operator.Cluster.Jobs.{create_snapshot_container, create_snapshot_cleanup_container}
use cassandra_operator.World.{
  Ends, M, ◌>>=◌, deref, Environment, World, Request, cron_job_updated, Reason,
  snapshot_creation_modified, snapshot_cleanup_modified,
}
use cassandra_operator.Accessor.{single_job, find_cron_job_for_cluster, update_cron_job}
use cassandra_operator.Operations.Snapshots.{
  execute_update_snapshot, execute_update_snapshot_cleanup, update_found_job,
  update_found_cleanup_job, modify_job, scheduled, first_container,
}
use cassandra_operator.Operations.Snapshots.Effects.{Sent, with_definition, with_cluster}

abbrev pub if_ok : Reason → Result String (Unit {0}) → List Reason
if_ok reason (ok _) = reason ∷ []
if_ok reason (err e) = []

module _ {P : Platform} where
  abbrev replace_first : Container P → List (Container P) → List (Container P)
  replace_first container [] = container ∷ []
  replace_first container (old ∷ rest) = container ∷ rest

  -- The job with another schedule and another first container.
  abbrev modified : String → Container P → CronJob P → CronJob P
  modified schedule container job = record job {
    schedule = schedule;
    containers = replace_first container job.containers;
  }

  -- A search that finds exactly one job leads to its update.
  abbrev pub updates : String → Container P → Result String (List (CronJob P)) → List (Request P)
  updates schedule container (ok (job ∷ [])) =
      cron_job_updated job.metadata.namespace (modified schedule container job) ∷ []
  updates schedule container _ = []

  -- A job that is found has a container, as Kubernetes asks of a pod.
  abbrev pub HasContainer : Result String (List (CronJob P)) → Type 0
  HasContainer found = (job : CronJob P) → found ≡ ok (job ∷ []) → job.containers ≢ []

  -- The event is recorded if Kubernetes takes the update.
  abbrev pub recorded_updates :
      (K : Environment P)
      → Reason
      → String
      → Container P
      → Result String (List (CronJob P)) × K.State
      → List Reason
  recorded_updates K reason schedule container (ok (job ∷ []), s) =
      if_ok reason (K.update_cron_job job.metadata.namespace (modified schedule container job) s).0
  recorded_updates K reason schedule container _ = []

module _ {P : Platform} {K : Environment P} where
  pub scheduled-Sent :
      (w v : World K) (reason : Reason) (r : Result String (Unit {0})) (requests : List (Request P))
      → Sent w requests [] v
      → Ends (Sent w requests (if_ok reason r)) (scheduled reason r v)
  unfolding scheduled
  scheduled-Sent w v reason (err e) requests h = h
  scheduled-Sent w v reason (ok _) requests h =
      (h.0, ap (λ l. l ++ (reason ∷ [])) (h.1 ∙ append-nil w.events))

  with_first :
      (l : List (Container P)) (container : Container P) (f : List (Container P) → M K (Unit {0}))
      (v : World K)
      → l ≢ []
      → (first_container l container >>= f) v ≡ f (replace_first container l) v
  with_first [] container f v h = absurd (h refl)
  with_first (old ∷ rest) container f v h = refl

  pub with_value :
      {A B : Type 0} (o : Option A) (x : A) (f : A → M K B) (v : World K)
      → o ≡ some x
      → (deref o >>= f) v ≡ f x v
  with_value o x f v e = ground (arith, e)

  modify_job-Sent :
      (w : World K) (reason : Reason) (job : CronJob P) (schedule : String)
      (container : Container P) (s : K.State)
      → job.containers ≢ []
      → Ends
          (Sent w (cron_job_updated job.metadata.namespace (modified schedule container job) ∷ []) (
            if_ok reason
              (K.update_cron_job job.metadata.namespace (modified schedule container job) s).0))
          (modify_job reason job schedule container (record w { kube = s }))
  unfolding modify_job update_cron_job
  modify_job-Sent w reason job schedule container s some_there =
      let job' = modified schedule container job in
      let sent = K.update_cron_job job.metadata.namespace job' s in
      subst (Ends _)
        (sym (with_first job.containers container _ (record w { kube = s }) some_there))
        (scheduled-Sent w
          (record w {
            kube = sent.1;
            requests = w.requests ++ (cron_job_updated job.metadata.namespace job' ∷ []);
          })
          reason sent.0 (cron_job_updated job.metadata.namespace job' ∷ [])
          (refl, sym (append-nil w.events)))

  -- The answers to the two searches.
  abbrev pub snapshot_jobs : Cluster P → World K → Result String (List (CronJob P)) × K.State
  snapshot_jobs c w =
      K.list_cron_jobs c.definition.namespace ("app=" <> snapshot_job_name c.definition) w.kube

  abbrev pub cleanup_jobs : Cluster P → World K → Result String (List (CronJob P)) × K.State
  cleanup_jobs c w =
      K.list_cron_jobs c.definition.namespace ("app=" <> snapshot_cleanup_job_name c.definition)
        w.kube

  update_found_job-Sent :
      (w : World K) (c : Cluster P) (d : ℕ) (n : Cassandra P) (s : Snapshot) (k : K.State)
      (found : Result String (List (CronJob P)))
      → get_elem? w.definitions d ≡ some n
      → n.spec.snapshot ≡ some s
      → HasContainer found
      → let container = create_snapshot_container c s in
        Ends
          (Sent w
            (updates s.schedule container found)
            (recorded_updates K snapshot_creation_modified s.schedule container (found, k)))
          (update_found_job c d (single_job found) (record w { kube = k }))
  unfolding update_found_job
  update_found_job-Sent w c d n s k (err e) at has h = (sym (append-nil _), sym (append-nil _))
  update_found_job-Sent w c d n s k (ok []) at has h = (sym (append-nil _), sym (append-nil _))
  update_found_job-Sent w c d n s k (ok (job ∷ [])) at has h =
      let v : World K = record w { kube = k } in
      subst (Ends _) (sym (with_definition v d n _ at ∙ with_value n.spec.snapshot s _ v has)) (
        modify_job-Sent w snapshot_creation_modified job s.schedule (create_snapshot_container c s)
          k (h job refl))
  update_found_job-Sent w c d n s k (ok (job ∷ other ∷ jobs)) at has h =
      (sym (append-nil _), sym (append-nil _))

  update_found_cleanup_job-Sent :
      (w : World K) (c : Cluster P) (d : ℕ) (n : Cassandra P) (s : Snapshot) (p : RetentionPolicy)
      (container : Container P) (k : K.State) (found : Result String (List (CronJob P)))
      → get_elem? w.definitions d ≡ some n
      → n.spec.snapshot ≡ some s
      → s.retention_policy ≡ some p
      → create_snapshot_cleanup_container c s ≡ some container
      → HasContainer found
      → Ends
          (Sent w
            (updates p.cleanup_schedule container found)
            (recorded_updates K snapshot_cleanup_modified p.cleanup_schedule container (found, k)))
          (update_found_cleanup_job c d (single_job found) (record w { kube = k }))
  unfolding update_found_cleanup_job
  update_found_cleanup_job-Sent w c d n s p container k (err e) at has kept made h =
      (sym (append-nil _), sym (append-nil _))
  update_found_cleanup_job-Sent w c d n s p container k (ok []) at has kept made h =
      (sym (append-nil _), sym (append-nil _))
  update_found_cleanup_job-Sent w c d n s p container k (ok (job ∷ [])) at has kept made h =
      let v : World K = record w { kube = k } in
      subst (Ends _)
        (sym (
          with_definition v d n _ at
          ∙ with_value n.spec.snapshot s _ v has
          ∙ with_value s.retention_policy p _ v kept
          ∙ with_value (create_snapshot_cleanup_container c s) container _ v made))
        (modify_job-Sent w snapshot_cleanup_modified job p.cleanup_schedule container k
          (h job refl))
  update_found_cleanup_job-Sent w c d n s p container k (ok (job ∷ other ∷ jobs)) at has kept made
        h =
      (sym (append-nil _), sym (append-nil _))

  -- Executing the update of a snapshot job or of a cleanup job, for a known cluster and a new definition
  -- that has a snapshot with a retention policy, returns, if a job that is found has a container. If
  -- the search by the job's label finds exactly one job, its update is sent, with the new schedule, the
  -- container made of the stored cluster and the new snapshot in the place of its first and all else as
  -- found, and the event is recorded if Kubernetes takes it. Otherwise nothing is sent or recorded.
  pub execute_update_snapshot-Sent :
      (w : World K) (a d : ℕ) (c : Cluster P) (n : Cassandra P) (s : Snapshot) (p : RetentionPolicy)
      (container : Container P)
      → get_elem? w.stored_clusters a ≡ some c
      → get_elem? w.definitions d ≡ some n
      → n.spec.snapshot ≡ some s
      → s.retention_policy ≡ some p
      → create_snapshot_cleanup_container c s ≡ some container
      → HasContainer (snapshot_jobs c w).0
      → HasContainer (cleanup_jobs c w).0
      → Ends
          (Sent w (updates s.schedule (create_snapshot_container c s) (snapshot_jobs c w).0) (
            recorded_updates K snapshot_creation_modified s.schedule
              (create_snapshot_container c s)
              (snapshot_jobs c w)))
          (execute_update_snapshot a d w)
        × Ends
            (Sent w (updates p.cleanup_schedule container (cleanup_jobs c w).0) (
              recorded_updates K snapshot_cleanup_modified p.cleanup_schedule container
                (cleanup_jobs c w)))
            (execute_update_snapshot_cleanup a d w)
  unfolding execute_update_snapshot execute_update_snapshot_cleanup find_cron_job_for_cluster
  execute_update_snapshot-Sent w a d c n s p container stored at has kept made there there' =
      let jobs = snapshot_jobs c w in
      let cleanups = cleanup_jobs c w in
      (
        subst (Ends _) (sym (with_cluster w a c _ stored))
            (update_found_job-Sent w c d n s jobs.1 jobs.0 at has there),
        subst (Ends _) (sym (with_cluster w a c _ stored)) (
            update_found_cleanup_job-Sent w c d n s p container cleanups.1 cleanups.0 at has kept
              made there'),
      )
