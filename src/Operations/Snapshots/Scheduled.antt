-- ===== src/Operations/Snapshots/Scheduled.antt =====
-- What the additions of the cron jobs send to Kubernetes and record.
use cassandra_operator.Base.{
  ℕ, ◌≡◌, refl, sym, ◌∙◌, Option, none, some, List, [], ◌∷◌, ◌++◌, Result, ok, err, get_elem?, set,
  length, arith, Option-cases, inl, inr,
}
use mathlib.Core.List.{append-nil}
use mathlib.Core.Path.{subst}
use cassandra_operator.Platform.{Platform}
use cassandra_operator.Api.{Cassandra}
use cassandra_operator.Kube.{CronJob}
use cassandra_operator.Cluster.{Cluster}
use cassandra_operator.Cluster.Definition.{new}
use cassandra_operator.Cluster.Validation.{ValidationError}
use cassandra_operator.Cluster.Jobs.{create_snapshot_job, create_snapshot_cleanup_job}
use cassandra_operator.World.{
  Ends, M, ◌>>=◌, ◌>>◌, pure, write_definition, allocate_cluster, Environment, World, Request,
  cron_job_created, Reason, snapshot_creation_scheduled, snapshot_cleanup_scheduled,
}
use cassandra_operator.Accessor.{create_cron_job_for_cluster}
use cassandra_operator.Operations.Clusters.{new_cluster}
use cassandra_operator.Operations.Snapshots.{
  execute_add_snapshot, execute_add_snapshot_cleanup, add_snapshot_job, add_snapshot_cleanup_job,
}
use cassandra_operator.Operations.Snapshots.Effects.{Sent, with_definition, with_cluster}
use cassandra_operator.Operations.Snapshots.Modified.{if_ok, scheduled-Sent, with_value}

get_elem?-last {ℓ} :
    {A : Type ℓ} (xs : List A) (x : A) → get_elem? (xs ++ (x ∷ [])) (length xs) ≡ some x
get_elem?-last [] x = refl
get_elem?-last (y ∷ xs) x = get_elem?-last xs x

module _ {P : Platform} where
  -- A job is created for a definition that passes the checks.
  abbrev pub additions :
      (Cluster P → Option (CronJob P)) → Result ValidationError (Cluster P) → List (Request P)
  additions make (err e) = []
  additions make (ok c) = cron_job_created c.definition.namespace (make c) ∷ []

  abbrev pub recorded_additions :
      (K : Environment P)
      → Reason
      → (Cluster P → Option (CronJob P))
      → Result ValidationError (Cluster P)
      → K.State
      → List Reason
  recorded_additions K reason make (err e) s = []
  recorded_additions K reason make (ok c) s =
      if_ok reason (K.create_cron_job c.definition.namespace (make c) s).0

  -- The cleanup job, or the nil job of a cluster without one.
  abbrev pub cleanup_of : Cluster P → Option (CronJob P)
  cleanup_of c = elim (create_snapshot_cleanup_job c) [ none ↦ none | some job ↦ job ]

  create_snapshot_cleanup_job-returns :
      (c : Cluster P) → create_snapshot_cleanup_job c ≡ some (cleanup_of c)
  unfolding create_snapshot_cleanup_job
  create_snapshot_cleanup_job-returns c = elim (Option-cases c.definition.spec.snapshot) [
    | inl z ↦ ground (arith, z)
    | inr (s, z) ↦ elim (Option-cases s.retention_policy) [
      | inl y ↦ ground (arith, y, z)
      | inr (p, y) ↦ ground (arith, y, z)
    ]
  ]

module _ {P : Platform} {K : Environment P} where
  add_snapshot_job-Sent :
      (w : World K) (a : ℕ) (c : Cluster P)
      → get_elem? w.stored_clusters a ≡ some c
      → Ends
          (Sent w
            (additions create_snapshot_job (ok c))
            (recorded_additions K snapshot_creation_scheduled create_snapshot_job (ok c) w.kube))
          (add_snapshot_job (ok a) w)
  unfolding add_snapshot_job create_cron_job_for_cluster
  add_snapshot_job-Sent w a c at =
      let job = create_snapshot_job c in
      let sent = K.create_cron_job c.definition.namespace job w.kube in
      subst (Ends _) (sym (with_cluster w a c _ at)) (
        scheduled-Sent w
          (record w {
            kube = sent.1;
            requests = w.requests ++ (cron_job_created c.definition.namespace job ∷ []);
          })
          snapshot_creation_scheduled sent.0 (cron_job_created c.definition.namespace job ∷ [])
          (refl, sym (append-nil w.events)))

  add_snapshot_cleanup_job-Sent :
      (w : World K) (a : ℕ) (c : Cluster P)
      → get_elem? w.stored_clusters a ≡ some c
      → Ends
          (Sent w
            (additions cleanup_of (ok c))
            (recorded_additions K snapshot_cleanup_scheduled cleanup_of (ok c) w.kube))
          (add_snapshot_cleanup_job (ok a) w)
  unfolding add_snapshot_cleanup_job create_cron_job_for_cluster
  add_snapshot_cleanup_job-Sent w a c at =
      let job = cleanup_of c in
      let sent = K.create_cron_job c.definition.namespace job w.kube in
      subst (Ends _)
        (sym (
          with_cluster w a c _ at
          ∙ with_value (create_snapshot_cleanup_job c) job _ w
              (create_snapshot_cleanup_job-returns c)))
        (scheduled-Sent w
          (record w {
            kube = sent.1;
            requests = w.requests ++ (cron_job_created c.definition.namespace job ∷ []);
          })
          snapshot_cleanup_scheduled sent.0 (cron_job_created c.definition.namespace job ∷ [])
          (refl, sym (append-nil w.events)))

  -- The snapshot job is scheduled as far as the definition and Kubernetes allow, and the cleanup job.
  abbrev pub ScheduledJob : World K → Result ValidationError (Cluster P) → World K → Type 0
  ScheduledJob w r =
      Sent w (additions create_snapshot_job r)
        (recorded_additions K snapshot_creation_scheduled create_snapshot_job r w.kube)

  abbrev pub ScheduledCleanup : World K → Result ValidationError (Cluster P) → World K → Type 0
  ScheduledCleanup w r =
      Sent w (additions cleanup_of r)
        (recorded_additions K snapshot_cleanup_scheduled cleanup_of r w.kube)

  -- What cluster.New leaves, and what follows it.
  abbrev stored :
      ℕ → Cassandra P → Result ValidationError (Cluster P) → M K (Result ValidationError ℕ)
  stored d n (err e) = write_definition d n >> pure (err e)
  stored d n (ok c) = write_definition d n >> (do a ← allocate_cluster c; pure (ok a))

  new_cluster-stored :
      (w : World K) (d : ℕ) (n : Cassandra P)
      → get_elem? w.definitions d ≡ some n
      → new_cluster d w ≡ stored d (new n).1 (new n).0 w
  unfolding new_cluster
  new_cluster-stored w d n at = with_definition w d n _ at ∙ after (new n).0 (new n).1
    where
      after :
          (r : Result ValidationError (Cluster P)) (n' : Cassandra P)
          → (write_definition d n' >> (elim r [
            | err e ↦ pure (err e)
            | ok c ↦ (do a ← allocate_cluster c; pure (ok a))
          ]))
              w
            ≡ stored d n' r w
      after (err e) n' = refl
      after (ok c) n' = refl

  stored-job-Sent :
      (w : World K) (d : ℕ) (n : Cassandra P) (r : Result ValidationError (Cluster P))
      → Ends (ScheduledJob w r) ((stored d n r >>= add_snapshot_job) w)
        × Ends (ScheduledCleanup w r) ((stored d n r >>= add_snapshot_cleanup_job) w)
  unfolding add_snapshot_job add_snapshot_cleanup_job
  stored-job-Sent w d n (err e) =
      ((sym (append-nil _), sym (append-nil _)), (sym (append-nil _), sym (append-nil _)))
  stored-job-Sent w d n (ok c) =
      let v : World K = record w {
        definitions = set w.definitions d n;
        stored_clusters = w.stored_clusters ++ (c ∷ []);
      } in
      let at = get_elem?-last w.stored_clusters c in
      (
        add_snapshot_job-Sent v (length w.stored_clusters) c at,
        add_snapshot_cleanup_job-Sent v (length w.stored_clusters) c at,
      )

  -- Executing the addition of a snapshot job or of a cleanup job, for the definition at an address,
  -- returns whatever Kubernetes answers. If the definition is refused, nothing is sent or recorded.
  -- Otherwise the job that is made of the stored definition, or nil, is asked to be created, once, and the event
  -- is recorded if Kubernetes takes it; making the cleanup job never panics.
  pub execute_add_snapshot-Sent :
      (w : World K) (d : ℕ) (n : Cassandra P)
      → get_elem? w.definitions d ≡ some n
      → Ends (ScheduledJob w (new n).0) (execute_add_snapshot d w)
        × Ends (ScheduledCleanup w (new n).0) (execute_add_snapshot_cleanup d w)
  unfolding execute_add_snapshot execute_add_snapshot_cleanup
  execute_add_snapshot-Sent w d n at =
      let run = sym (new_cluster-stored w d n at) in
      let both = stored-job-Sent w d (new n).1 (new n).0 in
      (
        subst (λ o. Ends (ScheduledJob w (new n).0) (((λ _. o) >>= add_snapshot_job) w)) run both.0,
        subst (λ o. Ends (ScheduledCleanup w (new n).0) (((λ _. o) >>= add_snapshot_cleanup_job) w))
            run both.1,
      )
