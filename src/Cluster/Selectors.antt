-- ===== src/Cluster/Selectors.antt =====
-- The label selectors of cluster.go and accessor.go, and the labels of what is created: a selector of
-- a cluster finds the cluster's own objects and those of no cluster with another name.
use text.Mathlib.TextLemmas.{append_assoc, append_cancel_right}
use cassandra_operator.Base.{
  String, ◌<>◌, Option-cases, inl, inr, ◌≡◌, ◌≢◌, ◌↔◌, refl, ap, ◌==◌, ◌∙◌, sym, Option, some, [],
  ◌∷◌, map, All, arith,
}
use cassandra_operator.Base.Text.{join, chars, code_at, differ_at_end}
use cassandra_operator.Base.Assoc.{Assoc, lookup, insert}
use cassandra_operator.Platform.{Platform}
use cassandra_operator.Api.{Rack, snapshot_job_name, snapshot_cleanup_job_name}
use cassandra_operator.Kube.{ConfigMap, Container, CronJob}
use cassandra_operator.Cluster.{Cluster, operator_label}
use cassandra_operator.Cluster.Resources.{create_stateful_set_for_rack, create_service}
use cassandra_operator.Cluster.Jobs.{
  pod_labels, create_cron_job, create_snapshot_job, create_snapshot_cleanup_job,
}
use cassandra_operator.Accessor.{cluster_selector}

-- A selector asks for some labels, and its text is k=v,k=v.
abbrev pub Selects : Assoc String → Assoc String → Type 0
Selects selector labels = All (λ (r : String × String). lookup r.0 labels ≡ some r.1) selector

abbrev pub text_of : Assoc String → String
text_of selector = join (map (λ (r : String × String). r.0 <> ("=" <> r.1)) selector) ","

-- One label, and two.
text_of-one : (k v : String) → text_of ((k, v) ∷ []) ≡ k <> ("=" <> v)
unfolding join
text_of-one k v = refl

text_of-two :
    (k v j w : String)
    → text_of ((k, v) ∷ (j, w) ∷ []) ≡ k <> ("=" <> (v <> ("," <> (j <> ("=" <> w)))))
unfolding join
text_of-two k v j w =
    append_assoc k ("=" <> v) ("," <> (j <> ("=" <> w)))
    ∙ ap (λ t. k <> t) (append_assoc "=" v ("," <> (j <> ("=" <> w))))

app_text : (name : String) → "app=" <> name ≡ text_of (("app", name) ∷ [])
app_text name = append_assoc "app" "=" name ∙ sym (text_of-one "app" name)

module _ {P : Platform} where
  abbrev named : Cluster P → String
  named c = c.definition.name

  -- The pods of a rack's stateful set.
  abbrev pub labels_of_pods : Cluster P → Rack → Option ConfigMap → Assoc String
  labels_of_pods d q cm = (create_stateful_set_for_rack d q cm).template.labels

  pod_labels_text :
      (c : Cluster P) → pod_labels c ≡ text_of ((operator_label, named c) ∷ ("app", named c) ∷ [])
  unfolding pod_labels
  pod_labels_text c =
      let tail : ",app=" <> named c ≡ "," <> ("app" <> ("=" <> named c)) =
        append_assoc ",app" "=" (named c) ∙ append_assoc "," "app" ("=" <> named c) in
      ap (λ t. operator_label <> ("=" <> (named c <> t))) tail
      ∙ sym (text_of-two operator_label (named c) "app" (named c))

  -- The stateful set of a rack selects the pods of another exactly if the clusters and the racks have
  -- the same names. The service, the anti-affinity of a stateful set and the label selector that the
  -- snapshot jobs pass to the snapshot tool select them exactly if the clusters have the same name.
  pub pods_selected_iff :
      (c d : Cluster P) (r q : Rack) (cm cm' : Option ConfigMap)
      → (Selects (create_stateful_set_for_rack c r cm).match_labels (labels_of_pods d q cm')
          ↔ ((named c ≡ named d) × (r.name ≡ q.name)))
        × (Selects (create_service c).selector (labels_of_pods d q cm') ↔ (named c ≡ named d))
        × (Selects
              (create_stateful_set_for_rack c r cm).template.affinity.anti_affinity_labels
              (labels_of_pods d q cm')
            ↔ (named c ≡ named d))
        × (pod_labels c ≡ text_of ((operator_label, named c) ∷ ("app", named c) ∷ []))
        × (Selects ((operator_label, named c) ∷ ("app", named c) ∷ []) (labels_of_pods d q cm')
            ↔ (named c ≡ named d))
  unfolding create_stateful_set_for_rack create_service lookup ◌==◌
  pods_selected_iff c d r q cm cm' =
      (ground arith, ground arith, ground arith, pod_labels_text c, ground arith)

  -- The selector by which a cluster's resources are searched for and its stateful sets are deleted
  -- asks for the operator's label with the cluster's name. It selects the service, the stateful sets and
  -- the cron jobs that are made for a cluster exactly if the clusters have the same name.
  pub objects_selected_iff :
      (c d : Cluster P) (q : Rack) (cm : Option ConfigMap) (name account schedule : String)
      (container : Container P)
      → let selector : Assoc String = (operator_label, named c) ∷ [] in
        (cluster_selector c ≡ text_of selector)
        × (Selects selector (create_service d).metadata.labels ↔ (named c ≡ named d))
        × (Selects selector (create_stateful_set_for_rack d q cm).metadata.labels
            ↔ (named c ≡ named d))
        × (Selects selector (create_cron_job d name account schedule container).metadata.labels
            ↔ (named c ≡ named d))
  unfolding create_stateful_set_for_rack create_service create_cron_job lookup ◌==◌ insert join
  objects_selected_iff c d q cm name account schedule container =
      (refl, ground arith, ground arith, ground arith)

  job_names_iff :
      (c d : Cluster P)
      → ((snapshot_job_name c.definition ≡ snapshot_job_name d.definition) ↔ (named c ≡ named d))
        × ((snapshot_cleanup_job_name c.definition ≡ snapshot_cleanup_job_name d.definition)
            ↔ (named c ≡ named d))
  unfolding snapshot_job_name snapshot_cleanup_job_name
  job_names_iff c d = (
    (append_cancel_right (named c) (named d) "-snapshot", ap (λ n. n <> "-snapshot")),
    (
      append_cancel_right (named c) (named d) "-snapshot-cleanup",
      ap (λ n. n <> "-snapshot-cleanup"),
    ),
  )

  job_names_apart :
      (c d : Cluster P) → snapshot_job_name c.definition ≢ snapshot_cleanup_job_name d.definition
  unfolding snapshot_job_name snapshot_cleanup_job_name chars code_at
  job_names_apart c d =
      differ_at_end (named c) "-snapshot" (named d) "-snapshot-cleanup" 8 16 refl refl (omega arith)

  job_label :
      (d : Cluster P) (job : CronJob P)
      → create_snapshot_job d ≡ some job
      → lookup "app" job.metadata.labels ≡ some (snapshot_job_name d.definition)
  unfolding create_snapshot_job lookup insert ◌==◌
  job_label d job e = elim (Option-cases d.definition.spec.snapshot) [
    | inl z ↦ ground (arith, z)
    | inr (s, z) ↦ let k = rw z at e in ground (arith, k)
  ]

  cleanup_label :
      (d : Cluster P) (job : CronJob P)
      → create_snapshot_cleanup_job d ≡ some (some job)
      → lookup "app" job.metadata.labels ≡ some (snapshot_cleanup_job_name d.definition)
  unfolding create_snapshot_cleanup_job lookup insert ◌==◌
  cleanup_label d job e = elim (Option-cases d.definition.spec.snapshot) [
    | inl z ↦ ground (arith, z)
    | inr (s, z) ↦ elim (Option-cases s.retention_policy) [
      | inl y ↦ let k = rw z at e in ground (arith, y)
      | inr (p, y) ↦ let k = rw z at e in ground (arith, y)
    ]
  ]

  -- The operations on snapshots search for a job by app=<name of the job>. For the two jobs that are
  -- made for a cluster with a snapshot and an enabled retention policy: the search for a cluster's
  -- snapshot job selects the snapshot job made for a cluster exactly if the clusters have the same
  -- name, and so does the search for the cleanup job; neither selects a job of the other kind.
  pub jobs_selected_iff :
      (c d : Cluster P) (job cleanup : CronJob P)
      → create_snapshot_job d ≡ some job
      → create_snapshot_cleanup_job d ≡ some (some cleanup)
      → let snapshots : Assoc String = ("app", snapshot_job_name c.definition) ∷ [] in
        let cleanups : Assoc String = ("app", snapshot_cleanup_job_name c.definition) ∷ [] in
        ("app=" <> snapshot_job_name c.definition ≡ text_of snapshots)
        × ("app=" <> snapshot_cleanup_job_name c.definition ≡ text_of cleanups)
        × (Selects snapshots job.metadata.labels ↔ (named c ≡ named d))
        × (Selects cleanups cleanup.metadata.labels ↔ (named c ≡ named d))
        × (¬ Selects snapshots cleanup.metadata.labels)
        × (¬ Selects cleanups job.metadata.labels)
  jobs_selected_iff c d job cleanup made cleaned =
      let own = job_label d job made in
      let other = cleanup_label d cleanup cleaned in
      let names = job_names_iff c d in
      let apart = job_names_apart c d in
      let apart' = job_names_apart d c in
      (
        app_text (snapshot_job_name c.definition),
        app_text (snapshot_cleanup_job_name c.definition),
        ground arith,
        ground arith,
        λ h. apart (ground arith),
        λ h. apart' (ground arith),
      )
