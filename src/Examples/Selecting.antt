-- ===== src/Examples/Selecting.antt =====
-- Concrete clusters and cron jobs at which the theorems on selectors hold.
use cassandra_operator.Base.{String, ◌<>◌, ◌≡◌, ◌↔◌, refl, some, none, [], ◌∷◌}
use cassandra_operator.Api.{
  Cassandra, snapshot_job_name, snapshot_cleanup_job_name, has_retention_policy_enabled,
}
use cassandra_operator.Kube.{Container, CronJob}
use cassandra_operator.Cluster.{Cluster, operator_label}
use cassandra_operator.Cluster.Resources.{create_stateful_set_for_rack, create_service}
use cassandra_operator.Cluster.Jobs.{
  pod_labels, create_cron_job, create_snapshot_job, create_snapshot_cleanup_job,
  create_snapshot_container, create_snapshot_cleanup_container, enabled_cleanup_job,
}
use cassandra_operator.Cluster.Selectors.{
  Selects, text_of, labels_of_pods, pods_selected_iff, objects_selected_iff, jobs_selected_iff,
}
use cassandra_operator.Accessor.{cluster_selector}
use cassandra_operator.Examples.{plain, rack_a, rack_b, one_rack, running}
use cassandra_operator.Examples.Settings.{nightly, weekly}

abbrev users : String
users = "users"

abbrev others : String
others = "orders"

-- A cluster of another name, and one with a snapshot and a retention policy.
abbrev orders : Cluster plain
orders = record running { definition = record one_rack { name = "orders" } }

abbrev saved : Cassandra plain
saved = record one_rack {
  spec = record one_rack.spec {
    snapshot = some (record nightly { retention_policy = some weekly });
  };
}

abbrev pub saving : Cluster plain
saving = record running { definition = saved }

abbrev pub saving_container : Container plain
saving_container =
    create_snapshot_container saving (record nightly { retention_policy = some weekly })

abbrev pub saving_job : CronJob plain
saving_job =
    create_cron_job saving (snapshot_job_name saved) "cassandra-snapshot" nightly.schedule
      saving_container

abbrev pub cleaning_container : Container plain
cleaning_container =
    elim (create_snapshot_cleanup_container saving
      (record nightly { retention_policy = some weekly })) [
        | none ↦ saving_container
        | some container ↦ container
      ]

abbrev pub cleaning_job : CronJob plain
cleaning_job =
    create_cron_job saving (snapshot_cleanup_job_name saved) "cassandra-snapshot"
      weekly.cleanup_schedule cleaning_container

pods_selected_iff_example :
    (Selects
        (create_stateful_set_for_rack running rack_a none).match_labels
        (labels_of_pods orders rack_b none)
      ↔ ((users ≡ others) × (rack_a.name ≡ rack_b.name)))
    × (Selects (create_service running).selector (labels_of_pods orders rack_b none)
        ↔ (users ≡ others))
    × (Selects
          (create_stateful_set_for_rack running rack_a none).template.affinity.anti_affinity_labels
          (labels_of_pods orders rack_b none)
        ↔ (users ≡ others))
    × (pod_labels running ≡ text_of ((operator_label, "users") ∷ ("app", "users") ∷ []))
    × (Selects
          ((operator_label, "users") ∷ ("app", "users") ∷ [])
          (labels_of_pods orders rack_b none)
        ↔ (users ≡ others))
pods_selected_iff_example = pods_selected_iff running orders rack_a rack_b none none

objects_selected_iff_example :
    (cluster_selector running ≡ text_of ((operator_label, "users") ∷ []))
    × (Selects ((operator_label, "users") ∷ []) (create_service saving).metadata.labels
        ↔ (users ≡ users))
    × (Selects
          ((operator_label, "users") ∷ [])
          (create_stateful_set_for_rack saving rack_a none).metadata.labels
        ↔ (users ≡ users))
    × (Selects
          ((operator_label, "users") ∷ [])
          (create_cron_job saving "users-snapshot" "cassandra-snapshot" "0 1 * * *"
            saving_container).metadata.labels
        ↔ (users ≡ users))
objects_selected_iff_example =
    objects_selected_iff running saving rack_a none "users-snapshot" "cassandra-snapshot"
      "0 1 * * *" saving_container

jobs_selected_iff_example :
    ("app=" <> snapshot_job_name orders.definition
      ≡ text_of (("app", snapshot_job_name orders.definition) ∷ []))
    × ("app=" <> snapshot_cleanup_job_name orders.definition
        ≡ text_of (("app", snapshot_cleanup_job_name orders.definition) ∷ []))
    × (Selects (("app", snapshot_job_name orders.definition) ∷ []) saving_job.metadata.labels
        ↔ (others ≡ users))
    × (Selects
          (("app", snapshot_cleanup_job_name orders.definition) ∷ [])
          cleaning_job.metadata.labels
        ↔ (others ≡ users))
    × (¬ Selects (("app", snapshot_job_name orders.definition) ∷ []) cleaning_job.metadata.labels)
    × (¬ Selects
        (("app", snapshot_cleanup_job_name orders.definition) ∷ [])
        saving_job.metadata.labels)
unfolding create_snapshot_job create_snapshot_cleanup_job create_snapshot_cleanup_container
    enabled_cleanup_job has_retention_policy_enabled
jobs_selected_iff_example = jobs_selected_iff orders saving saving_job cleaning_job refl refl
