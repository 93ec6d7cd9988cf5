-- ===== src/Examples/Runs.antt =====
-- Concrete runs of the operations, resources and waits at which the theorems hold.
use cassandra_operator.Base.{
  ◌==◌, ◌≡◌, ◌≢◌, ◌↔◌, refl, true, false, none, some, List, [], ◌∷◌, ◌++◌, ok, err, arith, set,
  get_elem?,
}
use cassandra_operator.Base.Int.{ℤ, pos}
use cassandra_operator.Base.Assoc.{lookup}
use cassandra_operator.Api.{Cassandra, qualified_name}
use cassandra_operator.Cluster.Validation.{
  validate_racks, validate_pod_resources, validate_snapshot, validate_liveness_probe,
  validate_readiness_probe,
}
use cassandra_operator.Cluster.Definition.{prepare}
use cassandra_operator.Adjuster.{
  ClusterChange, changes_for_cluster, deleted_change, scaled_down_change,
}
use cassandra_operator.World.{
  Ends, returned, Environment, World, SetStatus, AppliedSet, done, invalid_change,
}
use cassandra_operator.Accessor.{wait_until_rack_change_applied}
use cassandra_operator.Cluster.{Cluster}
use cassandra_operator.Cluster.Resources.{create_stateful_set_for_rack}
use cassandra_operator.Accessor.Waiting.{
  IsReached, IsBroken, Succeeds, Fails, Panics, wait_until_rack_change_applied_ends,
}
use cassandra_operator.Operations.Clusters.{execute_update_cluster, execute_delete_cluster}
use cassandra_operator.Operations.Clusters.Refused.{execute_update_cluster-forbidden}
use cassandra_operator.Operations.Clusters.Deletion.{Deleted, execute_delete_cluster-Deleted}
use cassandra_operator.Operator.Handlers.{on_cluster_updated}
use cassandra_operator.Operator.Noticed.{SameSpec, taken, update_noticed, on_cluster_updated_iff}
use cassandra_operator.Examples.{
  plain, compares_numbers, rack_a, one_rack, definition_of, running, stored_rack,
}

-- A Kubernetes that accepts what it is sent, finds nothing, and has no pods; gauges without content.
abbrev pub quiet : Environment plain
quiet = record {
  State = Unit {0};
  create_service = λ n s k. (ok tt, k);
  delete_service = λ n s k. (ok tt, k);
  delete_stateful_sets = λ n s k. (ok tt, k);
  get_config_map = λ n s k. (err "not found", k);
  create_stateful_set = λ n s k. (ok (record { object = s; generation = pos 1 }), k);
  patch_stateful_set = λ n s p k. (err "not found", k);
  get_stateful_set = λ n s k. (err "not found", k);
  update_stateful_set = λ n s k. (ok s, k);
  observe = λ n s k. ([], k);
  list_services = λ n s k. (ok [], k);
  list_stateful_sets = λ n s k. (ok [], k);
  list_pods = λ n s k. (ok [], k);
  create_cron_job = λ n j k. (ok tt, k);
  list_cron_jobs = λ n s k. (ok [], k);
  delete_cron_job = λ n j k. (ok tt, k);
  update_cron_job = λ n j k. (ok tt, k);
  list_pod_infos = λ n s k. (ok [], k);
  http_get = λ u k. (err "refused", k);
  decode_values = λ b. err "malformed";
  decode_value = λ b. err "malformed";
  random_below = λ n k. (0, k);
  Gauge = Unit {0};
  set_gauge = λ l v g. g;
  delete_gauge = λ l g. (false, g);
}

abbrev no_racks : Cassandra plain
no_racks = definition_of []

abbrev moved : Cassandra plain
moved = record stored_rack { spec = record stored_rack.spec { dc = "dc2" } }

-- One cluster is known; the definitions are the old one, one without racks, and one that moves.
abbrev pub known_world : World quiet
known_world = record {
  kube = tt;
  definitions = one_rack ∷ no_racks ∷ moved ∷ [];
  stored_clusters = running ∷ [];
  clusters = ("team.users", 0) ∷ [];
  requests = [];
  events = [];
  node_status = tt;
  cluster_size = tt;
  topology = [];
}

execute_update_cluster-forbidden_example :
    execute_update_cluster 0 0 2 known_world
    ≡ done tt (record known_world {
      definitions = set known_world.definitions 2 (prepare moved).1;
      stored_clusters = set known_world.stored_clusters 0 (record running { definition = moved });
      events = known_world.events ++ invalid_change ∷ [];
    })
unfolding prepare validate_racks validate_pod_resources validate_snapshot changes_for_cluster ◌==◌
    validate_liveness_probe validate_readiness_probe
execute_update_cluster-forbidden_example =
    execute_update_cluster-forbidden known_world 0 0 2 running moved refl refl refl
      (λ e. omega (arith, e)) refl refl

abbrev shrinking : List ClusterChange
shrinking = deleted_change rack_a ∷ scaled_down_change (record { old = rack_a; new = rack_a }) ∷ []

execute_delete_cluster-Deleted_example :
    Ends
      (Deleted known_world (qualified_name one_rack) 0 running "team.users")
      (execute_delete_cluster 0 known_world)
unfolding lookup qualified_name ◌==◌
execute_delete_cluster-Deleted_example =
    execute_delete_cluster-Deleted known_world 0 0 one_rack running "team.users" refl refl refl refl

abbrev status_at : ℤ → SetStatus
status_at ready = record {
  observed_generation = some (pos 1);
  update_revision = "r1";
  current_revision = "r1";
  ready_replicas = ready;
  replicas = pos 2;
}

-- A Kubernetes in which the last replica is ready at the second answer.
abbrev becoming_ready : Environment plain
becoming_ready = record quiet {
  observe = λ n s k. (ok (status_at (pos 1)) ∷ ok (status_at (pos 2)) ∷ [], k);
}

abbrev waiting_world : World becoming_ready
waiting_world = record {
  kube = tt;
  definitions = [];
  stored_clusters = [];
  clusters = [];
  requests = [];
  events = [];
  node_status = tt;
  cluster_size = tt;
  topology = [];
}

abbrev probed : Cluster plain
probed = record running { definition = stored_rack }

abbrev rack_set : AppliedSet plain
rack_set = record { object = create_stateful_set_for_rack probed rack_a none; generation = pos 1 }

wait_until_rack_change_applied_ends_example :
    (Succeeds (wait_until_rack_change_applied probed rack_set waiting_world) ↔ (
      (stored_rack.spec.pod.readiness_probe ≢ none)
      × IsReached (pos 1) (ok (status_at (pos 1)) ∷ ok (status_at (pos 2)) ∷ [])))
    × (Fails (wait_until_rack_change_applied probed rack_set waiting_world) ↔ (
        (stored_rack.spec.pod.readiness_probe ≢ none)
        × IsBroken (pos 1) (ok (status_at (pos 1)) ∷ ok (status_at (pos 2)) ∷ [])))
    × (Panics (wait_until_rack_change_applied probed rack_set waiting_world)
        ↔ (stored_rack.spec.pod.readiness_probe ≡ none))
wait_until_rack_change_applied_ends_example =
    wait_until_rack_change_applied_ends probed rack_set waiting_world

on_cluster_updated_iff_example :
    ((returned (on_cluster_updated true 0 2 known_world) ≡ some []) ↔ SameSpec true one_rack moved)
    × ((returned (on_cluster_updated true 0 2 known_world) ≡ some (update_noticed 0 2 moved ∷ []))
        ↔ (¬ SameSpec true one_rack moved))
    × Ends
        (λ v.
          (get_elem? v.definitions 0 ≡ some (taken true one_rack))
          × (get_elem? v.definitions 2 ≡ some (taken true moved)))
        (on_cluster_updated true 0 2 known_world)
on_cluster_updated_iff_example =
    on_cluster_updated_iff compares_numbers true 0 2 known_world one_rack moved
      (λ e. omega (arith, e)) refl refl
