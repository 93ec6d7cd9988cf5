-- ===== src/Examples/Rollouts.antt =====
-- A Kubernetes in which every change is applied, and the clusters that are added and updated in it.
use cassandra_operator.Base.{
  false, ◌==◌, ◌≡◌, refl, ap, String, Result, true, none, some, List, [], ◌∷◌, ok, err, arith,
}
use mathlib.Core.Path.{subst}
use cassandra_operator.Base.Int.{ℤ, pos}
use cassandra_operator.Api.{Cassandra}
use cassandra_operator.Cluster.Resources.{create_stateful_set_for_rack}
use cassandra_operator.Cluster.Validation.{
  validate_racks, validate_pod_resources, validate_snapshot,
}
use cassandra_operator.Cluster.Definition.{prepare}
use cassandra_operator.Adjuster.{ClusterChange, changes_for_cluster, added_change, updated_change}
use cassandra_operator.World.{Environment, World, SetStatus, AppliedSet}
use cassandra_operator.Accessor.{change_applied}
use cassandra_operator.Accessor.Accepting.{Accepting, ends_wait, applies}
use cassandra_operator.Operations.Clusters.{execute_add_cluster, execute_update_cluster}
use cassandra_operator.World.{Ends}
use cassandra_operator.Operations.Clusters.Addition.{
  sent_for, Added, Unclaimed, execute_add_cluster-Added,
}
use cassandra_operator.Accessor.InOrder.{Begins}
use cassandra_operator.Operations.Clusters.InOrder.{execute_add_cluster-Begins}
use cassandra_operator.Operations.Clusters.Changes.{Applying}
use cassandra_operator.Operations.Clusters.Rollout.{Updated, execute_update_cluster-Updated}
use cassandra_operator.Operator.Noticed.{taken}
use cassandra_operator.Operator.Wiring.{cassandra_added}
use cassandra_operator.Operator.EndToEnd.{handle, noticed, handle-Added}
use cassandra_operator.Examples.{plain, rack_a, rack_b, one_rack, two_racks, running, stored_rack}
use cassandra_operator.Examples.Runs.{quiet}

abbrev applied_status : SetStatus
applied_status = record {
  observed_generation = some (pos 1);
  update_revision = "r1";
  current_revision = "r1";
  ready_replicas = pos 1;
  replicas = pos 1;
}

-- The status of every stateful set is that of its first generation, applied.
abbrev eager : Environment plain
eager = record quiet {
  patch_stateful_set = λ n s p k. (
    ok (record { object = create_stateful_set_for_rack running rack_a none; generation = pos 1 }),
    k,
  );
  observe = λ n s k. (ok applied_status ∷ [], k);
}

-- The generation of a stateful set that has been written, or 1.
abbrev generation_of : Result String (AppliedSet plain) → ℤ
generation_of (ok sts) = sts.generation
generation_of (err e) = pos 1

eager-Accepting : Accepting eager
unfolding ends_wait change_applied ◌==◌
eager-Accepting = record {
  services = λ n s k. refl;
  sets = λ n s k. tt;
  waits = λ n s k sts e.
      subst (λ g. ends_wait (ok applied_status ∷ []) g ≡ true) (ap generation_of e) refl;
}

eager-Applying : Applying eager
unfolding applies change_applied ◌==◌
eager-Applying = record {
  patches = λ namespace name patch k. tt;
  applied = λ namespace name patch k sts e.
      subst (λ g. applies (ok applied_status ∷ []) g ≡ true) (ap generation_of e) refl;
}

abbrev eager_world : World eager
eager_world = record {
  kube = tt;
  definitions = one_rack ∷ two_racks ∷ [];
  stored_clusters = running ∷ [];
  clusters = [];
  requests = [];
  events = [];
  node_status = tt;
  cluster_size = tt;
  topology = [];
}

unclaimed : Unclaimed eager stored_rack tt
unclaimed = record { services = refl; sets = refl; pods = refl }

execute_add_cluster-Added_example :
    Ends (Added eager_world 0 one_rack stored_rack "team.users") (execute_add_cluster 0 eager_world)
unfolding prepare validate_racks validate_pod_resources validate_snapshot ◌==◌
execute_add_cluster-Added_example =
    execute_add_cluster-Added eager-Accepting eager_world 0 one_rack stored_rack "team.users" refl
      refl unclaimed

abbrev stored_racks : Cassandra plain
unfolding prepare
stored_racks = elim (prepare two_racks).0 [ ok d ↦ d | _ ↦ two_racks ]

-- Rack b is added, and rack a grows.
abbrev grown : List ClusterChange
unfolding prepare
grown =
    added_change rack_b
    ∷ updated_change (prepare two_racks).1.spec.pod (record rack_a { replicas = pos 2 })
    ∷ []

execute_update_cluster-Updated_example :
    Ends
      (Updated eager_world 0 1 running two_racks stored_racks none grown)
      (execute_update_cluster 0 0 1 eager_world)
unfolding prepare validate_racks validate_pod_resources validate_snapshot changes_for_cluster ◌==◌
execute_update_cluster-Updated_example =
    execute_update_cluster-Updated eager-Accepting eager-Applying eager_world 0 0 1 running
      two_racks one_rack stored_racks none grown refl refl refl (λ e. omega (arith, e)) refl refl
      (λ k. refl)

-- A Kubernetes that refuses every service.
abbrev refusing : Environment plain
refusing = record eager { create_service = λ n s k. (err "forbidden", k) }

abbrev refusing_world : World refusing
refusing_world = record {
  kube = tt;
  definitions = one_rack ∷ [];
  stored_clusters = [];
  clusters = [];
  requests = [];
  events = [];
  node_status = tt;
  cluster_size = tt;
  topology = [];
}

execute_add_cluster-Begins_example :
    Begins refusing_world
      (sent_for refusing_world one_rack stored_rack)
      (execute_add_cluster 0 refusing_world)
unfolding prepare validate_racks validate_pod_resources validate_snapshot ◌==◌
execute_add_cluster-Begins_example =
    execute_add_cluster-Begins refusing_world 0 one_rack stored_rack refl refl

handle-Added_example :
    Ends
      (Added
        (noticed false eager_world 0 one_rack)
        0
        (taken false one_rack)
        stored_rack
        "team.users")
      (handle false (cassandra_added 0) eager_world)
unfolding prepare validate_racks validate_pod_resources validate_snapshot ◌==◌
handle-Added_example =
    handle-Added eager-Accepting false eager_world 0 one_rack stored_rack "team.users" refl refl
      refl unclaimed
