-- ===== src/Examples/Gauges.antt =====
-- Gauges that can be read, and a status that is published in them.
use cassandra_operator.Base.{
  ℕ, String, ◌==◌, ==_iff, ◌≡◌, refl, true, Option, none, some, List, [], ◌∷◌, if◌then◌else◌, arith,
}
use cassandra_operator.Base.Assoc.{lookup, insert}
use cassandra_operator.World.{Ends, Environment, PodInfo, World}
use cassandra_operator.Metrics.NodeStatus.Laws.{status_of, listed}
use cassandra_operator.Metrics.NodeStatus.{pair}
use cassandra_operator.Metrics.Prometheus.{
  delete_metrics, node_labels, ips_to_names, publish, or_unknown,
}
use cassandra_operator.Metrics.Readings.{Readable, same_labels, pair_in, reading}
use cassandra_operator.Metrics.Readings.Published.{reads-publish}
use cassandra_operator.Api.{qualified_name}
use cassandra_operator.Metrics.Readings.Removed.{reads-delete_metrics}
use cassandra_operator.Examples.{plain, running, joining_status}
use cassandra_operator.Examples.Runs.{quiet}

-- A vector of gauges as the function from labels to values.
abbrev measured : Environment plain
measured = record quiet {
  Gauge = List String → Option ℕ;
  set_gauge = λ ls v g. λ ms. if same_labels ls ms then some v else g ms;
  delete_gauge = λ ls g. (true, λ ms. if same_labels ls ms then none else g ms);
}

abbrev readable : Readable measured
readable = record {
  reads = λ ms g. g ms;
  reads-set = λ ls ms v g. refl;
  reads-delete = λ ls ms g. refl;
}

abbrev unmeasured : World measured
unmeasured = record {
  kube = tt;
  definitions = [];
  stored_clusters = running ∷ [];
  clusters = ("team.users", 0) ∷ [];
  requests = [];
  events = [];
  node_status = λ ms. none;
  cluster_size = λ ms. none;
  topology = [];
}

abbrev pods : List PodInfo
pods = record { name = "users-a-0"; ip = "10.0.0.1" } ∷ []

only_address :
    (other : String) → lookup other (ips_to_names pods []) ≡ some "users-a-0" → other ≡ "10.0.0.1"
unfolding lookup ips_to_names insert
only_address other h = ground (arith, h, ==_iff "10.0.0.1" other)

reads-publish_example :
    readable.reads
      (node_labels running
        (or_unknown (lookup "10.0.0.1" joining_status.node_racks))
        "users-a-0"
        (pair "up" "joining"))
      (publish running pods joining_status unmeasured).node_status
    ≡ reading (status_of joining_status "10.0.0.1") (pair "up" "joining")
unfolding lookup ips_to_names insert listed pair_in ◌==◌
reads-publish_example =
    reads-publish readable running pods joining_status "10.0.0.1" "users-a-0" (pair "up" "joining")
      unmeasured refl only_address refl refl

-- The pod is known, and its gauge for an ordinary node that is up reads 1.
abbrev watched : World measured
watched = record unmeasured {
  topology = ("team.users", ("users-a-0", "unknown") ∷ []) ∷ [];
  node_status =
      measured.set_gauge (node_labels running "unknown" "users-a-0" (pair "up" "normal")) 1
        unmeasured.node_status;
}

reads-delete_metrics_example :
    Ends
      (λ v.
        readable.reads
          (node_labels running "unknown" "users-a-0" (pair "up" "normal"))
          v.node_status
        ≡ none)
      (delete_metrics running watched)
unfolding lookup qualified_name pair_in ◌==◌
reads-delete_metrics_example =
    reads-delete_metrics readable running watched (("users-a-0", "unknown") ∷ []) "unknown"
      "users-a-0" (pair "up" "normal") refl refl refl
