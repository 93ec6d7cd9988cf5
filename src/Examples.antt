-- ===== src/Examples.antt =====
-- Concrete clusters, updates and runs at which the theorems hold.
mod Copying
mod Clients
mod Runs
mod Settings
mod Selecting
mod Schedules
mod Tools
mod Gauges
mod Rollouts
mod Dispatching
use cassandra_operator.Base.{
  ℕ, ◌*◌, String, ◌==◌, ◌≡◌, refl, true, false, not, none, some, List, [], ◌∷◌, ok, eqb, arith,
  if◌then◌else◌, ◌&&◌, ◌↔◌, All,
}
use cassandra_operator.Base.Int.{pos}
use cassandra_operator.Base.Text.{show_ℕ}
use cassandra_operator.Base.Assoc.{lookup, insert}
use cassandra_operator.Platform.{Platform}
use cassandra_operator.Api.{Pod, Rack, CassandraSpec, Cassandra}
use cassandra_operator.Cluster.{Cluster}
use cassandra_operator.Cluster.Validation.{
  validate_racks, validate_pod_resources, validate_snapshot,
}
use cassandra_operator.Cluster.Definition.{prepare, copy_into}
use cassandra_operator.Cluster.Definition.Laws.{Accepted, Acceptable, prepare_accepts_iff}
use cassandra_operator.Cluster.Definition.Stored.{
  Complete, prepare-Complete, prepare_idem, copy_into_error,
}
use cassandra_operator.Adjuster.{ClusterChange, changes_for_cluster, added_change, updated_change}
use cassandra_operator.Adjuster.Racks.{after, replicas_called, rack_called}
use cassandra_operator.Adjuster.Convergence.{changes_for_cluster_converges}
use cassandra_operator.Adjuster.Allowed.{
  Planned, KeepsPlacement, IsSupported, NotShrunk, changes_for_cluster_allowed_iff, IsSupported-iff,
}
use cassandra_operator.Adjuster.Steady.{changes_for_cluster_steady}
use cassandra_operator.Metrics.{ClusterStatus}
use cassandra_operator.Metrics.NodeStatus.{
  Node, transform_cluster_status, applicable_label_pair, unapplicable_label_pairs, all_label_pairs,
}
use cassandra_operator.Metrics.NodeStatus.Laws.{
  status_of, known, lookup-transform_cluster_status, applicable-unapplicable-perm,
}
use mathlib.Core.List.{Perm}
use cassandra_operator.Snapshots.{Listing, found, is_older, atoi, outside_retention_period}
use cassandra_operator.Snapshots.Retention.{
  are_distinct, found-outside_retention_period, outside_retention_period-distinct,
}
use cassandra_operator.Dispatcher.{
  Event, Dispatcher, Run, at_start, continues, calls, locks, sends, first, new, enter, open_channel,
  send, with_worker, push, sent_by, begun_by,
}
use cassandra_operator.Dispatcher.Order.{Ordered, Run-Ordered}
use cassandra_operator.Operator.{adjusted}
use cassandra_operator.Operator.Handlers.{update_messages}
use cassandra_operator.Operator.Updates.{ComparesQuantities}

-- Quantities as plain numbers, every schedule but the empty one, and a digest that is the text itself.
abbrev pub plain : Platform
plain = record {
  Quantity = ℕ;
  is_zero = λ q. eqb q 0;
  quantity_string = show_ℕ;
  milli_value = λ q. pos (1000 * q);
  value = pos;
  deep_equal = eqb;
  cron_parses = λ s. not (s == "");
  marshal = λ name data_of binary. some name;
  sha256_hex = λ s. s;
}

abbrev rack_a : Rack
rack_a = record { name = "a"; zone = "eu-west-1a"; storage_class = "ssd"; replicas = pos 1 }

abbrev rack_b : Rack
rack_b = record { name = "b"; zone = "eu-west-1b"; storage_class = "ssd"; replicas = pos 2 }

abbrev small_pod : Pod plain
small_pod = record {
  bootstrapper_image = "";
  image = "cassandra:3.11";
  storage_size = 10;
  memory = 4;
  cpu = 1;
  liveness_probe = none;
  readiness_probe = none;
}

abbrev spec_of : List Rack → CassandraSpec plain
spec_of racks = record {
  dc = "dc1";
  racks = racks;
  use_empty_dir = false;
  pod = small_pod;
  snapshot = none;
}

abbrev definition_of : List Rack → Cassandra plain
definition_of racks = record { namespace = "team"; name = "users"; spec = spec_of racks }

abbrev one_rack : Cassandra plain
one_rack = definition_of (rack_a ∷ [])

abbrev two_racks : Cassandra plain
two_racks = definition_of (record rack_a { replicas = pos 2 } ∷ rack_b ∷ [])

prepare_accepts_iff_example : Accepted (prepare one_rack).0 ↔ Acceptable one_rack
prepare_accepts_iff_example = prepare_accepts_iff one_rack

abbrev pub stored_rack : Cassandra plain
unfolding prepare
stored_rack = elim (prepare one_rack).0 [ ok d ↦ d | _ ↦ one_rack ]

prepare-Complete_example : Complete stored_rack
unfolding prepare ◌==◌ validate_racks validate_pod_resources validate_snapshot
prepare-Complete_example = prepare-Complete one_rack stored_rack refl

prepare_idem_example : prepare stored_rack ≡ (ok stored_rack, stored_rack)
unfolding prepare ◌==◌ validate_racks validate_pod_resources validate_snapshot
prepare_idem_example = prepare_idem one_rack stored_rack refl

abbrev running : Cluster plain
running = record { definition = one_rack; online = true }

-- Rack a grows and rack b is new.
abbrev growth : List ClusterChange
growth = added_change rack_b ∷ updated_change small_pod (record rack_a { replicas = pos 2 }) ∷ []

abbrev old_spec : CassandraSpec plain
old_spec = one_rack.spec

abbrev new_spec : CassandraSpec plain
new_spec = two_racks.spec

growth-planned : changes_for_cluster old_spec new_spec ≡ ok growth
unfolding changes_for_cluster ◌==◌
growth-planned = refl

changes_for_cluster_converges_example :
    after "a" (replicas_called "a" old_spec.racks) growth ≡ replicas_called "a" new_spec.racks
unfolding rack_called ◌==◌
changes_for_cluster_converges_example =
    changes_for_cluster_converges old_spec new_spec (refl, tt) (refl, (refl, tt)) growth-planned "a"

changes_for_cluster_allowed_iff_example : Planned (changes_for_cluster old_spec new_spec) ↔ (
    (old_spec.dc ≡ new_spec.dc)
    × (old_spec.pod.image ≡ new_spec.pod.image)
    × (old_spec.use_empty_dir ≡ new_spec.use_empty_dir)
    × All (λ r. KeepsPlacement r (rack_called r.name new_spec.racks)) old_spec.racks)
changes_for_cluster_allowed_iff_example = changes_for_cluster_allowed_iff old_spec new_spec

abbrev joining_status : ClusterStatus
joining_status = record {
  node_racks = [];
  live_nodes = "10.0.0.1" ∷ [];
  unreachable_nodes = [];
  joining_nodes = "10.0.0.1" ∷ [];
  leaving_nodes = [];
  moving_nodes = [];
}

lookup-transform_cluster_status_example :
    lookup "10.0.0.1" (transform_cluster_status joining_status)
    ≡ (if known joining_status "10.0.0.1" then some (status_of joining_status "10.0.0.1") else none)
lookup-transform_cluster_status_example = lookup-transform_cluster_status joining_status "10.0.0.1"

abbrev taken_at : String → Listing
taken_at time = record { name = time; keyspace = "k"; column_family = "c" }

abbrev listings : List Listing
listings = taken_at "100" ∷ taken_at "300" ∷ taken_at "by-hand" ∷ taken_at "100" ∷ []

-- One event is dispatched for a key that has no worker yet.
abbrev added : Event ℕ
added = record { kind = "ADD_CLUSTER"; key = "team.users"; data_of = 0 }

abbrev locked : Dispatcher ℕ
unfolding new enter open_channel with_worker lookup insert
locked = open_channel "team.users" (record new { callers = []; holder = some added })

abbrev sent_one : Dispatcher ℕ
unfolding new enter open_channel with_worker lookup insert
sent_one = record locked { channels = ("team.users", added ∷ []) ∷ []; holder = none }

one_sent : Run sent_one (added ∷ []) []
unfolding new enter open_channel with_worker send push lookup insert ◌==◌ sent_by begun_by
one_sent =
    continues (continues (continues at_start (calls added)) (locks refl first)) (sends refl refl)

Run-Ordered_example : Ordered "team.users" sent_one (added ∷ []) []
Run-Ordered_example = Run-Ordered one_sent "team.users"

pub compares_numbers : ComparesQuantities plain
compares_numbers a b = ground arith
