-- ===== src/Metrics/NodeStatus.antt =====
-- cassandra-operator/pkg/metrics/nodestatus.go: the status of each node, by its address.
pub mod Laws
use cassandra_operator.Base.{
  String, ◌==◌, Bool, true, false, not, ◌&&◌, Option, none, some, List, [], ◌∷◌, if◌then◌else◌,
}
use cassandra_operator.Base.Assoc.{Assoc, lookup, insert}
use cassandra_operator.Metrics.{ClusterStatus}

pub record Node : Type 0 where
  pub up : Bool
  pub down : Bool
  pub joining : Bool
  pub leaving : Bool
  pub moving : Bool

-- &nodeStatus{}
abbrev pub blank : Node
blank = record { up = false; down = false; joining = false; leaving = false; moving = false }

pub record LabelPair : Type 0 where
  pub liveness : String
  pub state : String

unfoldable pub normal : Node → Bool
normal n = not n.joining && not n.leaving && not n.moving

unfoldable pub liveness_label : Node → String
liveness_label n = if n.up then "up" else "down"

unfoldable pub state_label : Node → String
state_label n =
    if n.joining
    then "joining"
    else if n.leaving
    then "leaving"
    else if n.moving
    then "moving"
    else "normal"

abbrev pub pair : String → String → LabelPair
pair liveness state = record { liveness = liveness; state = state }

abbrev pub all_label_pairs : List LabelPair
all_label_pairs =
    pair "up" "normal"
    ∷ pair "up" "joining"
    ∷ pair "up" "leaving"
    ∷ pair "up" "moving"
    ∷ pair "down" "normal"
    ∷ pair "down" "joining"
    ∷ pair "down" "leaving"
    ∷ pair "down" "moving"
    ∷ []

abbrev pub same_pair : LabelPair → LabelPair → Bool
same_pair a b = a.liveness == b.liveness && a.state == b.state

unfoldable pub pairs_other_than : LabelPair → List LabelPair → List LabelPair
pairs_other_than applicable [] = []
pairs_other_than applicable (l ∷ ls) =
    let rest = pairs_other_than applicable ls in if same_pair l applicable then rest else l ∷ rest

unfoldable pub applicable_label_pair : Node → LabelPair
unfolding liveness_label state_label
applicable_label_pair n = pair (liveness_label n) (state_label n)

unfoldable pub unapplicable_label_pairs : Node → List LabelPair
unfolding applicable_label_pair pairs_other_than
unapplicable_label_pairs n = pairs_other_than (applicable_label_pair n) all_label_pairs

-- The assignments that the five loops make at a node.
abbrev pub set_up : Node → Node
set_up n = record n { up = true; down = false }

abbrev pub set_down : Node → Node
set_down n = record n { up = false; down = true }

abbrev pub set_leaving : Node → Node
set_leaving n = record n { leaving = true; joining = false; moving = false }

abbrev pub set_moving : Node → Node
set_moving n = record n { moving = true; joining = false; leaving = false }

abbrev pub set_joining : Node → Node
set_joining n = record n { joining = true; moving = false; leaving = false }

abbrev pub or_blank : Option Node → Node
or_blank none = blank
or_blank (some n) = n

-- One loop: each listed node is created if it is new, and then assigned to.
unfoldable pub mark : (Node → Node) → List String → Assoc Node → Assoc Node
unfolding lookup insert
mark assign [] nodes = nodes
mark assign (ip ∷ ips) nodes =
    mark assign ips (insert ip (assign (or_blank (lookup ip nodes))) nodes)

unfoldable pub transform_cluster_status : ClusterStatus → Assoc Node
unfolding mark
transform_cluster_status s = mark set_joining s.joining_nodes (
    mark set_moving s.moving_nodes (
      mark set_leaving s.leaving_nodes
        (mark set_down s.unreachable_nodes (mark set_up s.live_nodes []))))
