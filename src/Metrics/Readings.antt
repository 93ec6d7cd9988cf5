-- ===== src/Metrics/Readings.antt =====
-- cassandra-operator/pkg/metrics/prometheus.go: what the gauges of a cluster's nodes read once a
-- status has been published.
pub mod Published
pub mod Removed
use cassandra_operator.Base.{
  ℕ, String, ◌==◌, ==_iff, ==_refl, ◌≡◌, ◌≢◌, refl, ◌⊎◌, inl, inr, Bool, true, false, not, ◌&&◌,
  ◌||◌, Option, none, some, List, [], ◌∷◌, arith, if◌then◌else◌, Bool-cases, Option-cases,
}
use cassandra_operator.Base.Assoc.{Assoc, lookup, insert, lookup-insert}
use cassandra_operator.Platform.{Platform}
use cassandra_operator.Cluster.{Cluster}
use cassandra_operator.World.{Environment, PodInfo, World}
use cassandra_operator.Metrics.{ClusterStatus}
use cassandra_operator.Metrics.NodeStatus.{
  Node, LabelPair, same_pair, pairs_other_than, all_label_pairs, applicable_label_pair,
  unapplicable_label_pairs, transform_cluster_status, mark, or_blank,
}
use cassandra_operator.Metrics.NodeStatus.Laws.{known, status_of, lookup-transform_cluster_status}
use cassandra_operator.Metrics.Prometheus.{
  node_labels, or_unknown, ips_to_names, set_each, update_node_status, update_node, update_nodes,
  delete_each, remove_node_from_metrics, publish,
}

pub same_labels : List String → List String → Bool
same_labels [] [] = true
same_labels [] (b ∷ ys) = false
same_labels (a ∷ xs) [] = false
same_labels (a ∷ xs) (b ∷ ys) = a == b && same_labels xs ys

-- A vector of gauges: what is set under some labels is read under the same labels, until it is
-- deleted.
pub record Readable {P : Platform} (K : Environment P) : Type 0 where
  pub reads : List String → K.Gauge → Option ℕ
  pub reads-set :
      (ls ms : List String) (v : ℕ) (g : K.Gauge)
      → reads ms (K.set_gauge ls v g) ≡ (if same_labels ls ms then some v else reads ms g)
  pub reads-delete :
      (ls ms : List String) (g : K.Gauge)
      → reads ms (K.delete_gauge ls g).1 ≡ (if same_labels ls ms then none else reads ms g)

unfoldable pub pair_in : LabelPair → List LabelPair → Bool
pair_in l [] = false
pair_in l (m ∷ ms) = same_pair m l || pair_in l ms

pair_in-pairs_other_than :
    (l a : LabelPair) (ls : List LabelPair)
    → pair_in l (pairs_other_than a ls) ≡ (pair_in l ls && not (same_pair a l))
unfolding pairs_other_than pair_in
pair_in-pairs_other_than l a [] = refl
pair_in-pairs_other_than l a (m ∷ ms) = ground (
  arith,
  pair_in-pairs_other_than l a ms,
  ==_iff m.liveness l.liveness,
  ==_iff m.state l.state,
  ==_iff m.liveness a.liveness,
  ==_iff m.state a.state,
  ==_iff a.liveness l.liveness,
  ==_iff a.state l.state,
)

-- The value of a node's gauge under a pair of labels.
abbrev pub reading : Node → LabelPair → Option ℕ
reading n l = if same_pair (applicable_label_pair n) l then some 1 else some 0

module _ {P : Platform} {K : Environment P} (R : Readable K) (c : Cluster P) where
  same_labels-pair :
      (rack pod : String) (a b : LabelPair)
      → same_labels (node_labels c rack pod a) (node_labels c rack pod b) ≡ same_pair a b
  unfolding same_labels
  same_labels-pair rack pod a b =
      ground (
        arith,
        ==_refl c.definition.name,
        ==_refl c.definition.namespace,
        ==_refl rack,
        ==_refl pod,
      )

  reads-set_each :
      (rack pod : String) (v : ℕ) (l : LabelPair) (ls : List LabelPair) (g : K.Gauge)
      → R.reads (node_labels c rack pod l) (set_each K c rack pod v ls g)
        ≡ (if pair_in l ls then some v else R.reads (node_labels c rack pod l) g)
  unfolding set_each pair_in
  reads-set_each rack pod v l [] g = refl
  reads-set_each rack pod v l (m ∷ ms) g = ground (
    arith,
    reads-set_each rack pod v l ms (K.set_gauge (node_labels c rack pod m) v g),
    R.reads-set (node_labels c rack pod m) (node_labels c rack pod l) v g,
    same_labels-pair rack pod m l,
  )

  reads-update_node_status :
      (rack pod : String) (n : Node) (l : LabelPair) (g : K.Gauge)
      → pair_in l all_label_pairs ≡ true
      → R.reads (node_labels c rack pod l) (update_node_status K c rack pod n g) ≡ reading n l
  unfolding update_node_status unapplicable_label_pairs
  reads-update_node_status rack pod n l g member =
      let a = applicable_label_pair n in
      let g1 = K.set_gauge (node_labels c rack pod a) 1 g in
      ground (
        arith,
        member,
        reads-set_each rack pod 0 l (pairs_other_than a all_label_pairs) g1,
        pair_in-pairs_other_than l a all_label_pairs,
        R.reads-set (node_labels c rack pod a) (node_labels c rack pod l) 1 g,
        same_labels-pair rack pod a l,
      )

  pub reads-delete_each :
      (rack pod : String) (l : LabelPair) (ls : List LabelPair) (g : K.Gauge)
      → R.reads (node_labels c rack pod l) (delete_each K c rack pod ls g)
        ≡ (if pair_in l ls then none else R.reads (node_labels c rack pod l) g)
  unfolding delete_each pair_in
  reads-delete_each rack pod l [] g = refl
  reads-delete_each rack pod l (m ∷ ms) g = ground (
    arith,
    reads-delete_each rack pod l ms (K.delete_gauge (node_labels c rack pod m) g).1,
    R.reads-delete (node_labels c rack pod m) (node_labels c rack pod l) g,
    same_labels-pair rack pod m l,
  )

  pub reads-remove_node_from_metrics :
      (rack pod : String) (l : LabelPair) (g : K.Gauge)
      → pair_in l all_label_pairs ≡ true
      → R.reads (node_labels c rack pod l) (remove_node_from_metrics K c pod rack g) ≡ none
  unfolding remove_node_from_metrics
  reads-remove_node_from_metrics rack pod l g member =
      ground (arith, member, reads-delete_each rack pod l all_label_pairs g)
