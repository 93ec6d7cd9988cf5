-- ===== src/Metrics/Readings/Removed.antt =====
-- cassandra-operator/pkg/metrics/prometheus.go: what the gauges read once a cluster's metrics are
-- deleted.
use cassandra_operator.Base.{
  String, ◌==◌, ==_iff, ◌≡◌, true, none, some, List, [], ◌∷◌, arith, Bool-cases, inl, inr,
}
use cassandra_operator.Base.Assoc.{Assoc, lookup}
use cassandra_operator.Platform.{Platform}
use cassandra_operator.Api.{qualified_name}
use cassandra_operator.Cluster.{Cluster}
use cassandra_operator.World.{Environment, World}
use cassandra_operator.Metrics.NodeStatus.{LabelPair, all_label_pairs}
use cassandra_operator.Metrics.Prometheus.{
  node_labels, delete_each, remove_node_from_metrics, remove_nodes, delete_metrics,
}
use cassandra_operator.Metrics.Readings.{Readable, pair_in, reads-remove_node_from_metrics}
use cassandra_operator.World.{Ends}

module _ {P : Platform} {K : Environment P} (R : Readable K) (c : Cluster P) where
  -- What has no value has none after more deletions.
  delete_each-none :
      (rack pod : String) (labels : List String) (ls : List LabelPair) (g : K.Gauge)
      → R.reads labels g ≡ none
      → R.reads labels (delete_each K c rack pod ls g) ≡ none
  unfolding delete_each
  delete_each-none rack pod labels [] g h = h
  delete_each-none rack pod labels (m ∷ ms) g h =
      delete_each-none rack pod labels ms (K.delete_gauge (node_labels c rack pod m) g).1
        (ground (arith, h, R.reads-delete (node_labels c rack pod m) labels g))

  remove_nodes-none :
      (labels : List String) (nodes : Assoc String) (g : K.Gauge)
      → R.reads labels g ≡ none
      → R.reads labels (remove_nodes K c nodes g) ≡ none
  unfolding remove_nodes remove_node_from_metrics
  remove_nodes-none labels [] g h = h
  remove_nodes-none labels ((pod, rack) ∷ nodes) g h =
      remove_nodes-none labels nodes (delete_each K c rack pod all_label_pairs g)
        (delete_each-none rack pod labels all_label_pairs g h)

  reads-remove_nodes :
      (rack pod : String) (l : LabelPair) (nodes : Assoc String) (g : K.Gauge)
      → lookup pod nodes ≡ some rack
      → pair_in l all_label_pairs ≡ true
      → R.reads (node_labels c rack pod l) (remove_nodes K c nodes g) ≡ none
  unfolding remove_nodes lookup
  reads-remove_nodes rack pod l [] g h member = ground (arith, h)
  reads-remove_nodes rack pod l ((p, r) ∷ nodes) g h member = elim (Bool-cases (p == pod)) [
    | inl same ↦
        remove_nodes-none (node_labels c rack pod l) nodes (remove_node_from_metrics K c p r g) (
          ground
            (arith, same, h, ==_iff p pod, reads-remove_node_from_metrics R c rack pod l g member))
    | inr apart ↦
        reads-remove_nodes rack pod l nodes (remove_node_from_metrics K c p r g)
          (ground (arith, apart, h)) member
  ]

  -- DeleteMetrics returns, and then no gauge of a node has a value under the rack that the last known
  -- topology of the cluster gives for its pod, under none of the eight pairs of labels.
  pub reads-delete_metrics :
      (w : World K) (nodes : Assoc String) (rack pod : String) (l : LabelPair)
      → lookup (qualified_name c.definition) w.topology ≡ some nodes
      → lookup pod nodes ≡ some rack
      → pair_in l all_label_pairs ≡ true
      → Ends (λ v. R.reads (node_labels c rack pod l) v.node_status ≡ none) (delete_metrics c w)
  unfolding delete_metrics
  reads-delete_metrics w nodes rack pod l known listed member =
      rw (Ends, known) (reads-remove_nodes rack pod l nodes w.node_status listed member)
