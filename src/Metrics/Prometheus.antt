-- ===== src/Metrics/Prometheus.antt =====
-- cassandra-operator/pkg/metrics/prometheus.go: the gauges of a cluster and its nodes. A gauge is
-- named by the values of its labels, in the order in which the source declares them.
use cassandra_operator.Base.{
  ℕ, String, ◌<>◌, Option, none, some, List, [], ◌∷◌, length, Result, ok, err,
}
use cassandra_operator.Base.Assoc.{Assoc, lookup, insert, delete}
use cassandra_operator.Platform.{Platform}
use cassandra_operator.Api.{qualified_name}
use cassandra_operator.Cluster.{Cluster}
use cassandra_operator.World.{Environment, PodInfo, World, done, M, ◌>>=◌, pure, reads}
use cassandra_operator.Metrics.{ClusterStatus}
use cassandra_operator.Metrics.NodeStatus.{
  Node, LabelPair, all_label_pairs, applicable_label_pair, unapplicable_label_pairs,
  transform_cluster_status,
}
use cassandra_operator.Metrics.Gatherer.{gather_metrics_for}

unfoldable pub ips_to_names : List PodInfo → Assoc String → Assoc String
unfolding insert
ips_to_names [] names = names
ips_to_names (pod ∷ pods) names = ips_to_names pods (insert pod.ip pod.name names)

abbrev pub or_unknown : Option String → String
or_unknown none = "unknown"
or_unknown (some rack) = rack

module _ {P : Platform} where
  abbrev pub node_labels : Cluster P → String → String → LabelPair → List String
  node_labels c rack pod l =
      c.definition.name ∷ c.definition.namespace ∷ rack ∷ pod ∷ l.liveness ∷ l.state ∷ []

  abbrev pub size_labels : Cluster P → List String
  size_labels c = c.definition.name ∷ c.definition.namespace ∷ []

module _ {P : Platform} (K : Environment P) where
  unfoldable pub set_each : Cluster P → String → String → ℕ → List LabelPair → K.Gauge → K.Gauge
  set_each c rack pod v [] g = g
  set_each c rack pod v (l ∷ ls) g =
      set_each c rack pod v ls (K.set_gauge (node_labels c rack pod l) v g)

  unfoldable pub update_node_status : Cluster P → String → String → Node → K.Gauge → K.Gauge
  unfolding set_each applicable_label_pair unapplicable_label_pairs
  update_node_status c rack pod n g =
      set_each c rack pod 0 (unapplicable_label_pairs n)
        (K.set_gauge (node_labels c rack pod (applicable_label_pair n)) 1 g)

  unfoldable pub delete_each : Cluster P → String → String → List LabelPair → K.Gauge → K.Gauge
  delete_each c rack pod [] g = g
  delete_each c rack pod (l ∷ ls) g =
      delete_each c rack pod ls (K.delete_gauge (node_labels c rack pod l) g).1

  unfoldable pub remove_node_from_metrics : Cluster P → String → String → K.Gauge → K.Gauge
  unfolding delete_each
  remove_node_from_metrics c pod rack g = delete_each c rack pod all_label_pairs g

  unfoldable pub remove_nodes : Cluster P → Assoc String → K.Gauge → K.Gauge
  unfolding remove_node_from_metrics
  remove_nodes c [] g = g
  remove_nodes c ((pod, rack) ∷ nodes) g =
      remove_nodes c nodes (remove_node_from_metrics c pod rack g)

  -- One address of UpdateMetrics' loop: an address of no known pod is skipped.
  abbrev pub update_node :
      Cluster P
      → Assoc String
      → Assoc String
      → String
      → Node
      → Assoc String × K.Gauge
      → Assoc String × K.Gauge
  update_node c names racks ip n (topology, g) = elim (lookup ip names) [
    | none ↦ (topology, g)
    | some pod ↦
        let rack = or_unknown (lookup ip racks) in
        (insert pod rack topology, update_node_status c rack pod n g)
  ]

  unfoldable pub update_nodes :
      Cluster P
      → Assoc String
      → Assoc String
      → Assoc Node
      → Assoc String × K.Gauge
      → Assoc String × K.Gauge
  unfolding update_node_status lookup insert
  update_nodes c names racks [] s = s
  update_nodes c names racks ((ip, n) ∷ nodes) s =
      update_nodes c names racks nodes (update_node c names racks ip n s)

module _ {P : Platform} {K : Environment P} where
  unfoldable pub delete_metrics : Cluster P → M K (Unit {0})
  unfolding remove_nodes lookup delete qualified_name
  delete_metrics c w =
      let key = qualified_name c.definition in
      let w1 = record w { cluster_size = (K.delete_gauge (size_labels c) w.cluster_size).1 } in
      elim (lookup key w.topology) [
        | none ↦ done tt w1
        | some nodes ↦ done tt (record w1 {
          node_status = remove_nodes K c nodes w.node_status;
          topology = delete key w.topology;
        })
      ]

  -- What UpdateMetrics writes, from the pods and the status that it read.
  unfoldable pub publish : Cluster P → List PodInfo → ClusterStatus → World K → World K
  unfolding ips_to_names update_nodes transform_cluster_status insert qualified_name
  publish c pods status w =
      let (nodes, g) =
        update_nodes K c (ips_to_names pods []) status.node_racks (transform_cluster_status status)
          ([], w.node_status) in
      record w {
        node_status = g;
        topology = insert (qualified_name c.definition) nodes w.topology;
        cluster_size = K.set_gauge (size_labels c) (length nodes) w.cluster_size;
      }

  gathered : Cluster P → List PodInfo → Result String ClusterStatus → M K (Unit {0})
  unfolding publish
  gathered c pods (err e) w = done tt w
  gathered c pods (ok status) w = done tt (publish c pods status w)

  listed_pods : Cluster P → Result String (List PodInfo) → M K (Unit {0})
  unfolding gather_metrics_for gathered
  listed_pods c (err e) = pure tt
  listed_pods c (ok pods) = do r ← gather_metrics_for c; gathered c pods r

  unfoldable pub update_metrics : Cluster P → M K (Unit {0})
  unfolding listed_pods
  update_metrics c = do
    pods ← reads (K.list_pod_infos c.definition.namespace ("app=" <> c.definition.name))
    listed_pods c pods
