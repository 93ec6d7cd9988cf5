-- ===== src/Metrics/Readings/Published.antt =====
-- cassandra-operator/pkg/metrics/prometheus.go: UpdateMetrics' loop over the addresses, and the gauges
-- that it leaves.
use cassandra_operator.Base.{
  ℕ, String, ◌==◌, ==_iff, ◌≡◌, ◌∙◌, ◌≢◌, refl, inl, inr, Bool, true, false, none, some, List, [],
  ◌∷◌, arith, Bool-cases, Option-cases,
}
use cassandra_operator.Base.Assoc.{Assoc, lookup, insert, lookup-insert}
use cassandra_operator.Platform.{Platform}
use cassandra_operator.Cluster.{Cluster}
use cassandra_operator.World.{Environment, PodInfo, World}
use cassandra_operator.Metrics.{ClusterStatus}
use cassandra_operator.Metrics.NodeStatus.{
  Node, LabelPair, all_label_pairs, applicable_label_pair, unapplicable_label_pairs,
  transform_cluster_status, mark, or_blank, set_up, set_down, set_leaving, set_moving, set_joining,
}
use cassandra_operator.Metrics.NodeStatus.Laws.{known, status_of, lookup-transform_cluster_status}
use cassandra_operator.Metrics.Prometheus.{
  node_labels, or_unknown, ips_to_names, set_each, update_node_status, update_node, update_nodes,
  publish,
}
use cassandra_operator.Metrics.Readings.{
  Readable, same_labels, pair_in, reading, reads-update_node_status,
}

-- No key stands twice in a table.
unfoldable pub keys_distinct : {A : Type 0} → Assoc A → Bool
unfolding lookup
keys_distinct [] = true
keys_distinct ((key, value) ∷ table) =
    let rest = keys_distinct table in elim (lookup key table) [ none ↦ rest | some other ↦ false ]

keys_distinct-insert :
    {A : Type 0} (key : String) (value : A) (table : Assoc A)
    → keys_distinct table ≡ true
    → keys_distinct (insert key value table) ≡ true
unfolding keys_distinct insert lookup
keys_distinct-insert key value [] d = refl
keys_distinct-insert key value ((k, v) ∷ table) d = ground (
  arith,
  d,
  ==_iff k key,
  ==_iff key k,
  keys_distinct-insert key value table,
  lookup-insert key k value table,
)

keys_distinct-mark :
    (assign : Node → Node) (ips : List String) (nodes : Assoc Node)
    → keys_distinct nodes ≡ true
    → keys_distinct (mark assign ips nodes) ≡ true
unfolding mark
keys_distinct-mark assign [] nodes d = d
keys_distinct-mark assign (ip ∷ ips) nodes d =
    let v = assign (or_blank (lookup ip nodes)) in
    keys_distinct-mark assign ips (insert ip v nodes) (keys_distinct-insert ip v nodes d)

keys_distinct-transform_cluster_status :
    (s : ClusterStatus) → keys_distinct (transform_cluster_status s) ≡ true
unfolding transform_cluster_status keys_distinct
keys_distinct-transform_cluster_status s = keys_distinct-mark set_joining s.joining_nodes _ (
    keys_distinct-mark set_moving s.moving_nodes _ (
      keys_distinct-mark set_leaving s.leaving_nodes _ (
        keys_distinct-mark set_down s.unreachable_nodes _
          (keys_distinct-mark set_up s.live_nodes [] refl))))

module _ {P : Platform} {K : Environment P} (R : Readable K) (c : Cluster P) where
  -- The labels of another pod are not the labels of this one.
  other_pod :
      (rack rack' pod pod' : String) (l m : LabelPair)
      → pod' ≢ pod
      → same_labels (node_labels c rack' pod' m) (node_labels c rack pod l) ≡ false
  unfolding same_labels
  other_pod rack rack' pod pod' l m other = ground (arith, ==_iff pod' pod, other)

  set_each-other :
      (rack rack' pod pod' : String) (v : ℕ) (l : LabelPair) (ls : List LabelPair) (g : K.Gauge)
      → pod' ≢ pod
      → R.reads (node_labels c rack pod l) (set_each K c rack' pod' v ls g)
        ≡ R.reads (node_labels c rack pod l) g
  unfolding set_each
  set_each-other rack rack' pod pod' v l [] g other = refl
  set_each-other rack rack' pod pod' v l (m ∷ ms) g other = ground (
    arith,
    set_each-other rack rack' pod pod' v l ms (K.set_gauge (node_labels c rack' pod' m) v g) other,
    R.reads-set (node_labels c rack' pod' m) (node_labels c rack pod l) v g,
    other_pod rack rack' pod pod' l m other,
  )

  update_node_status-other :
      (rack rack' pod pod' : String) (n : Node) (l : LabelPair) (g : K.Gauge)
      → pod' ≢ pod
      → R.reads (node_labels c rack pod l) (update_node_status K c rack' pod' n g)
        ≡ R.reads (node_labels c rack pod l) g
  unfolding update_node_status
  update_node_status-other rack rack' pod pod' n l g other =
      let a = applicable_label_pair n in
      ground (
        arith,
        set_each-other rack rack' pod pod' 0 l (unapplicable_label_pairs n)
            (K.set_gauge (node_labels c rack' pod' a) 1 g) other,
        R.reads-set (node_labels c rack' pod' a) (node_labels c rack pod l) 1 g,
        other_pod rack rack' pod pod' l a other,
      )

  module _ (names racks : Assoc String) (ip pod : String) (l : LabelPair)
      (named : lookup ip names ≡ some pod)
      (only : (other : String) → lookup other names ≡ some pod → other ≡ ip) where
    labels : List String
    labels = node_labels c (or_unknown (lookup ip racks)) pod l

    update_node-other :
        (other : String) (n : Node) (s : Assoc String × K.Gauge)
        → other ≢ ip
        → R.reads labels (update_node K c names racks other n s).1 ≡ R.reads labels s.1
    unfolding labels
    update_node-other other n s apart = elim (Option-cases (lookup other names)) [
      | inl absent ↦ ground (arith, absent)
      | inr (p, present) ↦ ground (
        arith,
        present,
        update_node_status-other (or_unknown (lookup ip racks)) (or_unknown (lookup other racks))
            pod p n l s.1 (λ same. apart (only other (cc (present, same)))),
      )
    ]

    update_nodes-absent :
        (nodes : Assoc Node) (s : Assoc String × K.Gauge)
        → lookup ip nodes ≡ none
        → R.reads labels (update_nodes K c names racks nodes s).1 ≡ R.reads labels s.1
    unfolding update_nodes lookup
    update_nodes-absent [] s h = refl
    update_nodes-absent ((other, n) ∷ nodes) s h =
        let apart : other ≢ ip = λ same. ground (arith, ==_iff other ip, same, h) in
        let rest : lookup ip nodes ≡ none = ground (arith, ==_iff other ip, h) in
        update_nodes-absent nodes (update_node K c names racks other n s) rest
        ∙ update_node-other other n s apart

    reads-update_nodes :
        (nodes : Assoc Node) (s : Assoc String × K.Gauge) (n : Node)
        → keys_distinct nodes ≡ true
        → lookup ip nodes ≡ some n
        → pair_in l all_label_pairs ≡ true
        → R.reads labels (update_nodes K c names racks nodes s).1 ≡ reading n l
    unfolding update_nodes lookup labels keys_distinct
    reads-update_nodes [] s n d h member = ground (arith, h)
    reads-update_nodes ((other, m) ∷ nodes) s n d h member = elim (Bool-cases (other == ip)) [
      | inl same ↦ ground (
        arith,
        same,
        d,
        h,
        named,
        member,
        ==_iff other ip,
        update_nodes-absent nodes (update_node K c names racks other m s),
        reads-update_node_status R c (or_unknown (lookup ip racks)) pod n l s.1,
      )
      | inr apart ↦ ground (
        arith,
        apart,
        d,
        h,
        member,
        reads-update_nodes nodes (update_node K c names racks other m s) n,
      )
    ]

  -- After UpdateMetrics has published a status, the gauge of a pod under each of the eight pairs of
  -- labels reads 1 for the pair that the status implies for the pod's node, and 0 for the other seven.
  -- This is so for a pod that exactly one address names among the pods, when the status knows the address.
  pub reads-publish :
      (pods : List PodInfo) (status : ClusterStatus) (ip pod : String) (l : LabelPair) (w : World K)
      → lookup ip (ips_to_names pods []) ≡ some pod
      → ((other : String) → lookup other (ips_to_names pods []) ≡ some pod → other ≡ ip)
      → known status ip ≡ true
      → pair_in l all_label_pairs ≡ true
      → R.reads
          (node_labels c (or_unknown (lookup ip status.node_racks)) pod l)
          (publish c pods status w).node_status
        ≡ reading (status_of status ip) l
  unfolding publish transform_cluster_status labels
  reads-publish pods status ip pod l w named only k member =
      reads-update_nodes (ips_to_names pods []) status.node_racks ip pod l named only
        (transform_cluster_status status) ([], w.node_status) (status_of status ip)
        (keys_distinct-transform_cluster_status status)
        (ground (arith, k, lookup-transform_cluster_status status ip)) member
