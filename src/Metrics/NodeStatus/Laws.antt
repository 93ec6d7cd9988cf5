-- ===== src/Metrics/NodeStatus/Laws.antt =====
-- What the status of a node is, from the lists that name it.
use cassandra_operator.Base.{
  ℕ, ◌+◌, Bool-cases, inl, inr, String, ◌==◌, ==_iff, ◌≡◌, refl, Bool, true, false, not, ◌&&◌, ◌||◌,
  none, some, List, [], ◌∷◌, arith, if◌then◌else◌,
}
use mathlib.Core.Path.{subst}
use mathlib.Core.List.{Perm}
use mathlib.Core.List.Perm
use cassandra_operator.Base.Assoc.{Assoc, lookup, insert, lookup-insert}
use cassandra_operator.Metrics.{ClusterStatus}
use cassandra_operator.Metrics.NodeStatus.{
  Node, set_up, set_down, set_leaving, set_moving, set_joining, or_blank, mark,
  transform_cluster_status, applicable_label_pair, unapplicable_label_pairs, all_label_pairs, pair,
  liveness_label, state_label, same_pair, pairs_other_than, LabelPair,
}

unfoldable pub listed : String → List String → Bool
listed ip [] = false
listed ip (x ∷ xs) = x == ip || listed ip xs

module _ (assign : Node → Node) (idem : (n : Node) → assign (assign n) ≡ assign n) where
  lookup-mark :
      (ip : String) (ips : List String) (nodes : Assoc Node)
      → lookup ip (mark assign ips nodes)
        ≡ (if listed ip ips then some (assign (or_blank (lookup ip nodes))) else lookup ip nodes)
  unfolding mark listed
  lookup-mark ip [] nodes = refl
  lookup-mark ip (x ∷ ips) nodes = ground (
    arith,
    ==_iff x ip,
    lookup-mark ip ips (insert x (assign (or_blank (lookup x nodes))) nodes),
    lookup-insert x ip (assign (or_blank (lookup x nodes))) nodes,
    idem (or_blank (lookup ip nodes)),
  )

-- The status of a node that some list names: unreachable wins over live, joining over moving, and
-- moving over leaving.
abbrev pub status_of : ClusterStatus → String → Node
status_of s ip = record {
  up = listed ip s.live_nodes && not (listed ip s.unreachable_nodes);
  down = listed ip s.unreachable_nodes;
  joining = listed ip s.joining_nodes;
  leaving =
      listed ip s.leaving_nodes
      && not (listed ip s.moving_nodes)
      && not (listed ip s.joining_nodes);
  moving = listed ip s.moving_nodes && not (listed ip s.joining_nodes);
}

abbrev pub known : ClusterStatus → String → Bool
known s ip =
    listed ip s.live_nodes
    || listed ip s.unreachable_nodes
    || listed ip s.leaving_nodes
    || listed ip s.moving_nodes
    || listed ip s.joining_nodes

-- transformClusterStatus gives each address that some list names the status that the lists imply, and
-- no status to any other address.
pub lookup-transform_cluster_status :
    (s : ClusterStatus) (ip : String)
    → lookup ip (transform_cluster_status s) ≡ (if known s ip then some (status_of s ip) else none)
unfolding transform_cluster_status
lookup-transform_cluster_status s ip =
    rw
      (
        lookup-mark set_joining (λ n. refl) ip s.joining_nodes,
        lookup-mark set_moving (λ n. refl) ip s.moving_nodes,
        lookup-mark set_leaving (λ n. refl) ip s.leaving_nodes,
        lookup-mark set_down (λ n. refl) ip s.unreachable_nodes,
        lookup-mark set_up (λ n. refl) ip s.live_nodes,
      )
      (unfold lookup in ground arith)

-- How often a pair is among some pairs.
occurrences : LabelPair → List LabelPair → ℕ
occurrences a [] = 0
occurrences a (l ∷ ls) = let rest = occurrences a ls in if same_pair l a then 1 + rest else rest

pairs_other_than-absent :
    (a : LabelPair) (ls : List LabelPair) → occurrences a ls ≡ 0 → pairs_other_than a ls ≡ ls
unfolding occurrences pairs_other_than
pairs_other_than-absent a [] h = refl
pairs_other_than-absent a (l ∷ ls) h = ground (arith, h, pairs_other_than-absent a ls)

-- A pair that occurs once, put in front of the others, gives all pairs.
pairs_other_than-perm :
    (a : LabelPair) (ls : List LabelPair)
    → occurrences a ls ≡ 1
    → Perm (a ∷ pairs_other_than a ls) ls
unfolding occurrences pairs_other_than
pairs_other_than-perm a [] h = absurd (ground (arith, h))
pairs_other_than-perm a (l ∷ ls) h = elim (Bool-cases (same_pair l a)) [
  | inl same ↦
      subst (λ ms. Perm ms (l ∷ ls))
        (ground (
          arith,
          same,
          h,
          ==_iff l.liveness a.liveness,
          ==_iff l.state a.state,
          pairs_other_than-absent a ls,
        ))
        (Perm.refl (l ∷ ls))
  | inr apart ↦
      subst (λ ms. Perm (a ∷ ms) (l ∷ ls)) (ground (arith, apart))
        (Perm.trans (Perm.swap l a (pairs_other_than a ls))
          (Perm.cons l (pairs_other_than-perm a ls (ground (arith, apart, h)))))
]

once_at :
    (u j l m : Bool)
    → occurrences
        (pair
          (if u then "up" else "down")
          (if j then "joining" else if l then "leaving" else if m then "moving" else "normal"))
        all_label_pairs
      ≡ 1
unfolding occurrences ◌==◌
once_at true true l m = refl
once_at true false true m = refl
once_at true false false true = refl
once_at true false false false = refl
once_at false true l m = refl
once_at false false true m = refl
once_at false false false true = refl
once_at false false false false = refl

once : (n : Node) → occurrences (applicable_label_pair n) all_label_pairs ≡ 1
unfolding applicable_label_pair liveness_label state_label
once n = once_at n.up n.joining n.leaving n.moving

-- The pair of labels that is set to 1 and those that are set to 0 are all pairs, each once.
pub applicable-unapplicable-perm :
    (n : Node) → Perm (applicable_label_pair n ∷ unapplicable_label_pairs n) all_label_pairs
unfolding unapplicable_label_pairs
applicable-unapplicable-perm n =
    pairs_other_than-perm (applicable_label_pair n) all_label_pairs (once n)
