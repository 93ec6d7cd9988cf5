-- ===== src/Operator/EndToEnd.antt =====
-- From the notification of a new Cassandra resource to what is sent to Kubernetes: the callback, the
-- receiver that the dispatcher calls with its events, and the operation.
use cassandra_operator.Base.{
  ℕ, String, ◌<>◌, ◌≡◌, refl, ap, ◌∙◌, sym, Bool, none, some, List, [], ◌∷◌, arith, get_elem?, set,
  get_elem?-set, ok,
}
use mathlib.Core.Path.{subst}
use cassandra_operator.Platform.{Platform}
use cassandra_operator.Api.{Cassandra, qualified_name}
use cassandra_operator.Cluster.Definition.{prepare}
use cassandra_operator.World.{Environment, World, Outcome, M, done, panicked, waiting, ◌>>=◌, ◌>>◌}
use cassandra_operator.Receiver.{
  cluster_added, receive, operations_to_execute, execute_all, execute, operations_for_add_cluster,
}
use cassandra_operator.Accessor.Accepting.{Accepting}
use cassandra_operator.Operations.{add_cluster}
use cassandra_operator.Operations.Clusters.{execute_add_cluster}
use cassandra_operator.World.{Ends}
use cassandra_operator.Operations.Clusters.Addition.{Added, Unclaimed, execute_add_cluster-Added}
use cassandra_operator.Operator.Noticed.{taken, adjust_run}
use cassandra_operator.Operator.Handlers.{Message, on_cluster_added}
use cassandra_operator.Operator.Wiring.{Notification, cassandra_added, notify}

module _ {P : Platform} where
  abbrev message_for : Bool → ℕ → Cassandra P → Message
  message_for allow d n = record {
    kind = "ADD_CLUSTER";
    key = qualified_name (taken allow n);
    data_of = cluster_added d;
  }

module _ {P : Platform} {K : Environment P} where
  abbrev and_then : {A B : Type 0} → Outcome K A → (A → M K B) → Outcome K B
  and_then o f = elim o [ done a v ↦ f a v | panicked v ↦ panicked v | waiting v ↦ waiting v ]

  -- dispatcher.New(receiver.Receive, stopCh): each event that is dispatched is received.
  unfoldable pub handle_all : List Message → M K (Unit {0})
  unfolding receive
  handle_all [] w = done tt w
  handle_all (message ∷ messages) w =
      let rest = handle_all messages in (do receive message.data_of; rest) w

  -- A notification with the handling of everything that it dispatches.
  unfoldable pub handle : Bool → Notification → M K (Unit {0})
  unfolding notify handle_all
  handle allow notification = do messages ← notify allow notification; handle_all messages

  -- The world once the callback has written to the definition.
  abbrev pub noticed : Bool → World K → ℕ → Cassandra P → World K
  noticed allow w d n = record w { definitions = set w.definitions d (taken allow n) }

  returns-same :
      (o : Outcome K (Unit {0}))
      → (elim o as (λ x. Outcome K (Unit {0})) [
        | done r v ↦ done tt v
        | panicked v ↦ panicked v
        | waiting v ↦ waiting v
      ])
        ≡ o
  returns-same (done r v) = refl
  returns-same (panicked v) = refl
  returns-same (waiting v) = refl

  operations_to_execute-added :
      (v : World K) (d : ℕ) (m : Cassandra P)
      → get_elem? v.definitions d ≡ some m
      → m.spec.snapshot ≡ none
      → operations_to_execute (cluster_added d) v ≡ done (add_cluster d ∷ []) v
  unfolding operations_to_execute operations_for_add_cluster
  operations_to_execute-added v d m at no_snapshot = ground (arith, at, no_snapshot)

  receive-added :
      (v : World K) (d : ℕ) (m : Cassandra P)
      → get_elem? v.definitions d ≡ some m
      → m.spec.snapshot ≡ none
      → receive (cluster_added d) v ≡ execute_add_cluster d v
  unfolding receive execute_all execute
  receive-added v d m at no_snapshot =
      ap (λ o. and_then o execute_all) (operations_to_execute-added v d m at no_snapshot)
      ∙ returns-same (execute_add_cluster d v)

  notify-added :
      (allow : Bool) (w : World K) (d : ℕ) (n : Cassandra P)
      → get_elem? w.definitions d ≡ some n
      → notify allow (cassandra_added d) w ≡ done (message_for allow d n ∷ []) (noticed allow w d n)
  unfolding notify on_cluster_added
  notify-added allow w d n at = ground (arith, adjust_run allow d n w at)

  handle-added :
      (allow : Bool) (w : World K) (d : ℕ) (n : Cassandra P)
      → get_elem? w.definitions d ≡ some n
      → n.spec.snapshot ≡ none
      → handle allow (cassandra_added d) w ≡ execute_add_cluster d (noticed allow w d n)
  unfolding handle handle_all
  handle-added allow w d n at no_snapshot =
      ap (λ o. and_then o handle_all) (notify-added allow w d n at)
      ∙ returns-same (receive (cluster_added d) (noticed allow w d n))
      ∙ receive-added (noticed allow w d n) d (taken allow n)
          (get_elem?-set w.definitions d n (taken allow n) at) no_snapshot

  -- If Kubernetes accepts every service and stateful set and each wait for a rack ends, the notification
  -- of a new Cassandra resource that asks for no snapshots, passes the checks and whose label nothing
  -- has leads, through the callback, the receiver and the operation, to an online cluster: it is known
  -- under its qualified name, and its service and then the stateful set of each rack have been sent.
  -- The definition that counts is the notified one without useEmptyDir where the operator does not allow
  -- it.
  pub handle-Added :
      (accepting : Accepting K) (allow : Bool) (w : World K) (d : ℕ) (n s : Cassandra P)
      (j : String)
      → get_elem? w.definitions d ≡ some n
      → n.spec.snapshot ≡ none
      → (prepare (taken allow n)).0 ≡ ok s
      → Unclaimed K s
          (K.get_config_map (taken allow n).namespace ((taken allow n).name <> "-config") w.kube).1
      → Ends
          (Added (noticed allow w d n) d (taken allow n) s j)
          (handle allow (cassandra_added d) w)
  handle-Added accepting allow w d n s j at no_snapshot valid free =
      subst (Ends (Added (noticed allow w d n) d (taken allow n) s j))
        (sym (handle-added allow w d n at no_snapshot))
        (execute_add_cluster-Added accepting (noticed allow w d n) d (taken allow n) s j
          (get_elem?-set w.definitions d n (taken allow n) at) valid free)
