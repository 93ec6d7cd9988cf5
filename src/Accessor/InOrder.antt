-- ===== src/Accessor/InOrder.antt =====
-- What is sent while stateful sets are created rack by rack, whatever Kubernetes answers.
use cassandra_operator.Base.{
  String, ◌≡◌, refl, ap, ◌∙◌, sym, inl, inr, Option, List, [], ◌∷◌, ◌++◌, map, Result, ok, err,
  Bool-cases, Option-cases,
}
use mathlib.Core.List.{append_assoc, append-nil}
use cassandra_operator.Base.Int.{ℤ}
use cassandra_operator.Platform.{Platform}
use cassandra_operator.Api.{Rack}
use cassandra_operator.Kube.{ConfigMap}
use cassandra_operator.Cluster.{Cluster}
use cassandra_operator.Cluster.Resources
use cassandra_operator.World.{
  Environment, World, Outcome, done, panicked, waiting, M, Request, SetStatus, AppliedSet,
  waiting_for_stateful_set_change,
}
use cassandra_operator.Accessor.{
  change_applied, poll, wait_until_rack_change_applied, create_stateful_set_for_rack,
}
use cassandra_operator.Accessor.StatefulSets.{register_stateful_set, set_created, for_each_rack}
use cassandra_operator.Accessor.Accepting.{set_request}

module _ {P : Platform} {K : Environment P} where
  -- The world in which a run returns, panics or waits for ever.
  unfoldable pub final : {A : Type 0} → Outcome K A → World K
  final (done a v) = v
  final (panicked v) = v
  final (waiting v) = v

  -- What a run has sent is a first part of the requests.
  pub record Begins {A : Type 0} (w : World K) (all : List (Request P)) (o : Outcome K A)
      : Type 0 where
    pub sent : List (Request P)
    pub unsent : List (Request P)
    pub split : all ≡ (sent ++ unsent)
    pub requests : (final o).requests ≡ (w.requests ++ sent)

  pub quiet-Begins :
      {A : Type 0} (w : World K) (all : List (Request P)) (o : Outcome K A)
      → (final o).requests ≡ w.requests
      → Begins w all o
  quiet-Begins w all o h = record {
    sent = [];
    unsent = all;
    split = refl;
    requests = h ∙ sym (append-nil w.requests);
  }

  -- Something that sends one request is followed by something that begins with others.
  pub one-Begins :
      {A B : Type 0} (w : World K) (request : Request P) (all : List (Request P)) (o : Outcome K A)
      (next : A → M K B)
      → (final o).requests ≡ (w.requests ++ request ∷ [])
      → ((a : A) (v : World K) → Begins v all (next a v))
      → Begins w
          (request ∷ all)
          (elim o [ done a v ↦ next a v | panicked v ↦ panicked v | waiting v ↦ waiting v ])
  unfolding final
  one-Begins w request all (done a v) next h rest =
      let r = rest a v in
      record {
        sent = request ∷ r.sent;
        unsent = r.unsent;
        split = ap (λ l. request ∷ l) r.split;
        requests =
            r.requests ∙ ap (λ l. l ++ r.sent) h ∙ append_assoc w.requests (request ∷ []) r.sent;
      }
  one-Begins w request all (panicked v) next h rest = record {
    sent = request ∷ [];
    unsent = all;
    split = refl;
    requests = h;
  }
  one-Begins w request all (waiting v) next h rest = record {
    sent = request ∷ [];
    unsent = all;
    split = refl;
    requests = h;
  }

  -- What sends nothing, and does not depend on what came before it, comes last.
  pub Begins-then :
      {A B : Type 0} (w : World K) (all : List (Request P)) (o : Outcome K A) (next : A → M K B)
      → ((a : A) (v : World K) → (final (next a v)).requests ≡ v.requests)
      → Begins w all o
      → Begins w all
          (elim o [ done a v ↦ next a v | panicked v ↦ panicked v | waiting v ↦ waiting v ])
  unfolding final
  Begins-then w all (done a v) next h b = record {
    sent = b.sent;
    unsent = b.unsent;
    split = b.split;
    requests = h a v ∙ b.requests;
  }
  Begins-then w all (panicked v) next h b = record {
    sent = b.sent;
    unsent = b.unsent;
    split = b.split;
    requests = b.requests;
  }
  Begins-then w all (waiting v) next h b = record {
    sent = b.sent;
    unsent = b.unsent;
    split = b.split;
    requests = b.requests;
  }

  poll-requests :
      (answers : List (Result String SetStatus)) (generation : ℤ) (w : World K)
      → (final (poll answers generation w)).requests ≡ w.requests
  unfolding poll final
  poll-requests [] generation w = refl
  poll-requests (err e ∷ answers) generation w = refl
  poll-requests (ok s ∷ answers) generation w = elim (Bool-cases (change_applied s generation)) [
    | inl applied ↦ rw applied refl
    | inr waits ↦ rw waits (
        poll-requests answers generation
          (record w { events = w.events ++ waiting_for_stateful_set_change ∷ [] }))
  ]

  wait-requests :
      (c : Cluster P) (sts : AppliedSet P) (w : World K)
      → (final (wait_until_rack_change_applied c sts w)).requests ≡ w.requests
  unfolding wait_until_rack_change_applied final
  wait-requests c sts w =
      let answers = K.observe sts.object.metadata.namespace sts.object.metadata.name w.kube in
      elim (Option-cases c.definition.spec.pod.readiness_probe) [
        | inl absent ↦ rw absent refl
        | inr present ↦ rw present.1 (
            poll-requests answers.0 sts.generation (record w {
              events = w.events ++ waiting_for_stateful_set_change ∷ [];
              kube = answers.1;
            }))
      ]

  set_created-requests :
      (c : Cluster P) (r : Result String (AppliedSet P)) (w : World K)
      → (final (set_created c r w)).requests ≡ w.requests
  unfolding set_created final
  set_created-requests c (err e) w = refl
  set_created-requests c (ok sts) w =
      go (wait_until_rack_change_applied c sts w) (wait-requests c sts w)
    where
      go :
          (o : Outcome K (Result String (Unit {0})))
          → (final o).requests ≡ w.requests
          → (final {A = Result String (Unit {0})} (elim o [
            | done a v ↦ done (ok tt) v
            | panicked v ↦ panicked v
            | waiting v ↦ waiting v
          ])).requests
            ≡ w.requests
      go (done a v) h = h
      go (panicked v) h = h
      go (waiting v) h = h

  register-requests :
      (c : Cluster P) (rack : Rack) (cm : Option ConfigMap) (w : World K)
      → (final (register_stateful_set c rack cm w)).requests
        ≡ (w.requests ++ set_request c cm rack ∷ [])
  unfolding register_stateful_set create_stateful_set_for_rack
  register-requests c rack cm w =
      let object = Resources.create_stateful_set_for_rack c rack cm in
      let answer = K.create_stateful_set c.definition.namespace object w.kube in
      set_created-requests c answer.0
        (record w { kube = answer.1; requests = w.requests ++ set_request c cm rack ∷ [] })

  -- The racks behind one that fails are not reached.
  go_on-Begins :
      (w : World K) (all : List (Request P)) (r : Result String (Unit {0}))
      (next : M K (Result String (Unit {0})))
      → Begins w all (next w)
      → Begins w all (
          (elim r as (λ x. M K (Result String (Unit {0}))) [
            | ok _ ↦ next
            | err e ↦ (λ v. done (err e) v)
          ])
            w)
  unfolding final
  go_on-Begins w all (ok _) next b = b
  go_on-Begins w all (err e) next b = quiet-Begins w all _ refl

  pub racks-Begins :
      (c : Cluster P) (cm : Option ConfigMap) (racks : List Rack) (w : World K)
      → Begins w
          (map (set_request c cm) racks)
          (for_each_rack racks (λ rack. register_stateful_set c rack cm) w)
  unfolding for_each_rack final
  racks-Begins c cm [] w = quiet-Begins w [] _ refl
  racks-Begins c cm (rack ∷ racks) w =
      one-Begins w (set_request c cm rack) (map (set_request c cm) racks)
        (register_stateful_set c rack cm w)
        (λ r. elim r [
          | ok _ ↦ for_each_rack racks (λ rack. register_stateful_set c rack cm)
          | err e ↦ (λ v. done (err e) v)
        ])
        (register-requests c rack cm w)
        (λ r v.
          go_on-Begins v _ r (for_each_rack racks (λ rack. register_stateful_set c rack cm))
            (racks-Begins c cm racks v))
