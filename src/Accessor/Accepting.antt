-- ===== src/Accessor/Accepting.antt =====
-- The stateful sets that are created rack by rack when Kubernetes accepts them.
use cassandra_operator.Base.{
  String, ◌≡◌, refl, ap, sym, Bool, true, false, inl, inr, Option, some, List, [], ◌∷◌, ◌++◌, map,
  arith, if◌then◌else◌, Result, ok, err, Bool-cases,
}
use mathlib.Core.List.{append_assoc, append-nil}
use cassandra_operator.Base.Int.{ℤ}
use cassandra_operator.Platform.{Platform}
use cassandra_operator.Api.{Rack, Probe}
use cassandra_operator.Kube.{ConfigMap, Service, StatefulSet}
use cassandra_operator.Cluster.{Cluster}
use cassandra_operator.Cluster.Resources
use cassandra_operator.World.{
  Environment, World, Outcome, done, Reason, Request, SetStatus, AppliedSet,
  waiting_for_stateful_set_change, stateful_set_created,
}
use cassandra_operator.Accessor.{
  change_applied, poll, wait_until_rack_change_applied, create_stateful_set_for_rack,
}
use cassandra_operator.Accessor.StatefulSets.{register_stateful_set, set_created, for_each_rack}

-- Some answer ends the wait for a generation: a read that fails, or the change applied.
unfoldable pub ends_wait : List (Result String SetStatus) → ℤ → Bool
ends_wait [] generation = false
ends_wait (err e ∷ answers) generation = true
ends_wait (ok s ∷ answers) generation =
    let rest = ends_wait answers generation in if change_applied s generation then true else rest

-- Some answer has the change applied, and every answer before it was read.
unfoldable pub applies : List (Result String SetStatus) → ℤ → Bool
applies [] generation = false
applies (err e ∷ answers) generation = false
applies (ok s ∷ answers) generation =
    let rest = applies answers generation in if change_applied s generation then true else rest

-- A change that is applied ends the wait.
pub applies-ends_wait :
    (answers : List (Result String SetStatus)) (generation : ℤ)
    → applies answers generation ≡ true
    → ends_wait answers generation ≡ true
unfolding applies ends_wait
applies-ends_wait [] generation h = h
applies-ends_wait (err e ∷ answers) generation h = refl
applies-ends_wait (ok s ∷ answers) generation h =
    ground (arith, h, applies-ends_wait answers generation)

abbrev pub IsOk : {A : Type 0} → Result String A → Type 0
IsOk (ok a) = Unit
IsOk (err e) = ⊥

-- The answers to the reads of a wait.
abbrev pub observed_of :
    {P : Platform} (K : Environment P) → AppliedSet P → K.State → List (Result String SetStatus)
observed_of K sts k = (K.observe sts.object.metadata.namespace sts.object.metadata.name k).0

-- A Kubernetes that accepts every service and stateful set, and answers the reads of the wait for a
-- stateful set that has been created until it ends.
pub record Accepting {P : Platform} (K : Environment P) : Type 0 where
  pub services : (n : String) (s : Service) (k : K.State) → (K.create_service n s k).0 ≡ ok tt
  pub sets : (n : String) (s : StatefulSet P) (k : K.State) → IsOk (K.create_stateful_set n s k).0
  pub waits :
      (n : String) (s : StatefulSet P) (k : K.State) (sts : AppliedSet P)
      → (K.create_stateful_set n s k).0 ≡ ok sts
      → ends_wait (observed_of K sts (K.create_stateful_set n s k).1) sts.generation ≡ true

abbrev pub set_request : {P : Platform} → Cluster P → Option ConfigMap → Rack → Request P
set_request c cm rack =
    stateful_set_created c.definition.namespace (Resources.create_stateful_set_for_rack c rack cm)

module _ {P : Platform} {K : Environment P} where
  -- The run returns, and has only recorded events and asked for things.
  pub record Sent {A : Type 0} (w : World K) (sent : List (Request P)) (Q : A → Type 0)
      (o : Outcome K A) : Type 0 where
    pub kube : K.State
    pub log : List Reason
    pub result : A
    pub run :
        o ≡ done result (record w { kube = kube; events = log; requests = w.requests ++ sent })
    pub good : Q result

  poll-Sent :
      (answers : List (Result String SetStatus)) (generation : ℤ) (w : World K)
      → ends_wait answers generation ≡ true
      → Sent w [] (λ r. applies answers generation ≡ true → r ≡ ok tt) (poll answers generation w)
  unfolding poll ends_wait applies
  poll-Sent [] generation w h = ground (arith, h)
  poll-Sent (err e ∷ answers) generation w h = record {
    kube = w.kube;
    log = w.events;
    result = err e;
    good = λ a. ground (arith, a);
    run = ap (λ l. done (err e) (record w { requests = l })) (sym (append-nil w.requests));
  }
  poll-Sent (ok s ∷ answers) generation w h = elim (Bool-cases (change_applied s generation)) [
    | inl applied ↦ record {
      kube = w.kube;
      log = w.events;
      result = ok tt;
      good = λ a. refl;
      run =
          rw applied
            (ap (λ l. done (ok tt) (record w { requests = l })) (sym (append-nil w.requests)));
    }
    | inr waits ↦
        let w1 : World K = record w { events = w.events ++ waiting_for_stateful_set_change ∷ [] } in
        let rest = poll-Sent answers generation w1 (ground (arith, waits, h)) in
        record {
          kube = rest.kube;
          log = rest.log;
          result = rest.result;
          run = rw waits rest.run;
          good = λ a. rest.good (ground (arith, waits, a));
        }
  ]

  -- The definition has a readiness probe.
  module _ (c : Cluster P) (probe : Probe)
      (ready : c.definition.spec.pod.readiness_probe ≡ some probe) where
    pub wait-Sent :
        (sts : AppliedSet P) (w : World K)
        → ends_wait (observed_of K sts w.kube) sts.generation ≡ true
        → Sent w []
            (λ r. applies (observed_of K sts w.kube) sts.generation ≡ true → r ≡ ok tt)
            (wait_until_rack_change_applied c sts w)
    unfolding wait_until_rack_change_applied
    wait-Sent sts w ends =
        let answers = K.observe sts.object.metadata.namespace sts.object.metadata.name w.kube in
        let w1 : World K = record w {
          events = w.events ++ waiting_for_stateful_set_change ∷ [];
          kube = answers.1;
        } in
        let rest = poll-Sent answers.0 sts.generation w1 ends in
        record {
          kube = rest.kube;
          log = rest.log;
          result = rest.result;
          good = rest.good;
          run = ground (arith, ready, rest.run);
        }

  module _ (accepting : Accepting K) (c : Cluster P) (probe : Probe)
      (ready : c.definition.spec.pod.readiness_probe ≡ some probe) where
    pub register-Sent :
        (rack : Rack) (cm : Option ConfigMap) (w : World K)
        → Sent w (set_request c cm rack ∷ []) (λ r. r ≡ ok tt) (register_stateful_set c rack cm w)
    unfolding register_stateful_set create_stateful_set_for_rack set_created
    register-Sent rack cm w =
        let object = Resources.create_stateful_set_for_rack c rack cm in
        go (K.create_stateful_set c.definition.namespace object w.kube).0 refl
          (accepting.sets c.definition.namespace object w.kube)
      where
        go :
            (r : Result String (AppliedSet P))
            → (K.create_stateful_set c.definition.namespace
                (Resources.create_stateful_set_for_rack c rack cm)
                w.kube).0
              ≡ r
            → IsOk r
            → Sent w
                (set_request c cm rack ∷ [])
                (λ r. r ≡ ok tt)
                (register_stateful_set c rack cm w)
        go (ok sts) e h =
            let object = Resources.create_stateful_set_for_rack c rack cm in
            let w1 : World K = record w {
              kube = (K.create_stateful_set c.definition.namespace object w.kube).1;
              requests = w.requests ++ set_request c cm rack ∷ [];
            } in
            let rest =
              wait-Sent c probe ready sts w1
                (accepting.waits c.definition.namespace object w.kube sts e) in
            record {
              kube = rest.kube;
              log = rest.log;
              result = ok tt;
              good = refl;
              run = ground (arith, e, rest.run, append-nil w1.requests);
            }
        go (err x) e h = absurd h

    pub racks-Sent :
        (racks : List Rack) (cm : Option ConfigMap) (w : World K)
        → Sent w
            (map (set_request c cm) racks)
            (λ r. r ≡ ok tt)
            (for_each_rack racks (λ rack. register_stateful_set c rack cm) w)
    unfolding for_each_rack
    racks-Sent [] cm w = record {
      kube = w.kube;
      log = w.events;
      result = ok tt;
      good = refl;
      run = ap (λ l. done (ok tt) (record w { requests = l })) (sym (append-nil w.requests));
    }
    racks-Sent (rack ∷ racks) cm w =
        let one = register-Sent rack cm w in
        let w1 : World K = record w {
          kube = one.kube;
          events = one.log;
          requests = w.requests ++ set_request c cm rack ∷ [];
        } in
        let rest = racks-Sent racks cm w1 in
        record {
          kube = rest.kube;
          log = rest.log;
          result = rest.result;
          good = rest.good;
          run = ground (
            arith,
            one.run,
            one.good,
            rest.run,
            append_assoc w.requests (set_request c cm rack ∷ []) (map (set_request c cm) racks),
          );
        }
