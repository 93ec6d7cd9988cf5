-- ===== src/Accessor/Waiting.antt =====
-- How the wait for a rack ends.
use cassandra_operator.Base.{
  String, ==_iff, ◌≡◌, ◌≢◌, ◌⊎◌, ◌↔◌, true, false, List, [], ◌∷◌, ◌++◌, arith, Result, ok, err,
  Option, none, some, Bool-cases, Option-cases, inl, inr,
}
use cassandra_operator.Base.Int.{ℤ, ltb_ℤ, eqb_ℤ_iff}
use cassandra_operator.Platform.{Platform}
use cassandra_operator.Cluster.{Cluster}
use cassandra_operator.World.{
  SetStatus, AppliedSet, Environment, World, waiting_for_stateful_set_change, Outcome, done,
  panicked,
}
use cassandra_operator.Accessor.{change_applied, observed, poll, wait_until_rack_change_applied}

-- The controller has seen the generation that was applied, every pod has the current revision, and
-- every replica is ready.
abbrev pub IsApplied : ℤ → SetStatus → Type 0
IsApplied generation s =
    (Observed s.observed_generation)
    × (s.update_revision ≡ s.current_revision)
    × (s.ready_replicas ≡ s.replicas)
  where
    Observed : Option ℤ → Type 0
    Observed none = ⊥
    Observed (some g) = ltb_ℤ g generation ≡ false

-- An answer before the first read that fails shows the change applied.
abbrev pub IsReached : ℤ → List (Result String SetStatus) → Type 0
IsReached generation [] = ⊥
IsReached generation (err e ∷ answers) = ⊥
IsReached generation (ok s ∷ answers) = IsApplied generation s ⊎ IsReached generation answers

-- A read fails before any answer shows the change applied.
abbrev pub IsBroken : ℤ → List (Result String SetStatus) → Type 0
IsBroken generation [] = ⊥
IsBroken generation (err e ∷ answers) = Unit {0}
IsBroken generation (ok s ∷ answers) = (¬ IsApplied generation s) × IsBroken generation answers

change_applied_iff :
    (s : SetStatus) (generation : ℤ) → (change_applied s generation ≡ true) ↔ IsApplied generation s
unfolding change_applied observed
change_applied_iff s generation =
    let revisions = ==_iff s.update_revision s.current_revision in
    let replicas = eqb_ℤ_iff s.ready_replicas s.replicas in
    elim (Option-cases s.observed_generation) [
      | inl z ↦ ground (arith, z, revisions, replicas)
      | inr (g, z) ↦ ground (arith, z, revisions, replicas)
    ]

module _ {P : Platform} {K : Environment P} where
  -- A run that returns without an error, one that returns an error, and one that panics.
  abbrev pub Succeeds : Outcome K (Result String (Unit {0})) → Type 0
  Succeeds (done (ok _) v) = Unit {0}
  Succeeds _ = ⊥

  abbrev pub Fails : Outcome K (Result String (Unit {0})) → Type 0
  Fails (done (err _) v) = Unit {0}
  Fails _ = ⊥

  abbrev pub Panics : Outcome K (Result String (Unit {0})) → Type 0
  Panics (panicked v) = Unit {0}
  Panics _ = ⊥

  poll_ends :
      (answers : List (Result String SetStatus)) (generation : ℤ) (w : World K)
      → (Succeeds (poll answers generation w) ↔ IsReached generation answers)
        × (Fails (poll answers generation w) ↔ IsBroken generation answers)
        × (¬ Panics (poll answers generation w))
  unfolding poll
  poll_ends [] generation w = ground arith
  poll_ends (err e ∷ answers) generation w = ground arith
  poll_ends (ok s ∷ answers) generation w =
      let shown = change_applied_iff s generation in
      let rest =
        poll_ends answers generation
          (record w { events = w.events ++ (waiting_for_stateful_set_change ∷ []) }) in
      elim (Bool-cases (change_applied s generation)) [
        | inl y ↦ ground (arith, y, shown)
        | inr z ↦ ground (arith, z, shown, rest)
      ]

  -- The wait for a rack reads the status of the stateful set it is given, and then: it ends without an
  -- error exactly if the cluster's definition has a readiness probe and an answer, before any read that
  -- fails, shows the change applied; it ends with an error exactly if there is a probe and a read
  -- fails before that; it panics exactly if there is no probe. A change is applied when a
  -- generation at least the applied one is observed, the update revision is the current one, and all
  -- replicas are ready.
  pub wait_until_rack_change_applied_ends :
      (c : Cluster P) (sts : AppliedSet P) (w : World K)
      → let answers = (K.observe sts.object.metadata.namespace sts.object.metadata.name w.kube).0 in
        let run = wait_until_rack_change_applied c sts w in
        let probe = c.definition.spec.pod.readiness_probe in
        (Succeeds run ↔ ((probe ≢ none) × IsReached sts.generation answers))
        × (Fails run ↔ ((probe ≢ none) × IsBroken sts.generation answers))
        × (Panics run ↔ (probe ≡ none))
  unfolding wait_until_rack_change_applied
  wait_until_rack_change_applied_ends c sts w =
      let answer = K.observe sts.object.metadata.namespace sts.object.metadata.name w.kube in
      let rest = poll_ends answer.0 sts.generation (record w {
        kube = answer.1;
        events = w.events ++ (waiting_for_stateful_set_change ∷ []);
      }) in
      elim (Option-cases c.definition.spec.pod.readiness_probe) [
        | inl z ↦ ground (arith, z)
        | inr (p, z) ↦ ground (arith, z, rest)
      ]
