-- ===== src/Operator/Noticed.antt =====
-- Which updates of a cluster are noticed: what the callback of an update dispatches and stores.
use cassandra_operator.Base.{
  ℕ, ◌≡◌, ◌≢◌, sym, ap, ◌∙◌, ◌↔◌, ◌⊎◌, ◌&&◌, Bool, true, false, some, [], ◌∷◌, arith, Bool-cases,
  inl, inr, get_elem?, set, get_elem?-set, get_elem?-set_ne,
}
use mathlib.Core.Path.{subst}
use cassandra_operator.Platform.{Platform}
use cassandra_operator.Api.{Cassandra, qualified_name}
use cassandra_operator.Receiver.{cluster_updated}
use cassandra_operator.World.{Environment, World, done, returned, Ends}
use cassandra_operator.Operator.{deep_equal_specs, adjusted, without_empty_dir}
use cassandra_operator.Operator.Updates.{ComparesQuantities, deep_equal_specs_iff}
use cassandra_operator.Operator.Handlers.{
  Message, update_messages, adjust_use_empty_dir, on_cluster_updated,
}

some_injective : {A : Type 0} {a b : A} → some a ≡ some b → a ≡ b
some_injective e = ground arith

module _ {P : Platform} where
  -- The specifications are equal, but for useEmptyDir where the operator does not allow it.
  abbrev pub SameSpec : Bool → Cassandra P → Cassandra P → Type 0
  SameSpec allow c d =
      (c.spec.dc ≡ d.spec.dc)
      × (c.spec.racks ≡ d.spec.racks)
      × (c.spec.pod ≡ d.spec.pod)
      × (c.spec.snapshot ≡ d.spec.snapshot)
      × ((allow ≡ false) ⊎ (c.spec.use_empty_dir ≡ d.spec.use_empty_dir))

  -- The definition as the operator takes it.
  abbrev pub taken : Bool → Cassandra P → Cassandra P
  taken allow c = record c {
    spec = record c.spec { use_empty_dir = allow && c.spec.use_empty_dir };
  }

  adjusted-taken : (allow : Bool) (c : Cassandra P) → adjusted allow c ≡ taken allow c
  unfolding adjusted without_empty_dir
  adjusted-taken true c = elim (Bool-cases c.spec.use_empty_dir) [
    | inl z ↦ ground (arith, z)
    | inr z ↦ ground (arith, z)
  ]
  adjusted-taken false c = elim (Bool-cases c.spec.use_empty_dir) [
    | inl z ↦ ground (arith, z)
    | inr z ↦ ground (arith, z)
  ]

  SameSpec-iff :
      (allow : Bool) (c d : Cassandra P)
      → ((taken allow c).spec ≡ (taken allow d).spec) ↔ SameSpec allow c d
  SameSpec-iff true c d = ground arith
  SameSpec-iff false c d = ground arith

  -- The one event that an update dispatches.
  abbrev pub update_noticed : ℕ → ℕ → Cassandra P → Message
  update_noticed old new d = record {
    kind = "UPDATE_CLUSTER";
    key = qualified_name d;
    data_of = cluster_updated old new;
  }

  update_messages_iff :
      ComparesQuantities P
      → (allow : Bool) (old new : ℕ) (c d : Cassandra P)
      → (((update_messages old new (taken allow c) (taken allow d) ≡ []) ↔ SameSpec allow c d)
          × ((update_messages old new (taken allow c) (taken allow d)
                ≡ update_noticed old new d ∷ [])
              ↔ (¬ SameSpec allow c d)))
  unfolding update_messages qualified_name
  update_messages_iff q allow old new c d =
      let r = deep_equal_specs_iff q (taken allow c).spec (taken allow d).spec in
      let s = SameSpec-iff allow c d in
      elim (Bool-cases (deep_equal_specs (taken allow c).spec (taken allow d).spec)) [
        | inl y ↦ ground (arith, y, r, s)
        | inr z ↦ ground (arith, z, r, s)
      ]

module _ {P : Platform} {K : Environment P} where
  pub adjust_run :
      (allow : Bool) (a : ℕ) (c : Cassandra P) (w : World K)
      → get_elem? w.definitions a ≡ some c
      → adjust_use_empty_dir allow a w
        ≡ done (taken allow c) (record w { definitions = set w.definitions a (taken allow c) })
  unfolding adjust_use_empty_dir
  adjust_run allow a c w at = ground (arith, at, adjusted-taken allow c)

  -- The world after both definitions are adjusted.
  abbrev both_taken : Bool → ℕ → ℕ → Cassandra P → Cassandra P → World K → World K
  both_taken allow old new c d w = record w {
    definitions = set (set w.definitions old (taken allow c)) new (taken allow d);
  }

  on_cluster_updated-run :
      (allow : Bool) (old new : ℕ) (w : World K) (c d : Cassandra P)
      → old ≢ new
      → get_elem? w.definitions old ≡ some c
      → get_elem? w.definitions new ≡ some d
      → on_cluster_updated allow old new w
        ≡ done
            (update_messages old new (taken allow c) (taken allow d))
            (both_taken allow old new c d w)
  unfolding on_cluster_updated
  on_cluster_updated-run allow old new w c d apart at there =
      let v : World K = record w { definitions = set w.definitions old (taken allow c) } in
      let kept = get_elem?-set_ne w.definitions old new (taken allow c) apart ∙ there in
      ground (arith, adjust_run allow old c w at, adjust_run allow new d v kept)

  -- When the comparison of quantities is equality, and the old and the new definition stand at
  -- different addresses, the callback of an update returns. It dispatches nothing exactly if the
  -- two specifications are equal, useEmptyDir apart where the operator does not allow it, and
  -- otherwise one event, under the new definition's qualified name. Both definitions are then stored
  -- without useEmptyDir where it is not allowed, and otherwise as they were.
  pub on_cluster_updated_iff :
      ComparesQuantities P
      → (allow : Bool) (old new : ℕ) (w : World K) (c d : Cassandra P) → old ≢ new
      → get_elem? w.definitions old ≡ some c
      → get_elem? w.definitions new ≡ some d
      → let run = on_cluster_updated allow old new w in
        ((returned run ≡ some []) ↔ SameSpec allow c d)
        × ((returned run ≡ some (update_noticed old new d ∷ [])) ↔ (¬ SameSpec allow c d))
        × Ends
            (λ v.
              (get_elem? v.definitions old ≡ some (taken allow c))
              × (get_elem? v.definitions new ≡ some (taken allow d)))
            run
  on_cluster_updated_iff q allow old new w c d apart at there =
      let messages = update_messages old new (taken allow c) (taken allow d) in
      let m = update_messages_iff q allow old new c d in
      let kept = get_elem?-set_ne w.definitions old new (taken allow c) apart ∙ there in
      subst
        (λ run.
          ((returned run ≡ some []) ↔ SameSpec allow c d)
          × ((returned run ≡ some (update_noticed old new d ∷ [])) ↔ (¬ SameSpec allow c d))
          × Ends
              (λ v.
                (get_elem? v.definitions old ≡ some (taken allow c))
                × (get_elem? v.definitions new ≡ some (taken allow d)))
              run)
        (sym (on_cluster_updated-run allow old new w c d apart at there))
        (
          (λ h. m.0.0 (some_injective h), λ h. ap some (m.0.1 h)),
          (λ h. m.1.0 (some_injective h), λ h. ap some (m.1.1 h)),
          (
            get_elem?-set_ne (set w.definitions old (taken allow c)) new old (taken allow d)
                  (λ e. apart (sym e))
                ∙ get_elem?-set w.definitions old c (taken allow c) at,
            get_elem?-set (set w.definitions old (taken allow c)) new d (taken allow d) kept,
          ),
        )
