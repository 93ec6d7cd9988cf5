-- ===== src/Client/Factory/Once.antt =====
-- The invariant of the factory of shared informers over every sequence of calls.
use cassandra_operator.Base.{
  ℕ, ◌≤◌, String, false, Option, none, some, List, [], ◌∷◌, ◌++◌, ◌≡◌, refl, length, ==_iff, arith,
  Option-cases, inl, inr, length-append,
}
use cassandra_operator.Base.Int.{ℤ}
use cassandra_operator.Base.Assoc.{Assoc, lookup, insert, lookup-insert}
use cassandra_operator.Platform.{Platform}
use cassandra_operator.Client.Rest.{Options}
use cassandra_operator.Client.Factory.{
  Informer, Process, flag, start_one, start_each, start, informer_for, resync_period_for,
  new_filtered_shared_informer_factory,
}
use cassandra_operator.Client.Factory.Started.{
  start_each-count, start_each-marks, start_each-same, start_one-flag,
}
use cassandra_operator.Client.Factory.Entries.{
  count, registered, marked, Distinct, Distinct-insert, registered-insert, marked-insert,
  registered_of_lookup, marked-le-registered,
}

-- The calls that change the factory.
pub data FactoryCall {P : Platform} (O : Options P) : Type 0 where
  informer_for_call : String → (ℤ → Informer O) → FactoryCall O
  start_call : FactoryCall O

module _ {P : Platform} {O : Options P} where
  abbrev pub call : FactoryCall O → Process O → Process O
  call (informer_for_call t new_func) p = (informer_for t new_func p).1
  call start_call p = start p

  abbrev pub call_all : List (FactoryCall O) → Process O → Process O
  call_all [] p = p
  call_all (c ∷ calls) p = call_all calls (call c p)

  abbrev pub new_process : ℤ → String → Option (O.ListOptions → O.ListOptions) → Process O
  new_process resync ns tweak = record {
    factory = new_filtered_shared_informer_factory resync ns tweak;
    created = [];
    running = [];
  }

module _ {P : Platform} {O : Options P} where
  start_each-unmarked :
      (entries : Assoc ℕ) (p : Process O) (t : String)
      → lookup t entries ≡ none
      → flag (lookup t p.factory.started_informers) ≡ false
      → flag (lookup t (start_each entries p).factory.started_informers) ≡ false
  unfolding start_each lookup
  start_each-unmarked [] p t e f = f
  start_each-unmarked (entry ∷ entries) p t e f =
      ground (arith, start_one-flag entry p t, start_each-unmarked entries (start_one entry p) t)

  -- Types and addresses are registered once, the addresses have been handed out, an informer runs as
  -- often as its type is marked, and only registered types are.
  pub record IsConsistent (p : Process O) : Type 0 where
    pub distinct : Distinct p.factory.informers
    pub tallies :
        (a : ℕ) → count a p.running ≡ marked a p.factory.informers p.factory.started_informers
    pub unmarked :
        (t : String)
        → lookup t p.factory.informers ≡ none
        → flag (lookup t p.factory.started_informers) ≡ false
    pub single : (a : ℕ) → registered a p.factory.informers ≤ 1
    pub fresh : (a : ℕ) → length p.created ≤ a → registered a p.factory.informers ≡ 0

  start-IsConsistent : (p : Process O) → IsConsistent p → IsConsistent (start p)
  unfolding start
  start-IsConsistent p i =
      let entries = p.factory.informers in
      let same = start_each-same entries p in
      record {
        distinct = rw same.0 i.distinct;
        tallies = λ a. rw same.0 (
            omega (
              arith,
              start_each-count entries p i.distinct a,
              start_each-marks entries p a,
              i.tallies a,
            ));
        unmarked =
            λ t e. start_each-unmarked entries p t (rw same.0 at e) (i.unmarked t (rw same.0 at e));
        single = λ a. rw same.0 (i.single a);
        fresh = λ a le. rw same.0 (i.fresh a (rw same.1 at le));
      }

  -- The process with a new informer.
  abbrev pub added : String → (ℤ → Informer O) → Process O → Process O
  added t new_func p = record p {
    factory = record p.factory { informers = insert t (length p.created) p.factory.informers };
    created = p.created ++ (new_func (resync_period_for t p.factory) ∷ []);
  }

  pub informer_for_new :
      (t : String) (new_func : ℤ → Informer O) (p : Process O)
      → lookup t p.factory.informers ≡ none
      → informer_for t new_func p ≡ (length p.created, added t new_func p)
  unfolding informer_for
  informer_for_new t new_func p e = ground (arith, e)

  pub informer_for_known :
      (t : String) (new_func : ℤ → Informer O) (p : Process O) (a : ℕ)
      → lookup t p.factory.informers ≡ some a
      → informer_for t new_func p ≡ (a, p)
  unfolding informer_for
  informer_for_known t new_func p a e = ground (arith, e)

  added-IsConsistent :
      (t : String) (new_func : ℤ → Informer O) (p : Process O)
      → IsConsistent p
      → lookup t p.factory.informers ≡ none
      → IsConsistent (added t new_func p)
  added-IsConsistent t new_func p i e =
      let entries = p.factory.informers in
      let next = length p.created in
      let grown = length-append p.created (new_func (resync_period_for t p.factory) ∷ []) in
      record {
        distinct = Distinct-insert t next entries e i.distinct;
        tallies = λ a. ground (
          arith,
          i.tallies a,
          marked-insert t next entries p.factory.started_informers a e (i.unmarked t e),
        );
        unmarked = λ u none_there.
            ground (arith, lookup-insert t u next entries, i.unmarked u, ==_iff t u);
        single = λ a. ground (arith, registered-insert t next entries a e, i.single a, i.fresh a);
        fresh = λ a le. ground (arith, registered-insert t next entries a e, i.fresh a, grown);
      }

  informer_for-IsConsistent :
      (t : String) (new_func : ℤ → Informer O) (p : Process O)
      → IsConsistent p
      → IsConsistent (informer_for t new_func p).1
  informer_for-IsConsistent t new_func p i = elim (Option-cases (lookup t p.factory.informers)) [
    | inl e ↦ rw (informer_for_new t new_func p e) (added-IsConsistent t new_func p i e)
    | inr (a, e) ↦ rw (informer_for_known t new_func p a e) i
  ]

  pub call_all-IsConsistent :
      (calls : List (FactoryCall O)) (p : Process O)
      → IsConsistent p
      → IsConsistent (call_all calls p)
  call_all-IsConsistent [] p i = i
  call_all-IsConsistent (informer_for_call t new_func ∷ calls) p i =
      call_all-IsConsistent calls _ (informer_for-IsConsistent t new_func p i)
  call_all-IsConsistent (start_call ∷ calls) p i =
      call_all-IsConsistent calls _ (start-IsConsistent p i)

  pub new_process-IsConsistent :
      (resync : ℤ) (ns : String) (tweak : Option (O.ListOptions → O.ListOptions))
      → IsConsistent (new_process resync ns tweak)
  unfolding new_filtered_shared_informer_factory lookup
  new_process-IsConsistent resync ns tweak = record {
    distinct = tt;
    tallies = λ a. refl;
    unmarked = λ t e. refl;
    single = λ a. omega arith;
    fresh = λ a le. refl;
  }

  -- No informer has been run twice; once Start is called again, each informer that is registered has
  -- been run exactly once; and InformerFor gives the informer that is registered for a type.
  abbrev pub RunsOnce : Process O → Type 0
  RunsOnce p =
      ((a : ℕ) → count a p.running ≤ 1)
      × ((t : String) (a : ℕ)
          → lookup t p.factory.informers ≡ some a
          → count a (start p).running ≡ 1)
      × ((t : String) (a : ℕ) (new_func : ℤ → Informer O)
          → lookup t p.factory.informers ≡ some a
          → informer_for t new_func p ≡ (a, p))

  started_exactly :
      (p : Process O)
      → IsConsistent p
      → (t : String) (a : ℕ) → lookup t p.factory.informers ≡ some a
      → count a (start p).running ≡ 1
  unfolding start
  started_exactly p i t a e = omega (
    arith,
    start_each-count p.factory.informers p i.distinct a,
    i.tallies a,
    i.single a,
    registered_of_lookup t a p.factory.informers e,
  )

  IsConsistent-RunsOnce : (p : Process O) → IsConsistent p → RunsOnce p
  IsConsistent-RunsOnce p i = (
    λ a. omega (
      arith,
      i.tallies a,
      i.single a,
      marked-le-registered a p.factory.informers p.factory.started_informers,
    ),
    started_exactly p i,
    λ t a new_func e. informer_for_known t new_func p a e,
  )

  -- In a new process, after any sequence of calls of InformerFor and Start, with any types and
  -- constructors: no informer has been run twice; once Start is called again, each informer that is
  -- registered has been run exactly once; and InformerFor gives the informer that is registered for its
  -- type, if there is one, and creates none.
  pub call_all-RunsOnce :
      (resync : ℤ) (ns : String) (tweak : Option (O.ListOptions → O.ListOptions))
      (calls : List (FactoryCall O))
      → RunsOnce (call_all calls (new_process resync ns tweak))
  call_all-RunsOnce resync ns tweak calls =
      IsConsistent-RunsOnce _
        (call_all-IsConsistent calls _ (new_process-IsConsistent resync ns tweak))
