-- ===== src/Client/Factory/Kept.antt =====
-- What is registered, created and marked stays so, whatever is called on the factory afterwards.
use cassandra_operator.Base.{
  ℕ, ◌≤◌, zero, suc, String, Bool, true, none, some, List, [], ◌∷◌, ◌++◌, ◌≡◌, get_elem?, length,
  ==_iff, arith, Option-cases, inl, inr,
}
use cassandra_operator.Base.Int.{ℤ}
use cassandra_operator.Base.Assoc.{Assoc, lookup, lookup-insert}
use cassandra_operator.Platform.{Platform}
use cassandra_operator.Client.Rest.{Options}
use cassandra_operator.Client.Factory.{Informer, Process, flag, start, informer_for}
use cassandra_operator.Client.Factory.Entries.{marked}
use cassandra_operator.Client.Factory.Started.{start_each-same, start_each-flag}
use cassandra_operator.Client.Factory.Once.{
  FactoryCall, informer_for_call, start_call, call_all, added, informer_for_known, informer_for_new,
}

get_elem?-append {ℓ} :
    {A : Type ℓ} (xs ys : List A) (i : ℕ) (x : A)
    → get_elem? xs i ≡ some x
    → get_elem? (xs ++ ys) i ≡ some x
get_elem?-append [] ys i x e = cc
get_elem?-append (y ∷ xs) ys zero x e = e
get_elem?-append (y ∷ xs) ys (suc i) x e = get_elem?-append xs ys i x e

pub marked_of_lookup :
    (t : String) (a : ℕ) (entries : Assoc ℕ) (started : Assoc Bool)
    → lookup t entries ≡ some a
    → flag (lookup t started) ≡ true
    → 1 ≤ marked a entries started
unfolding lookup
marked_of_lookup t a [] started e f = cc
marked_of_lookup t a (entry ∷ entries) started e f =
    ground (arith, marked_of_lookup t a entries started, ==_iff entry.0 t)

module _ {P : Platform} {O : Options P} where
  -- An informer that is registered for a type, exists and has been started.
  pub record Runs (t : String) (a : ℕ) (x : Informer O) (p : Process O) : Type 0 where
    pub known : lookup t p.factory.informers ≡ some a
    pub made : get_elem? p.created a ≡ some x
    pub flagged : flag (lookup t p.factory.started_informers) ≡ true

  start-Runs :
      (t : String) (a : ℕ) (x : Informer O) (p : Process O) → Runs t a x p → Runs t a x (start p)
  unfolding start
  start-Runs t a x p r =
      let same = start_each-same p.factory.informers p in
      record {
        known = rw same.0 r.known;
        made = rw same.1 r.made;
        flagged = start_each-flag p.factory.informers p t r.flagged;
      }

  added-Runs :
      (t u : String) (new_func : ℤ → Informer O) (a : ℕ) (x : Informer O) (p : Process O)
      → lookup u p.factory.informers ≡ none
      → Runs t a x p
      → Runs t a x (added u new_func p)
  added-Runs t u new_func a x p e r = record {
    known =
        ground
          (arith, lookup-insert u t (length p.created) p.factory.informers, r.known, ==_iff u t);
    made = get_elem?-append p.created _ a x r.made;
    flagged = r.flagged;
  }

  pub call_all-Runs :
      (calls : List (FactoryCall O)) (t : String) (a : ℕ) (x : Informer O) (p : Process O)
      → Runs t a x p
      → Runs t a x (call_all calls p)
  call_all-Runs [] t a x p r = r
  call_all-Runs (start_call ∷ calls) t a x p r =
      call_all-Runs calls t a x (start p) (start-Runs t a x p r)
  call_all-Runs (informer_for_call u new_func ∷ calls) t a x p r =
      call_all-Runs calls t a x (informer_for u new_func p).1
        (elim (Option-cases (lookup u p.factory.informers)) [
          | inl e ↦ rw (informer_for_new u new_func p e) (added-Runs t u new_func a x p e r)
          | inr (b, e) ↦ rw (informer_for_known u new_func p b e) r
        ])
