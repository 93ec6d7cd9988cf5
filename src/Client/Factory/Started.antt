-- ===== src/Client/Factory/Started.antt =====
-- However often Start is called, and whatever is registered in between, each informer is run once.
use cassandra_operator.Base.{
  ℕ, ◌+◌, String, true, none, [], ◌∷◌, ◌≡◌, refl, eqb, if◌then◌else◌, ◌==◌, ==_iff, ==_refl, arith,
  Bool-cases, inl, inr,
}
use cassandra_operator.Base.Assoc.{Assoc, lookup, lookup-insert}
use cassandra_operator.Platform.{Platform}
use cassandra_operator.Client.Rest.{Options}
use cassandra_operator.Client.Factory.Entries.{
  count, count-append, registered, marked, Distinct, marked-insert_other,
}
use cassandra_operator.Client.Factory.{Process, flag, start_one, start_each}

module _ {P : Platform} {O : Options P} where
  start_one-marked :
      (entry : String × ℕ) (entries : Assoc ℕ) (p : Process O) (a : ℕ)
      → lookup entry.0 entries ≡ none
      → marked a entries (start_one entry p).factory.started_informers
        ≡ marked a entries p.factory.started_informers
  unfolding start_one
  start_one-marked entry entries p a e =
      ground (arith, marked-insert_other a entry.0 entries p.factory.started_informers e)

  start_one-count :
      (entry : String × ℕ) (p : Process O) (a : ℕ)
      → count a (start_one entry p).running
          + (if flag (lookup entry.0 p.factory.started_informers)
              then (if eqb a entry.1 then 1 else 0)
              else 0)
        ≡ count a p.running + (if eqb a entry.1 then 1 else 0)
  unfolding start_one
  start_one-count entry p a = ground (arith, count-append a p.running (entry.1 ∷ []))

  -- The loop of Start over some entries, whose types are registered nowhere else.
  pub start_each-count :
      (entries : Assoc ℕ) (p : Process O)
      → Distinct entries
      → (a : ℕ)
      → count a (start_each entries p).running + marked a entries p.factory.started_informers
        ≡ count a p.running + registered a entries
  unfolding start_each
  start_each-count [] p d a = refl
  start_each-count (entry ∷ entries) p d a =
      let one = start_one-count entry p a in
      let rest = start_one-marked entry entries p a d.0 in
      omega (arith, start_each-count entries (start_one entry p) d.1 a)

  pub start_one-flag :
      (entry : String × ℕ) (p : Process O) (t : String)
      → flag (lookup t (start_one entry p).factory.started_informers)
        ≡ (if entry.0 == t then true else flag (lookup t p.factory.started_informers))
  unfolding start_one
  start_one-flag entry p t =
      ground (arith, lookup-insert entry.0 t true p.factory.started_informers, ==_iff entry.0 t)

  -- The types of the entries are marked, and no mark is taken away.
  pub start_each-flag :
      (entries : Assoc ℕ) (p : Process O) (t : String)
      → flag (lookup t p.factory.started_informers) ≡ true
      → flag (lookup t (start_each entries p).factory.started_informers) ≡ true
  unfolding start_each
  start_each-flag [] p t e = e
  start_each-flag (entry ∷ entries) p t e =
      start_each-flag entries (start_one entry p) t (ground (arith, start_one-flag entry p t))

  pub start_each-marks :
      (entries : Assoc ℕ) (p : Process O) (a : ℕ)
      → marked a entries (start_each entries p).factory.started_informers ≡ registered a entries
  unfolding start_each
  start_each-marks [] p a = refl
  start_each-marks (entry ∷ entries) p a =
      let mark = start_one-flag entry p entry.0 in
      let kept =
        start_each-flag entries (start_one entry p) entry.0 (ground (arith, ==_refl entry.0)) in
      ground (arith, start_each-marks entries (start_one entry p) a)

  -- What Start leaves alone.
  pub start_each-same :
      (entries : Assoc ℕ) (p : Process O)
      → ((start_each entries p).factory.informers ≡ p.factory.informers)
        × ((start_each entries p).created ≡ p.created)
  unfolding start_each start_one
  start_each-same [] p = (refl, refl)
  start_each-same (entry ∷ entries) p =
      let ih = start_each-same entries (start_one entry p) in
      elim (Bool-cases (flag (lookup entry.0 p.factory.started_informers))) [
        | inl e ↦ ground arith
        | inr e ↦ ground arith
      ]
