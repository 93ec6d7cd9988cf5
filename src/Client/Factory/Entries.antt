-- ===== src/Client/Factory/Entries.antt =====
-- Counting over the maps of the factory: addresses that run, that are registered and that are marked.
use cassandra_operator.Base.{
  ℕ, ◌+◌, ◌≤◌, String, Bool, true, false, none, some, List, [], ◌∷◌, ◌++◌, ◌≡◌, refl, eqb,
  if◌then◌else◌, ◌==◌, ==_iff, arith, Bool-cases, inl, inr,
}
use cassandra_operator.Base.Assoc.{Assoc, lookup, insert, lookup-insert}
use cassandra_operator.Client.Factory.{flag}

-- How often an address stands in a list.
abbrev pub count : ℕ → List ℕ → ℕ
count a [] = 0
count a (b ∷ bs) = (if eqb a b then 1 else 0) + count a bs

pub count-append : (a : ℕ) (bs cs : List ℕ) → count a (bs ++ cs) ≡ count a bs + count a cs
count-append a [] cs = omega arith
count-append a (b ∷ bs) cs = omega (arith, count-append a bs cs)

-- How often an address is registered, and how often with a type that is marked as started.
abbrev pub registered : ℕ → Assoc ℕ → ℕ
registered a [] = 0
registered a (entry ∷ entries) = (if eqb a entry.1 then 1 else 0) + registered a entries

abbrev pub marked : ℕ → Assoc ℕ → Assoc Bool → ℕ
marked a [] started = 0
marked a (entry ∷ entries) started =
    (if flag (lookup entry.0 started) then (if eqb a entry.1 then 1 else 0) else 0)
    + marked a entries started

-- The keys of a map are distinct.
abbrev pub Distinct {ℓ} : {A : Type ℓ} → Assoc A → Type ℓ
Distinct [] = Unit
Distinct (entry ∷ entries) = (lookup entry.0 entries ≡ none) × Distinct entries

-- What a mark does to the count, at a type that is not registered and at one that is.
pub marked-insert_other :
    (a : ℕ) (t : String) (entries : Assoc ℕ) (started : Assoc Bool)
    → lookup t entries ≡ none
    → marked a entries (insert t true started) ≡ marked a entries started
unfolding lookup
marked-insert_other a t [] started e = refl
marked-insert_other a t (entry ∷ entries) started e = ground (
  arith,
  lookup-insert t entry.0 true started,
  marked-insert_other a t entries started,
  ==_iff t entry.0,
  ==_iff entry.0 t,
)

-- The entry that a new key adds to a map.
pub Distinct-insert {ℓ} :
    {A : Type ℓ} (t : String) (v : A) (entries : Assoc A)
    → lookup t entries ≡ none
    → Distinct entries
    → Distinct (insert t v entries)
unfolding insert lookup
Distinct-insert t v [] e d = (refl, tt)
Distinct-insert t v (entry ∷ entries) e d = elim (Bool-cases (entry.0 == t)) [
  | inl z ↦ let k = rw z at e in cc
  | inr z ↦
      let k = rw z at e in
      let ih = Distinct-insert t v entries k d.1 in
      rw z
        (ground (arith, lookup-insert t entry.0 v entries, ==_iff t entry.0, ==_iff entry.0 t), ih)
]

pub registered-insert :
    (t : String) (v : ℕ) (entries : Assoc ℕ) (a : ℕ)
    → lookup t entries ≡ none
    → registered a (insert t v entries) ≡ registered a entries + (if eqb a v then 1 else 0)
unfolding insert lookup
registered-insert t v [] a e = omega arith
registered-insert t v (entry ∷ entries) a e = ground (arith, registered-insert t v entries a)

pub marked-insert :
    (t : String) (v : ℕ) (entries : Assoc ℕ) (started : Assoc Bool) (a : ℕ)
    → lookup t entries ≡ none
    → flag (lookup t started) ≡ false
    → marked a (insert t v entries) started ≡ marked a entries started
unfolding insert lookup
marked-insert t v [] started a e f = ground arith
marked-insert t v (entry ∷ entries) started a e f =
    ground (arith, marked-insert t v entries started a)

pub registered_of_lookup :
    (t : String) (a : ℕ) (entries : Assoc ℕ) → lookup t entries ≡ some a → 1 ≤ registered a entries
unfolding lookup
registered_of_lookup t a [] e = cc
registered_of_lookup t a (entry ∷ entries) e = ground (arith, registered_of_lookup t a entries)

pub marked-le-registered :
    (a : ℕ) (entries : Assoc ℕ) (started : Assoc Bool)
    → marked a entries started ≤ registered a entries
marked-le-registered a [] started = omega arith
marked-le-registered a (entry ∷ entries) started =
    ground (arith, marked-le-registered a entries started)
