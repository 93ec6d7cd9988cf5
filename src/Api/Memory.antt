-- ===== src/Api/Memory.antt =====
-- The memory behind the pointers of cassandra-operator/pkg/apis/cassandra/v1alpha1/types.go: what
-- `new` and `make` return an address of. In Api a pointer is an `Option` of what it points to; here
-- it is an `Option` of an address, so that sharing shows.
use cassandra_operator.Base.{
  ℕ, ◌+◌, String, Bool, Option, none, some, List, ◌≡◌, refl, eqb, if◌then◌else◌,
}
use cassandra_operator.Base.Int.{ℤ}
use cassandra_operator.Platform.{Platform}
use cassandra_operator.Api.{Probe, Rack}

pub record PodObject (P : Platform) : Type 0 where
  pub bootstrapper_image : String
  pub image : String
  pub storage_size : P.Quantity
  pub memory : P.Quantity
  pub cpu : P.Quantity
  pub liveness_probe : Option ℕ
  pub readiness_probe : Option ℕ

pub record RetentionPolicyObject : Type 0 where
  pub enabled : Bool
  pub retention_period_days : Option ℕ
  pub cleanup_schedule : String
  pub cleanup_timeout_seconds : Option ℕ

pub record SnapshotObject : Type 0 where
  pub image : String
  pub schedule : String
  pub keyspaces : Option ℕ
  pub timeout_seconds : Option ℕ
  pub retention_policy : Option ℕ

pub record CassandraSpecObject (P : Platform) : Type 0 where
  pub dc : String
  pub racks : Option ℕ
  pub use_empty_dir : Bool
  pub pod : PodObject P
  pub snapshot : Option ℕ

pub record CassandraObject (P : Platform) : Type 0 where
  pub namespace : String
  pub name : String
  pub spec : CassandraSpecObject P

pub record CassandraListObject : Type 0 where
  pub items : Option ℕ

-- What an address can hold: a variable, or the array behind a slice.
pub data Object (P : Platform) : Type 0 where
  int32 : ℤ → Object P
  probe : Probe → Object P
  policy : RetentionPolicyObject → Object P
  snapshot : SnapshotObject → Object P
  pod : PodObject P → Object P
  spec : CassandraSpecObject P → Object P
  cassandra : CassandraObject P → Object P
  cassandra_list : CassandraListObject → Object P
  rack : Rack → Object P
  texts : List String → Object P
  racks : List Rack → Object P
  cassandras : List (CassandraObject P) → Object P

-- Addresses are handed out in order, and every address from `next` on is free.
pub record Memory (P : Platform) : Type 0 where
  pub next : ℕ
  pub cell : ℕ → Option (Object P)

-- `none` is a panic: the pointer points to nothing of its type.
abbrev pub M : Platform → Type 0 → Type 0
M P A = Memory P → Option (A × Memory P)

-- How the values of a type are stored: `project` gives back what `inject` put there.
pub record Storable (P : Platform) (A : Type 0) : Type 0 where
  pub inject : A → Object P
  pub project : Object P → Option A
  pub project-inject : (a : A) → project (inject a) ≡ some a

module _ {P : Platform} where
  infixl 5 ◌>>=◌
  abbrev pub ◌>>=◌ : {A B : Type 0} → M P A → (A → M P B) → M P B
  ◌>>=◌ m f h = elim (m h) [ none ↦ none | some (a, h') ↦ f a h' ]

  abbrev pub pure : {A : Type 0} → A → M P A
  pure a h = some (a, h)

  abbrev pub value_at : {A : Type 0} → Storable P A → Option (Object P) → Option A
  value_at S none = none
  value_at S (some o) = S.project o

  -- *p
  abbrev pub load : {A : Type 0} → Storable P A → ℕ → M P A
  load S p h = elim (value_at S (h.cell p)) [ none ↦ none | some a ↦ some (a, h) ]

  abbrev pub update : (ℕ → Option (Object P)) → ℕ → Object P → ℕ → Option (Object P)
  update f p o q = if eqb p q then some o else f q

  -- &v: the address of a new variable.
  abbrev pub new : {A : Type 0} → Storable P A → A → M P ℕ
  new S a h = some (h.next, record { next = h.next + 1; cell = update h.cell h.next (S.inject a) })

  abbrev pub stored_int32 : Storable P ℤ
  stored_int32 = record {
    inject = int32;
    project = λ o. elim o [ int32 v ↦ some v | _ ↦ none ];
    project-inject = λ a. refl;
  }

  abbrev pub stored_probe : Storable P Probe
  stored_probe = record {
    inject = probe;
    project = λ o. elim o [ probe v ↦ some v | _ ↦ none ];
    project-inject = λ a. refl;
  }

  abbrev pub stored_policy : Storable P RetentionPolicyObject
  stored_policy = record {
    inject = policy;
    project = λ o. elim o [ policy v ↦ some v | _ ↦ none ];
    project-inject = λ a. refl;
  }

  abbrev pub stored_snapshot : Storable P SnapshotObject
  stored_snapshot = record {
    inject = snapshot;
    project = λ o. elim o [ snapshot v ↦ some v | _ ↦ none ];
    project-inject = λ a. refl;
  }

  abbrev pub stored_pod : Storable P (PodObject P)
  stored_pod = record {
    inject = pod;
    project = λ o. elim o [ pod v ↦ some v | _ ↦ none ];
    project-inject = λ a. refl;
  }

  abbrev pub stored_spec : Storable P (CassandraSpecObject P)
  stored_spec = record {
    inject = spec;
    project = λ o. elim o [ spec v ↦ some v | _ ↦ none ];
    project-inject = λ a. refl;
  }

  abbrev pub stored_cassandra : Storable P (CassandraObject P)
  stored_cassandra = record {
    inject = cassandra;
    project = λ o. elim o [ cassandra v ↦ some v | _ ↦ none ];
    project-inject = λ a. refl;
  }

  abbrev pub stored_cassandra_list : Storable P CassandraListObject
  stored_cassandra_list = record {
    inject = cassandra_list;
    project = λ o. elim o [ cassandra_list v ↦ some v | _ ↦ none ];
    project-inject = λ a. refl;
  }

  abbrev pub stored_rack : Storable P Rack
  stored_rack = record {
    inject = rack;
    project = λ o. elim o [ rack v ↦ some v | _ ↦ none ];
    project-inject = λ a. refl;
  }

  abbrev pub stored_texts : Storable P (List String)
  stored_texts = record {
    inject = texts;
    project = λ o. elim o [ texts v ↦ some v | _ ↦ none ];
    project-inject = λ a. refl;
  }

  abbrev pub stored_racks : Storable P (List Rack)
  stored_racks = record {
    inject = racks;
    project = λ o. elim o [ racks v ↦ some v | _ ↦ none ];
    project-inject = λ a. refl;
  }

  abbrev pub stored_cassandras : Storable P (List (CassandraObject P))
  stored_cassandras = record {
    inject = cassandras;
    project = λ o. elim o [ cassandras v ↦ some v | _ ↦ none ];
    project-inject = λ a. refl;
  }
