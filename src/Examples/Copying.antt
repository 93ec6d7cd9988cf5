-- ===== src/Examples/Copying.antt =====
-- A Cassandra resource in memory, and its copy.
use cassandra_operator.Base.{
  ℕ, true, false, none, some, List, [], ◌∷◌, ◌≡◌, ◌≤◌, zero, suc, length, get_elem?, refl, arith,
}
use cassandra_operator.Base.Int.{pos}
use cassandra_operator.Api.{Cassandra}
use cassandra_operator.Api.Memory.{
  RetentionPolicyObject, SnapshotObject, CassandraObject, Object, Memory, int32, probe, policy,
  snapshot, cassandra, cassandra_list, texts, racks, cassandras,
}
use cassandra_operator.Api.Copies.{deep_copy}
use cassandra_operator.Api.Copies.Reading.{
  read_cassandra_at, read_pointer, read_cassandra, read_spec, read_pod, read_snapshot, read_policy,
}
use cassandra_operator.Api.Copies.Copying.{IsValid}
use cassandra_operator.Api.Copies.Independent.{Independent, deep_copy-Independent}
use cassandra_operator.Cluster.{default_liveness_probe}
use cassandra_operator.Examples.{plain, rack_a, small_pod}

-- Two pointers to one number of days.
abbrev stored_policy : RetentionPolicyObject
stored_policy = record {
  enabled = true;
  retention_period_days = some 0;
  cleanup_schedule = "@weekly";
  cleanup_timeout_seconds = some 0;
}

abbrev stored_snapshot : SnapshotObject
stored_snapshot = record {
  image = "";
  schedule = "@daily";
  keyspaces = some 1;
  timeout_seconds = none;
  retention_policy = some 2;
}

abbrev stored_definition : CassandraObject plain
stored_definition = record {
  namespace = "team";
  name = "users";
  spec = record {
    dc = "dc1";
    racks = some 4;
    use_empty_dir = false;
    pod = record {
      bootstrapper_image = "";
      image = "cassandra:3.11";
      storage_size = 10;
      memory = 4;
      cpu = 1;
      liveness_probe = some 5;
      readiness_probe = none;
    };
    snapshot = some 3;
  };
}

abbrev objects : List (Object plain)
objects =
    int32 (pos 7)
    ∷ texts ("k" ∷ [])
    ∷ policy stored_policy
    ∷ snapshot stored_snapshot
    ∷ racks (rack_a ∷ [])
    ∷ probe default_liveness_probe
    ∷ cassandra stored_definition
    ∷ cassandras (stored_definition ∷ stored_definition ∷ [])
    ∷ cassandra_list (record { items = some 7 })
    ∷ []

abbrev memory : Memory plain
memory = record { next = 9; cell = get_elem? objects }

-- What the pointers stand for.
abbrev seven_days : Cassandra plain
seven_days = record {
  namespace = "team";
  name = "users";
  spec = record {
    dc = "dc1";
    racks = rack_a ∷ [];
    use_empty_dir = false;
    pod = record small_pod { liveness_probe = some default_liveness_probe };
    snapshot = some (record {
      image = "";
      schedule = "@daily";
      keyspaces = some ("k" ∷ []);
      timeout_seconds = none;
      retention_policy = some (record {
        enabled = true;
        retention_period_days = some (pos 7);
        cleanup_schedule = "@weekly";
        cleanup_timeout_seconds = some (pos 7);
      });
    });
  };
}

get_elem?_beyond {ℓ} : {A : Type ℓ} (xs : List A) (i : ℕ) → length xs ≤ i → get_elem? xs i ≡ none
get_elem?_beyond [] i le = refl
get_elem?_beyond (x ∷ xs) zero le = absurd (omega arith)
get_elem?_beyond (x ∷ xs) (suc i) le = get_elem?_beyond xs i (omega arith)

memory-IsValid : IsValid memory
memory-IsValid a le = get_elem?_beyond objects a le

deep_copy-Independent_example :
    Independent read_cassandra_at memory
      (some 6)
      (some seven_days)
      (deep_copy (λ q. q) (some 6) memory)
unfolding read_cassandra_at read_pointer read_cassandra read_spec read_pod read_snapshot read_policy
deep_copy-Independent_example =
    deep_copy-Independent (λ q. q) (λ q. refl) memory (some 6) (some seven_days) memory-IsValid refl
