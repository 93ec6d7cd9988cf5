-- ===== src/Api/Copies/Reading.antt =====
-- What the objects in memory stand for: the values of Api, read by following the pointers.
use cassandra_operator.Base.{
  ℕ, Option, none, some, List, [], ◌∷◌, ◌≡◌, Option-cases, inl, inr, arith,
}
use cassandra_operator.Base
use cassandra_operator.Platform.{Platform}
use cassandra_operator.Api.{RetentionPolicy, Snapshot, Rack, Pod, CassandraSpec, Cassandra}
use cassandra_operator.Api.Memory.{
  PodObject, RetentionPolicyObject, SnapshotObject, CassandraSpecObject, CassandraObject,
  CassandraListObject, Memory, Storable, value_at, stored_int32, stored_probe, stored_policy,
  stored_snapshot, stored_cassandra, stored_cassandra_list, stored_texts, stored_racks,
  stored_cassandras,
}

infixl 5 ◌>>=◌
abbrev pub ◌>>=◌ : {A B : Type 0} → Option A → (A → Option B) → Option B
m >>= f = Base.◌>>=◌ m f

-- A nil slice of racks and an empty one read the same.
abbrev pub racks_of : Option (List Rack) → List Rack
racks_of none = []
racks_of (some rs) = rs

-- A way to read a type of objects: `none` where a pointer dangles.
abbrev pub Reader : Platform → Type 0 → Type 0 → Type 0
Reader P A V = Memory P → A → Option V

module _ {P : Platform} where
  abbrev pub read_value : {A : Type 0} → Reader P A A
  read_value h a = some a

  unfoldable pub read_pointer :
      {A V : Type 0} → Storable P A → Reader P A V → Reader P (Option ℕ) (Option V)
  read_pointer S read h none = some none
  read_pointer S read h (some p) = do a ← value_at S (h.cell p); v ← read h a; some (some v)

  unfoldable pub read_policy : Reader P RetentionPolicyObject RetentionPolicy
  read_policy h o = do
    days ← read_pointer stored_int32 read_value h o.retention_period_days
    seconds ← read_pointer stored_int32 read_value h o.cleanup_timeout_seconds
    some (record {
      enabled = o.enabled;
      retention_period_days = days;
      cleanup_schedule = o.cleanup_schedule;
      cleanup_timeout_seconds = seconds;
    })

  unfoldable pub read_snapshot : Reader P SnapshotObject Snapshot
  read_snapshot h o = do
    keyspaces ← read_pointer stored_texts read_value h o.keyspaces
    seconds ← read_pointer stored_int32 read_value h o.timeout_seconds
    policy ← read_pointer stored_policy read_policy h o.retention_policy
    some (record {
      image = o.image;
      schedule = o.schedule;
      keyspaces = keyspaces;
      timeout_seconds = seconds;
      retention_policy = policy;
    })

  unfoldable pub read_pod : Reader P (PodObject P) (Pod P)
  read_pod h o = do
    liveness ← read_pointer stored_probe read_value h o.liveness_probe
    readiness ← read_pointer stored_probe read_value h o.readiness_probe
    some (record {
      bootstrapper_image = o.bootstrapper_image;
      image = o.image;
      storage_size = o.storage_size;
      memory = o.memory;
      cpu = o.cpu;
      liveness_probe = liveness;
      readiness_probe = readiness;
    })

  unfoldable pub read_spec : Reader P (CassandraSpecObject P) (CassandraSpec P)
  read_spec h o = do
    racks ← read_pointer stored_racks read_value h o.racks
    pod ← read_pod h o.pod
    snapshot ← read_pointer stored_snapshot read_snapshot h o.snapshot
    some (record {
      dc = o.dc;
      racks = racks_of racks;
      use_empty_dir = o.use_empty_dir;
      pod = pod;
      snapshot = snapshot;
    })

  unfoldable pub read_cassandra : Reader P (CassandraObject P) (Cassandra P)
  read_cassandra h o = do
    spec ← read_spec h o.spec
    some (record { namespace = o.namespace; name = o.name; spec = spec })

  unfoldable pub read_each : Reader P (List (CassandraObject P)) (List (Cassandra P))
  read_each h [] = some []
  read_each h (o ∷ os) = do c ← read_cassandra h o; cs ← read_each h os; some (c ∷ cs)

  unfoldable pub read_list : Reader P CassandraListObject (Option (List (Cassandra P)))
  read_list h o = read_pointer stored_cassandras read_each h o.items

  -- What a *Cassandra and a *CassandraList stand for.
  unfoldable pub read_cassandra_at : Reader P (Option ℕ) (Option (Cassandra P))
  read_cassandra_at = read_pointer stored_cassandra read_cassandra

  unfoldable pub read_list_at : Reader P (Option ℕ) (Option (Option (List (Cassandra P))))
  read_list_at = read_pointer stored_cassandra_list read_list

  -- What a *Snapshot stands for.
  unfoldable pub read_snapshot_at : Reader P (Option ℕ) (Option Snapshot)
  read_snapshot_at = read_pointer stored_snapshot read_snapshot
