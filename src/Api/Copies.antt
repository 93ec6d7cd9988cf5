-- ===== src/Api/Copies.antt =====
-- cassandra-operator/pkg/apis/cassandra/v1alpha1/zz_generated.deepcopy.go: the copies that CopyInto
-- takes of the pointers of a definition and that the informers hand out. A DeepCopyInto is a function
-- from what `in` points to to what it leaves in `out`, which starts as a copy of the struct. The
-- copies of Kubernetes' ObjectMeta (here two strings) and Quantity are that library's: the first is an
-- assignment, the second a parameter. A variable is allocated once its contents are known.
pub mod Reading
pub mod Separate
pub mod Copying
pub mod Fields
pub mod Independent
use cassandra_operator.Base.{ℕ, Option, none, some, List, [], ◌∷◌}
use cassandra_operator.Platform.{Platform}
use cassandra_operator.Api.{Probe, Rack}
use cassandra_operator.Api.Memory.{
  PodObject, RetentionPolicyObject, SnapshotObject, CassandraSpecObject, CassandraObject,
  CassandraListObject, M, ◌>>=◌, pure, Storable, load, new, stored_int32, stored_probe,
  stored_policy, stored_snapshot, stored_pod, stored_spec, stored_cassandra, stored_cassandra_list,
  stored_rack, stored_texts, stored_racks, stored_cassandras,
}

module _ {P : Platform} where
  -- A nil pointer is copied to a nil pointer, any other to a new variable with a copy of the contents.
  abbrev pub copy_pointer : {A : Type 0} → Storable P A → (A → M P A) → Option ℕ → M P (Option ℕ)
  copy_pointer S into none = pure none
  copy_pointer S into (some p) = do a ← load S p; b ← into a; q ← new S b; pure (some q)

  abbrev pub probe_into : Probe → M P Probe
  probe_into in_ = pure in_

  abbrev pub rack_into : Rack → M P Rack
  rack_into in_ = pure in_

  unfoldable pub policy_into : RetentionPolicyObject → M P RetentionPolicyObject
  policy_into in_ = do
    days ← copy_pointer stored_int32 pure in_.retention_period_days
    seconds ← copy_pointer stored_int32 pure in_.cleanup_timeout_seconds
    pure (record in_ { retention_period_days = days; cleanup_timeout_seconds = seconds })

  unfoldable pub snapshot_into : SnapshotObject → M P SnapshotObject
  snapshot_into in_ = do
    keyspaces ← copy_pointer stored_texts pure in_.keyspaces
    seconds ← copy_pointer stored_int32 pure in_.timeout_seconds
    policy ← copy_pointer stored_policy policy_into in_.retention_policy
    pure
        (record in_ { keyspaces = keyspaces; timeout_seconds = seconds; retention_policy = policy })

  unfoldable pub deep_copy_probe : Option ℕ → M P (Option ℕ)
  deep_copy_probe in_ = copy_pointer stored_probe probe_into in_

  unfoldable pub deep_copy_rack : Option ℕ → M P (Option ℕ)
  deep_copy_rack in_ = copy_pointer stored_rack rack_into in_

  unfoldable pub deep_copy_policy : Option ℕ → M P (Option ℕ)
  deep_copy_policy in_ = copy_pointer stored_policy policy_into in_

  unfoldable pub deep_copy_snapshot : Option ℕ → M P (Option ℕ)
  deep_copy_snapshot in_ = copy_pointer stored_snapshot snapshot_into in_

  module _ (copy_quantity : P.Quantity → P.Quantity) where
    unfoldable pub pod_into : PodObject P → M P (PodObject P)
    pod_into in_ = do
      liveness ← copy_pointer stored_probe pure in_.liveness_probe
      readiness ← copy_pointer stored_probe pure in_.readiness_probe
      pure (record in_ {
        storage_size = copy_quantity in_.storage_size;
        memory = copy_quantity in_.memory;
        cpu = copy_quantity in_.cpu;
        liveness_probe = liveness;
        readiness_probe = readiness;
      })

    unfoldable pub spec_into : CassandraSpecObject P → M P (CassandraSpecObject P)
    spec_into in_ = do
      racks ← copy_pointer stored_racks pure in_.racks
      pod ← pod_into in_.pod
      snapshot ← copy_pointer stored_snapshot snapshot_into in_.snapshot
      pure (record in_ { racks = racks; pod = pod; snapshot = snapshot })

    unfoldable pub cassandra_into : CassandraObject P → M P (CassandraObject P)
    cassandra_into in_ = do spec ← spec_into in_.spec; pure (record in_ { spec = spec })

    -- The loop over the items of a list.
    unfoldable pub each_into : List (CassandraObject P) → M P (List (CassandraObject P))
    each_into [] = pure []
    each_into (in_ ∷ items) = do out ← cassandra_into in_; outs ← each_into items; pure (out ∷ outs)

    unfoldable pub list_into : CassandraListObject → M P CassandraListObject
    list_into in_ = do
      items ← copy_pointer stored_cassandras each_into in_.items
      pure (record { items = items })

    unfoldable pub deep_copy_pod : Option ℕ → M P (Option ℕ)
    deep_copy_pod in_ = copy_pointer stored_pod pod_into in_

    unfoldable pub deep_copy_spec : Option ℕ → M P (Option ℕ)
    deep_copy_spec in_ = copy_pointer stored_spec spec_into in_

    unfoldable pub deep_copy : Option ℕ → M P (Option ℕ)
    deep_copy in_ = copy_pointer stored_cassandra cassandra_into in_

    unfoldable pub deep_copy_list : Option ℕ → M P (Option ℕ)
    deep_copy_list in_ = copy_pointer stored_cassandra_list list_into in_

    -- DeepCopyObject, which keeps a nil pointer from becoming an interface that is not nil.
    unfoldable pub deep_copy_object : Option ℕ → M P (Option ℕ)
    unfolding deep_copy
    deep_copy_object in_ = do
      c ← deep_copy in_
      elim c [ none ↦ pure none | some out ↦ pure (some out) ]

    unfoldable pub deep_copy_list_object : Option ℕ → M P (Option ℕ)
    unfolding deep_copy_list
    deep_copy_list_object in_ = do
      c ← deep_copy_list in_
      elim c [ none ↦ pure none | some out ↦ pure (some out) ]
