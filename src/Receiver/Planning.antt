-- ===== src/Receiver/Planning.antt =====
-- What the receiver plans for an update of the snapshot settings.
use cassandra_operator.Base.{ℕ, ◌≡◌, ◌↔◌, Bool, true, false, some, List, arith, Any}
use cassandra_operator.Api.{
  Snapshot, has_retention_policy_enabled, snapshot_properties_updated,
  snapshot_cleanup_properties_updated,
}
use cassandra_operator.Operations.{
  Operation, delete_snapshot_cleanup, update_snapshot, update_snapshot_cleanup,
  add_snapshot_cleanup,
}
use cassandra_operator.Receiver.{snapshot_operations}

abbrev pub Includes : Operation → List Operation → Type 0
Includes o operations = Any (λ p. p ≡ o) operations

-- For an update between two definitions that both have a snapshot, and whose comparison does not panic:
-- the cleanup job is deleted exactly if the retention policy was enabled and is no longer, the snapshot
-- job is updated exactly if the snapshot properties changed, the cleanup job is updated exactly if the
-- cleanup properties changed, and no cleanup job is ever added.
pub snapshot_operations_iff :
    (a d : ℕ) (old new : Snapshot) {modified cleanup_modified : Bool} {operations : List Operation}
    → snapshot_properties_updated old new ≡ some modified
    → snapshot_cleanup_properties_updated old new ≡ some cleanup_modified
    → snapshot_operations a d (some old) (some new) ≡ some operations
    → (Includes (delete_snapshot_cleanup d) operations
        ↔ ((has_retention_policy_enabled old ≡ true) × (has_retention_policy_enabled new ≡ false)))
      × (Includes (update_snapshot a d) operations ↔ (modified ≡ true))
      × (Includes (update_snapshot_cleanup a d) operations ↔ (cleanup_modified ≡ true))
      × (¬ Includes (add_snapshot_cleanup d) operations)
unfolding snapshot_operations
snapshot_operations_iff a d old new m c h = ground arith
