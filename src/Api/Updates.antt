-- ===== src/Api/Updates.antt =====
-- When the comparison of two snapshots panics, and what it tells otherwise.
use cassandra_operator.Base.{
  String, ==_iff, ◌≡◌, ◌≢◌, ◌⊎◌, ◌↔◌, true, false, Option, none, some, arith, List, [], ◌∷◌,
}
use cassandra_operator.Base.Int.{ℤ}
use cassandra_operator.Api.{
  Snapshot, RetentionPolicy, values_differ, snapshot_properties_updated, retention_policies_differ,
  snapshot_cleanup_properties_updated, deep_equal_texts, equal_texts,
}

values_differ-none_iff : (p q : Option ℤ) → (values_differ p q ≡ none) ↔ ((p ≡ none) ⊎ (q ≡ none))
unfolding values_differ
values_differ-none_iff none q = ground arith
values_differ-none_iff (some a) none = ground arith
values_differ-none_iff (some a) (some b) = ground arith

-- Comparing two snapshots panics exactly if their schedules are equal and one of them has no timeout.
pub snapshot_properties_updated_panics_iff :
    (s t : Snapshot)
    → (snapshot_properties_updated s t ≡ none)
      ↔ ((s.schedule ≡ t.schedule) × ((s.timeout_seconds ≡ none) ⊎ (t.timeout_seconds ≡ none)))
unfolding snapshot_properties_updated values_differ
snapshot_properties_updated_panics_iff s t = ground (arith, ==_iff s.schedule t.schedule)

equal_texts_iff : (ss ts : List String) → (equal_texts ss ts ≡ true) ↔ (ss ≡ ts)
unfolding equal_texts
equal_texts_iff [] [] = ground arith
equal_texts_iff [] (t ∷ ts) = ground arith
equal_texts_iff (s ∷ ss) [] = ground arith
equal_texts_iff (s ∷ ss) (t ∷ ts) = ground (arith, ==_iff s t, equal_texts_iff ss ts)

pub deep_equal_texts_iff : (s t : Option (List String)) → (deep_equal_texts s t ≡ true) ↔ (s ≡ t)
unfolding deep_equal_texts
deep_equal_texts_iff none none = ground arith
deep_equal_texts_iff none (some ts) = ground arith
deep_equal_texts_iff (some ss) none = ground arith
deep_equal_texts_iff (some ss) (some ts) = ground (arith, equal_texts_iff ss ts)

-- Comparing two snapshots tells no change exactly if the schedules, the keyspaces and the timeouts are
-- equal and the timeouts are given.
pub snapshot_properties_updated-false_iff :
    (s t : Snapshot)
    → (snapshot_properties_updated s t ≡ some false) ↔ (
        (s.schedule ≡ t.schedule)
        × (s.timeout_seconds ≡ t.timeout_seconds)
        × (s.timeout_seconds ≢ none)
        × (s.keyspaces ≡ t.keyspaces))
unfolding snapshot_properties_updated values_differ
snapshot_properties_updated-false_iff s t =
    ground (arith, ==_iff s.schedule t.schedule, deep_equal_texts_iff s.keyspaces t.keyspaces)

-- For two snapshots that both have a retention policy, comparing the policies panics exactly if the
-- cleanup schedules are equal, and a cleanup timeout is missing, or the timeouts are equal and a
-- retention period is missing.
pub snapshot_cleanup_properties_updated_panics_iff :
    (s t : Snapshot) {p q : RetentionPolicy}
    → s.retention_policy ≡ some p
    → t.retention_policy ≡ some q
    → (snapshot_cleanup_properties_updated s t ≡ none) ↔ (
        (p.cleanup_schedule ≡ q.cleanup_schedule)
        × (((p.cleanup_timeout_seconds ≡ none) ⊎ (q.cleanup_timeout_seconds ≡ none))
            ⊎ ((p.cleanup_timeout_seconds ≡ q.cleanup_timeout_seconds)
                × ((p.retention_period_days ≡ none) ⊎ (q.retention_period_days ≡ none)))))
unfolding snapshot_cleanup_properties_updated retention_policies_differ values_differ
snapshot_cleanup_properties_updated_panics_iff s t {p} {q} a b =
    ground (arith, ==_iff p.cleanup_schedule q.cleanup_schedule)
