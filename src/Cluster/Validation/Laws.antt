-- ===== src/Cluster/Validation/Laws.antt =====
-- The checks of cluster.go decide a description of the definitions that the operator can run.
use cassandra_operator.Base.{
  ==_iff, ◌≡◌, ◌≢◌, ◌↔◌, ◌⊎◌, refl, Bool, true, false, Option, none, some, List, [], ◌∷◌, All,
  arith,
}
use cassandra_operator.Base.Int.{ℤ, pos, ◌≤ℤ◌}
use cassandra_operator.Platform.{Platform}
use cassandra_operator.Api.{Probe, Rack, Snapshot, RetentionPolicy, Cassandra}
use cassandra_operator.Cluster.Validation.{
  ProbeKind, ValidationError, ◌otherwise◌, validate_rack, validate_each_rack, validate_racks,
  validate_pod_resources, validate_retention_policy, validate_snapshot, validate_probe,
  validate_liveness_probe, validate_readiness_probe,
}

-- At least one replica, and a storage class and a zone unless the data lives in an emptyDir.
abbrev pub ValidRack : Bool → Rack → Type 0
ValidRack use_empty_dir rack =
    (pos 1 ≤ℤ rack.replicas)
    × ((rack.storage_class ≢ "") ⊎ (use_empty_dir ≡ true))
    × ((rack.zone ≢ "") ⊎ (use_empty_dir ≡ true))

validate_rack_iff : (u : Bool) (rack : Rack) → (validate_rack u rack ≡ none) ↔ ValidRack u rack
unfolding validate_rack
validate_rack_iff u rack = ground (arith, ==_iff rack.storage_class "", ==_iff rack.zone "")

otherwise_iff :
    (a b : Option ValidationError) → ((a otherwise b) ≡ none) ↔ ((a ≡ none) × (b ≡ none))
otherwise_iff a b = ground arith

validate_each_rack_iff :
    (u : Bool) (racks : List Rack) → (validate_each_rack u racks ≡ none) ↔ All (ValidRack u) racks
unfolding validate_each_rack
validate_each_rack_iff u [] = (λ h. tt, λ h. refl)
validate_each_rack_iff u (rack ∷ racks) =
    let r = validate_rack_iff u rack in
    let rs = validate_each_rack_iff u racks in
    let o = otherwise_iff (validate_rack u rack) (validate_each_rack u racks) in
    (λ h. (r.0 (o.0 h).0, rs.0 (o.0 h).1), λ v. o.1 (r.1 v.0, rs.1 v.1))

-- Five settings of at least 1.
abbrev pub ValidProbe : Probe → Type 0
ValidProbe p =
    (pos 1 ≤ℤ p.failure_threshold)
    × (pos 1 ≤ℤ p.initial_delay_seconds)
    × (pos 1 ≤ℤ p.period_seconds)
    × (pos 1 ≤ℤ p.success_threshold)
    × (pos 1 ≤ℤ p.timeout_seconds)

pub validate_probe_iff : (k : ProbeKind) (p : Probe) → (validate_probe k p ≡ none) ↔ ValidProbe p
unfolding validate_probe
validate_probe_iff k p = ground arith

pub validate_liveness_probe_iff :
    (p : Probe)
    → (validate_liveness_probe p ≡ none) ↔ (ValidProbe p × (p.success_threshold ≡ pos 1))
unfolding validate_liveness_probe
validate_liveness_probe_iff p = ground arith

pub validate_readiness_probe_iff : (p : Probe) → (validate_readiness_probe p ≡ none) ↔ ValidProbe p
unfolding validate_readiness_probe
validate_readiness_probe_iff p = ground arith

-- A number that is absent, or not negative.
abbrev pub NonNegative : Option ℤ → Type 0
NonNegative none = Unit
NonNegative (some n) = pos 0 ≤ℤ n

module _ (P : Platform) where
  abbrev pub ValidPolicy : Option RetentionPolicy → Type 0
  ValidPolicy none = Unit
  ValidPolicy (some p) =
      NonNegative p.retention_period_days
      × NonNegative p.cleanup_timeout_seconds
      × ((p.cleanup_schedule ≡ "") ⊎ (P.cron_parses p.cleanup_schedule ≡ true))

  abbrev pub ValidSnapshot : Option Snapshot → Type 0
  ValidSnapshot none = Unit
  ValidSnapshot (some s) =
      (s.schedule ≢ "")
      × (P.cron_parses s.schedule ≡ true)
      × NonNegative s.timeout_seconds
      × ValidPolicy s.retention_policy

  validate_retention_policy_iff :
      (p : Option RetentionPolicy) → (validate_retention_policy P p ≡ none) ↔ ValidPolicy p
  unfolding validate_retention_policy
  validate_retention_policy_iff none = (λ h. tt, λ h. refl)
  validate_retention_policy_iff (some p) = ground (arith, ==_iff p.cleanup_schedule "")

  pub validate_snapshot_iff :
      (s : Option Snapshot) → (validate_snapshot P s ≡ none) ↔ ValidSnapshot s
  unfolding validate_snapshot
  validate_snapshot_iff none = (λ h. tt, λ h. refl)
  validate_snapshot_iff (some s) =
      ground (arith, ==_iff s.schedule "", validate_retention_policy_iff s.retention_policy)

module _ {P : Platform} where
  abbrev pub ValidRacks : Cassandra P → Type 0
  ValidRacks d = (d.spec.racks ≢ []) × All (ValidRack d.spec.use_empty_dir) d.spec.racks

  -- Memory is asked for, and storage exactly if the data does not live in an emptyDir.
  abbrev pub ValidResources : Cassandra P → Type 0
  ValidResources d =
      (P.is_zero d.spec.pod.memory ≡ false)
      × (P.is_zero d.spec.pod.storage_size ≡ d.spec.use_empty_dir)

  pub validate_racks_iff : (d : Cassandra P) → (validate_racks d ≡ none) ↔ ValidRacks d
  unfolding validate_racks
  validate_racks_iff d = ground (arith, validate_each_rack_iff d.spec.use_empty_dir d.spec.racks)

  pub validate_pod_resources_iff :
      (d : Cassandra P) → (validate_pod_resources d ≡ none) ↔ ValidResources d
  unfolding validate_pod_resources
  validate_pod_resources_iff d = ground arith
