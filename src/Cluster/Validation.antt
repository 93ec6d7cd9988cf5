-- ===== src/Cluster/Validation.antt =====
-- The checks of cluster.go. An error message is a constructor that carries the values it prints.
pub mod Laws
use cassandra_operator.Base.{
  String, ◌==◌, Bool, true, false, not, ◌&&◌, Option, none, some, List, [], ◌∷◌, is_empty,
  if◌then◌else◌,
}
use cassandra_operator.Base.Int.{ℤ, pos, ltb_ℤ, eqb_ℤ}
use cassandra_operator.Platform.{Platform}
use cassandra_operator.Api.{Probe, Rack, Snapshot, RetentionPolicy, Cassandra}

pub data ProbeKind : Type 0 where
  liveness readiness : ProbeKind

pub data ValidationError : Type 0 where
  no_racks : ValidationError
  invalid_rack_replicas : ℤ → ValidationError
  no_storage_class no_zone : String → ValidationError
  no_pod_memory unexpected_pod_storage_size no_pod_storage_size : ValidationError
  no_snapshot_schedule : ValidationError
  invalid_snapshot_schedule : String → ValidationError
  invalid_snapshot_timeout invalid_retention_period invalid_cleanup_timeout : ℤ → ValidationError
  invalid_cleanup_schedule : String → ValidationError
  invalid_liveness_success_threshold : ValidationError
  invalid_failure_threshold invalid_initial_delay : ProbeKind → ℤ → ValidationError
  invalid_period invalid_success_threshold invalid_timeout : ProbeKind → ℤ → ValidationError

-- One check after another; the first error is returned.
infixr 20 ◌otherwise◌
abbrev pub ◌otherwise◌ : Option ValidationError → Option ValidationError → Option ValidationError
none otherwise b = b
(some e) otherwise b = some e

validate_rack : Bool → Rack → Option ValidationError
validate_rack use_empty_dir rack =
    if ltb_ℤ rack.replicas (pos 1)
    then some (invalid_rack_replicas rack.replicas)
    else if rack.storage_class == "" && not use_empty_dir
    then some (no_storage_class rack.name)
    else if rack.zone == "" && not use_empty_dir
    then some (no_zone rack.name)
    else none

validate_each_rack : Bool → List Rack → Option ValidationError
validate_each_rack use_empty_dir [] = none
validate_each_rack use_empty_dir (rack ∷ racks) =
    validate_rack use_empty_dir rack otherwise validate_each_rack use_empty_dir racks

-- *p < 0 where p is not nil
abbrev negative : Option ℤ → (ℤ → ValidationError) → Option ValidationError
negative none e = none
negative (some n) e = if ltb_ℤ n (pos 0) then some (e n) else none

unfoldable pub validate_probe : ProbeKind → Probe → Option ValidationError
validate_probe name probe =
    if ltb_ℤ probe.failure_threshold (pos 1)
    then some (invalid_failure_threshold name probe.failure_threshold)
    else if ltb_ℤ probe.initial_delay_seconds (pos 1)
    then some (invalid_initial_delay name probe.initial_delay_seconds)
    else if ltb_ℤ probe.period_seconds (pos 1)
    then some (invalid_period name probe.period_seconds)
    else if ltb_ℤ probe.success_threshold (pos 1)
    then some (invalid_success_threshold name probe.success_threshold)
    else if ltb_ℤ probe.timeout_seconds (pos 1)
    then some (invalid_timeout name probe.timeout_seconds)
    else none

unfoldable pub validate_liveness_probe : Probe → Option ValidationError
unfolding validate_probe
validate_liveness_probe probe =
    if not (eqb_ℤ probe.success_threshold (pos 1))
    then some invalid_liveness_success_threshold
    else validate_probe liveness probe

unfoldable pub validate_readiness_probe : Probe → Option ValidationError
unfolding validate_probe
validate_readiness_probe probe = validate_probe readiness probe

module _ {P : Platform} where
  unfoldable pub validate_racks : Cassandra P → Option ValidationError
  unfolding validate_rack validate_each_rack
  validate_racks c =
      if is_empty c.spec.racks
      then some no_racks
      else validate_each_rack c.spec.use_empty_dir c.spec.racks

  unfoldable pub validate_pod_resources : Cassandra P → Option ValidationError
  validate_pod_resources c =
      if P.is_zero c.spec.pod.memory
      then some no_pod_memory
      else if c.spec.use_empty_dir && not (P.is_zero c.spec.pod.storage_size)
      then some unexpected_pod_storage_size
      else if not c.spec.use_empty_dir && P.is_zero c.spec.pod.storage_size
      then some no_pod_storage_size
      else none

module _ (P : Platform) where
  validate_retention_policy : Option RetentionPolicy → Option ValidationError
  validate_retention_policy none = none
  validate_retention_policy (some policy) =
      negative policy.retention_period_days invalid_retention_period
      otherwise negative policy.cleanup_timeout_seconds invalid_cleanup_timeout
      otherwise (if policy.cleanup_schedule == ""
          then none
          else if P.cron_parses policy.cleanup_schedule
          then none
          else some (invalid_cleanup_schedule policy.cleanup_schedule))

  unfoldable pub validate_snapshot : Option Snapshot → Option ValidationError
  unfolding validate_retention_policy
  validate_snapshot none = none
  validate_snapshot (some snapshot) =
      if snapshot.schedule == ""
      then some no_snapshot_schedule
      else if not (P.cron_parses snapshot.schedule)
      then some (invalid_snapshot_schedule snapshot.schedule)
      else negative snapshot.timeout_seconds invalid_snapshot_timeout
        otherwise validate_retention_policy snapshot.retention_policy
