-- ===== src/Cluster/Definition/Laws.antt =====
-- Which definitions CopyInto accepts, what it stores, and what it leaves alone.
use cassandra_operator.Base.{◌≡◌, ◌↔◌, refl, Option, none, some, arith, Result, ok, err}
use cassandra_operator.Base.Int.{pos, ◌≤ℤ◌}
use cassandra_operator.Platform.{Platform}
use cassandra_operator.Api.{Probe, Cassandra}
use cassandra_operator.Cluster.{default_liveness_probe, default_readiness_probe}
use cassandra_operator.Cluster.Validation.{
  ValidationError, validate_racks, validate_pod_resources, validate_snapshot,
  validate_liveness_probe, validate_readiness_probe,
}
use cassandra_operator.Cluster.Validation.Laws.{
  ValidRacks, ValidResources, ValidSnapshot, validate_racks_iff, validate_pod_resources_iff,
  validate_snapshot_iff,
}
use cassandra_operator.Cluster.Definition.{merge_probe_defaults, check_probe, prepare}

-- A given probe may leave a setting at 0 to have its default; no setting may be negative.
abbrev pub AcceptableProbe : Probe → Type 0
AcceptableProbe p =
    (pos 0 ≤ℤ p.failure_threshold)
    × (pos 0 ≤ℤ p.initial_delay_seconds)
    × (pos 0 ≤ℤ p.period_seconds)
    × (pos 0 ≤ℤ p.success_threshold)
    × (pos 0 ≤ℤ p.timeout_seconds)

abbrev pub AcceptableLiveness : Option Probe → Type 0
AcceptableLiveness none = Unit
AcceptableLiveness (some p) = AcceptableProbe p × (p.success_threshold ≤ℤ pos 1)

abbrev pub AcceptableReadiness : Option Probe → Type 0
AcceptableReadiness none = Unit
AcceptableReadiness (some p) = AcceptableProbe p

-- CopyInto's result is a definition to store.
abbrev pub Accepted {ℓ} : {A : Type ℓ} → Result ValidationError A → Type 0
Accepted (ok d) = Unit
Accepted (err e) = ⊥

check_liveness_iff :
    (p : Option Probe)
    → (check_probe validate_liveness_probe default_liveness_probe p ≡ none) ↔ AcceptableLiveness p
unfolding merge_probe_defaults validate_liveness_probe
check_liveness_iff none = (λ h. tt, λ h. refl)
check_liveness_iff (some p) = ground arith

check_readiness_iff :
    (p : Option Probe)
    → (check_probe validate_readiness_probe default_readiness_probe p ≡ none)
      ↔ AcceptableReadiness p
unfolding merge_probe_defaults validate_readiness_probe
check_readiness_iff none = (λ h. tt, λ h. refl)
check_readiness_iff (some p) = ground arith

module _ {P : Platform} where
  abbrev pub Acceptable : Cassandra P → Type 0
  Acceptable d =
      ValidRacks d
      × ValidResources d
      × ValidSnapshot P d.spec.snapshot
      × AcceptableLiveness d.spec.pod.liveness_probe
      × AcceptableReadiness d.spec.pod.readiness_probe

  prepare_accepts_iff_checks :
      (d : Cassandra P)
      → Accepted (prepare d).0 ↔ (
          (validate_racks d ≡ none)
          × (validate_pod_resources d ≡ none)
          × (validate_snapshot P d.spec.snapshot ≡ none)
          × (check_probe validate_liveness_probe default_liveness_probe d.spec.pod.liveness_probe
              ≡ none)
          × (check_probe validate_readiness_probe default_readiness_probe d.spec.pod.readiness_probe
              ≡ none))
  unfolding prepare
  prepare_accepts_iff_checks d = ground arith

  -- A definition passes every check exactly if its racks, its pod's memory and storage, its snapshot
  -- with its retention policy, and its two probes are acceptable, where a probe's setting may be 0 to
  -- have its default and a liveness probe's success threshold is at most 1.
  pub prepare_accepts_iff : (d : Cassandra P) → Accepted (prepare d).0 ↔ Acceptable d
  prepare_accepts_iff d =
      let c = prepare_accepts_iff_checks d in
      let r = validate_racks_iff d in
      let p = validate_pod_resources_iff d in
      let s = validate_snapshot_iff P d.spec.snapshot in
      let l = check_liveness_iff d.spec.pod.liveness_probe in
      let y = check_readiness_iff d.spec.pod.readiness_probe in
      (
        λ h. (r.0 (c.0 h).0, p.0 (c.0 h).1, s.0 (c.0 h).2, l.0 (c.0 h).3, y.0 (c.0 h).4),
        λ a. c.1 (r.1 a.0, p.1 a.1, s.1 a.2, l.1 a.3, y.1 a.4),
      )
