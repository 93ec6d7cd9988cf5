-- ===== src/Operator/Updates.antt =====
-- The comparisons of the operator's handlers decide equality.
use cassandra_operator.Base.{
  ◌==◌, ==_iff, ◌≡◌, ap, ◌↔◌, ◌&&◌, Bool, true, Option, none, some, List, [], ◌∷◌, arith,
}
use cassandra_operator.Base.Int.{ℤ, eqb_ℤ_iff}
use cassandra_operator.Platform.{Platform}
use cassandra_operator.Api.{Probe, Pod, Rack, RetentionPolicy, Snapshot, CassandraSpec}
use cassandra_operator.Api.Updates.{deep_equal_texts_iff}
use cassandra_operator.Adjuster.{deep_equal_probes}
use cassandra_operator.Operator.{
  deep_equal_numbers, equal_bools, deep_equal_policies, deep_equal_snapshots, equal_racks,
  deep_equal_racks, deep_equal_pods, deep_equal_specs,
}

equal_bools_iff : (a b : Bool) → (equal_bools a b ≡ true) ↔ (a ≡ b)
unfolding equal_bools
equal_bools_iff a b = ground arith

deep_equal_numbers_iff : (a b : Option ℤ) → (deep_equal_numbers a b ≡ true) ↔ (a ≡ b)
unfolding deep_equal_numbers
deep_equal_numbers_iff none none = ground arith
deep_equal_numbers_iff none (some b) = ground arith
deep_equal_numbers_iff (some a) none = ground arith
deep_equal_numbers_iff (some a) (some b) = ground (arith, eqb_ℤ_iff a b)

deep_equal_probes_iff : (p q : Option Probe) → (deep_equal_probes p q ≡ true) ↔ (p ≡ q)
unfolding deep_equal_probes
deep_equal_probes_iff none none = ground arith
deep_equal_probes_iff none (some q) = ground arith
deep_equal_probes_iff (some p) none = ground arith
deep_equal_probes_iff (some p) (some q) = ground (
  arith,
  eqb_ℤ_iff p.failure_threshold q.failure_threshold,
  eqb_ℤ_iff p.initial_delay_seconds q.initial_delay_seconds,
  eqb_ℤ_iff p.period_seconds q.period_seconds,
  eqb_ℤ_iff p.success_threshold q.success_threshold,
  eqb_ℤ_iff p.timeout_seconds q.timeout_seconds,
)

deep_equal_policies_iff :
    (p q : Option RetentionPolicy) → (deep_equal_policies p q ≡ true) ↔ (p ≡ q)
unfolding deep_equal_policies
deep_equal_policies_iff none none = ground arith
deep_equal_policies_iff none (some q) = ground arith
deep_equal_policies_iff (some p) none = ground arith
deep_equal_policies_iff (some p) (some q) = ground (
  arith,
  equal_bools_iff p.enabled q.enabled,
  deep_equal_numbers_iff p.retention_period_days q.retention_period_days,
  ==_iff p.cleanup_schedule q.cleanup_schedule,
  deep_equal_numbers_iff p.cleanup_timeout_seconds q.cleanup_timeout_seconds,
)

deep_equal_snapshots_iff : (s t : Option Snapshot) → (deep_equal_snapshots s t ≡ true) ↔ (s ≡ t)
unfolding deep_equal_snapshots
deep_equal_snapshots_iff none none = ground arith
deep_equal_snapshots_iff none (some t) = ground arith
deep_equal_snapshots_iff (some s) none = ground arith
deep_equal_snapshots_iff (some s) (some t) = ground (
  arith,
  ==_iff s.image t.image,
  ==_iff s.schedule t.schedule,
  deep_equal_texts_iff s.keyspaces t.keyspaces,
  deep_equal_numbers_iff s.timeout_seconds t.timeout_seconds,
  deep_equal_policies_iff s.retention_policy t.retention_policy,
)

deep_equal_racks_iff : (rs qs : List Rack) → (deep_equal_racks rs qs ≡ true) ↔ (rs ≡ qs)
unfolding deep_equal_racks equal_racks
deep_equal_racks_iff [] [] = ground arith
deep_equal_racks_iff [] (q ∷ qs) = ground arith
deep_equal_racks_iff (r ∷ rs) [] = ground arith
deep_equal_racks_iff (r ∷ rs) (q ∷ qs) = ground (
  arith,
  ==_iff r.name q.name,
  ==_iff r.zone q.zone,
  ==_iff r.storage_class q.storage_class,
  eqb_ℤ_iff r.replicas q.replicas,
  deep_equal_racks_iff rs qs,
)

all_true :
    (a b c d e : Bool)
    → ((a && b && c && d && e) ≡ true)
      ↔ ((a ≡ true) × ((b ≡ true) × ((c ≡ true) × ((d ≡ true) × (e ≡ true)))))
all_true a b c d e = ground arith

-- The comparison of two quantities is equality.
abbrev pub ComparesQuantities : Platform → Type 0
ComparesQuantities P = (a b : P.Quantity) → (P.deep_equal a b ≡ true) ↔ (a ≡ b)

module _ {P : Platform} (q : ComparesQuantities P) where
  deep_equal_pods_iff : (a b : Pod P) → (deep_equal_pods a b ≡ true) ↔ (a ≡ b)
  unfolding deep_equal_pods
  deep_equal_pods_iff a b = ground (
    arith,
    ==_iff a.bootstrapper_image b.bootstrapper_image,
    ==_iff a.image b.image,
    q a.storage_size b.storage_size,
    q a.memory b.memory,
    q a.cpu b.cpu,
    deep_equal_probes_iff a.liveness_probe b.liveness_probe,
    deep_equal_probes_iff a.readiness_probe b.readiness_probe,
  )

  pub deep_equal_specs_iff : (s t : CassandraSpec P) → (deep_equal_specs s t ≡ true) ↔ (s ≡ t)
  unfolding deep_equal_specs
  deep_equal_specs_iff s t =
      let dc = ==_iff s.dc t.dc in
      let racks = deep_equal_racks_iff s.racks t.racks in
      let use_empty_dir = equal_bools_iff s.use_empty_dir t.use_empty_dir in
      let pod = deep_equal_pods_iff s.pod t.pod in
      let snapshot = deep_equal_snapshots_iff s.snapshot t.snapshot in
      let a = s.dc == t.dc in
      let b = deep_equal_racks s.racks t.racks in
      let c = equal_bools s.use_empty_dir t.use_empty_dir in
      let d = deep_equal_pods s.pod t.pod in
      let e = deep_equal_snapshots s.snapshot t.snapshot in
      let f = all_true a b c d e in
      (
        λ h.
            let g = f.0 h in
            λ i. record {
              dc = dc.0 g.0 i;
              racks = racks.0 g.1.0 i;
              use_empty_dir = use_empty_dir.0 g.1.1.0 i;
              pod = pod.0 g.1.1.1.0 i;
              snapshot = snapshot.0 g.1.1.1.1 i;
            },
        λ h. f.1 (
          dc.1 (ap (λ x. x.dc) h),
          (
            racks.1 (ap (λ x. x.racks) h),
            (
              use_empty_dir.1 (ap (λ x. x.use_empty_dir) h),
              (pod.1 (ap (λ x. x.pod) h), snapshot.1 (ap (λ x. x.snapshot) h)),
            ),
          ),
        ),
      )
