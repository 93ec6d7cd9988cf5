-- ===== src/Cluster/Definition.antt =====
-- New and CopyInto of cluster.go: validation, defaults, and the copy that the operator keeps. CopyInto
-- writes defaults into the definition that it is given, also on some of the paths that fail, so the
-- definition comes back beside the result.
pub mod Laws
pub mod Stored
use cassandra_operator.Base.{
  String, ◌==◌, Bool, true, false, Option, none, some, if◌then◌else◌, Result, ok, err,
}
use cassandra_operator.Base.Int.{ℤ, pos, eqb_ℤ}
use cassandra_operator.Platform.{Platform}
use cassandra_operator.Api.{Probe, Pod, Snapshot, CassandraSpec, Cassandra}
use cassandra_operator.Cluster.{
  default_cassandra_image, default_cassandra_bootstrapper_image, default_cassandra_snapshot_image,
  default_dc_name, default_liveness_probe, default_readiness_probe, Cluster,
}
use cassandra_operator.Cluster.Validation.{
  ValidationError, validate_racks, validate_pod_resources, validate_snapshot,
  validate_liveness_probe, validate_readiness_probe,
}

-- if x == "" { x = d }
abbrev pub default_text : String → String → String
default_text d x = if x == "" then d else x

abbrev default_int : ℤ → ℤ → ℤ
default_int d x = if eqb_ℤ x (pos 0) then d else x

unfoldable pub merge_probe_defaults : Probe → Probe → Probe
merge_probe_defaults configured default = record {
  failure_threshold = default_int default.failure_threshold configured.failure_threshold;
  initial_delay_seconds =
      default_int default.initial_delay_seconds configured.initial_delay_seconds;
  period_seconds = default_int default.period_seconds configured.period_seconds;
  success_threshold = default_int default.success_threshold configured.success_threshold;
  timeout_seconds = default_int default.timeout_seconds configured.timeout_seconds;
}

-- The probe that the definition holds afterwards, and the check that a given probe must pass.
abbrev with_default_probe : Probe → Option Probe → Probe
with_default_probe default none = default
with_default_probe default (some probe) = merge_probe_defaults probe default

abbrev check_probe :
    (Probe → Option ValidationError) → Probe → Option Probe → Option ValidationError
check_probe validate default none = none
check_probe validate default (some probe) = validate (merge_probe_defaults probe default)

abbrev with_default_image : Option Snapshot → Option Snapshot
with_default_image none = none
with_default_image (some s) =
    some (record s { image = default_text default_cassandra_snapshot_image s.image })

module _ {P : Platform} where
  abbrev with_pod : Cassandra P → Pod P → Cassandra P
  with_pod d pod = record d { spec = record d.spec { pod = pod } }

  unfoldable pub default_snapshot_image : Cassandra P → Cassandra P
  default_snapshot_image d = record d {
    spec = record d.spec { snapshot = with_default_image d.spec.snapshot };
  }

  abbrev with_liveness : Cassandra P → Cassandra P
  with_liveness d = with_pod d (record d.spec.pod {
    liveness_probe = some (with_default_probe default_liveness_probe d.spec.pod.liveness_probe);
  })

  abbrev with_readiness : Cassandra P → Cassandra P
  with_readiness d = with_pod d (record d.spec.pod {
    readiness_probe = some (with_default_probe default_readiness_probe d.spec.pod.readiness_probe);
  })

  -- cluster.definition = clusterDefinition.DeepCopy() and the three assignments below it
  abbrev stored : Cassandra P → Cassandra P
  stored d = record d {
    spec = record d.spec {
      dc = default_text default_dc_name d.spec.dc;
      pod = record d.spec.pod {
        bootstrapper_image =
            default_text default_cassandra_bootstrapper_image d.spec.pod.bootstrapper_image;
        image = default_text default_cassandra_image d.spec.pod.image;
      };
    };
  }

  -- CopyInto below its three first checks.
  apply_defaults : Cassandra P → Result ValidationError (Cassandra P) × Cassandra P
  unfolding default_snapshot_image merge_probe_defaults
  apply_defaults d =
      let d1 = with_liveness (default_snapshot_image d) in
      let d2 = with_readiness d1 in
      elim (check_probe validate_liveness_probe default_liveness_probe d.spec.pod.liveness_probe) [
        | some e ↦ (err e, d1)
        | none ↦
            elim (check_probe validate_readiness_probe default_readiness_probe
              d.spec.pod.readiness_probe) [ some e ↦ (err e, d2) | none ↦ (ok (stored d2), d2) ]
      ]

  -- The definition that CopyInto stores, or its error; and the definition that it was given, as it
  -- leaves it.
  unfoldable pub prepare : Cassandra P → Result ValidationError (Cassandra P) × Cassandra P
  unfolding apply_defaults
  prepare d = elim (validate_racks d) [
    | some e ↦ (err e, d)
    | none ↦ elim (validate_pod_resources d) [
      | some e ↦ (err e, d)
      | none ↦ elim (validate_snapshot P d.spec.snapshot) [
        | some e ↦ (err e, d)
        | none ↦ apply_defaults d
      ]
    ]
  ]

  abbrev install :
      Cluster P → Result ValidationError (Cassandra P) → Option ValidationError × Cluster P
  install c (ok d) = (none, record c { definition = d })
  install c (err e) = (some e, c)

  -- The error if any, the cluster, and the definition as CopyInto leaves it.
  unfoldable pub copy_into :
      Cluster P → Cassandra P → Option ValidationError × Cluster P × Cassandra P
  unfolding prepare
  copy_into c d = let (r, d') = prepare d in let (e, c') = install c r in (e, c', d')

  abbrev fresh : Result ValidationError (Cassandra P) → Result ValidationError (Cluster P)
  fresh (ok d) = ok (record { definition = d; online = false })
  fresh (err e) = err e

  unfoldable pub new : Cassandra P → Result ValidationError (Cluster P) × Cassandra P
  unfolding prepare
  new d = let (r, d') = prepare d in (fresh r, d')
