-- ===== src/Api/Copies/Fields.antt =====
-- Each DeepCopyInto leaves a copy of what it is given.
use cassandra_operator.Base.{ℕ, String, Option, List, ◌≡◌, Option-cases, inl, inr, arith}
use cassandra_operator.Platform.{Platform}
use cassandra_operator.Api.{Cassandra, RetentionPolicy, Snapshot, Rack, Probe, Pod, CassandraSpec}
use cassandra_operator.Api.Memory.{
  PodObject, RetentionPolicyObject, SnapshotObject, CassandraSpecObject, CassandraObject,
  stored_int32, stored_probe, stored_policy, stored_snapshot, stored_texts, stored_racks,
}
use cassandra_operator.Api.Copies.{policy_into, snapshot_into, pod_into, spec_into, cassandra_into}
use cassandra_operator.Api.Copies.Reading.{
  read_policy, read_snapshot, read_pod, read_spec, read_cassandra,
}
use cassandra_operator.Api.Copies.Separate.{
  read_policy-IsMonotone, read_snapshot-IsMonotone, read_pod-IsMonotone, read_spec-IsMonotone,
  read_cassandra-IsMonotone,
}
use cassandra_operator.Api.Copies.Copying.{
  IsCopy, Later-refl, Copier, plain, pointer, field_step, still,
}
use cassandra_operator.Base.Int.{ℤ}

module _ {P : Platform} where
  pub policy_into-IsCopy : IsCopy (read_policy {P = P}) policy_into
  unfolding policy_into read_policy
  policy_into-IsCopy h o u v e =
      let ints : Copier P (Option ℕ) (Option ℤ) = pointer stored_int32 plain in
      elim (Option-cases (ints.read h o.retention_period_days)) [
        | inl z0 ↦ ground (arith, z0)
        | inr (w0, z0) ↦ elim (Option-cases (ints.read h o.cleanup_timeout_seconds)) [
          | inl z1 ↦ ground (arith, z0, z1)
          | inr (w1, z1) ↦
              field_step ints read_policy h h o.retention_period_days w0 u _ v (Later-refl h v) z0
                (λ a0 h0 p0 q0 e0.
                  field_step ints read_policy h h0 o.cleanup_timeout_seconds w1 u _ v p0 z1
                    (λ a1 h1 p1 q1 e1. (p1, ground (arith, still ints h p0 q1 e0, e1))))
        ]
      ]

  abbrev pub policies : Copier P RetentionPolicyObject RetentionPolicy
  policies = record {
    read = read_policy;
    into = policy_into;
    mono = read_policy-IsMonotone;
    copies = policy_into-IsCopy;
  }

  pub snapshot_into-IsCopy : IsCopy (read_snapshot {P = P}) snapshot_into
  unfolding snapshot_into read_snapshot
  snapshot_into-IsCopy h o u v e =
      let lists : Copier P (Option ℕ) (Option (List String)) = pointer stored_texts plain in
      let ints : Copier P (Option ℕ) (Option ℤ) = pointer stored_int32 plain in
      let policy = pointer stored_policy policies in
      elim (Option-cases (lists.read h o.keyspaces)) [
        | inl z0 ↦ ground (arith, z0)
        | inr (w0, z0) ↦ elim (Option-cases (ints.read h o.timeout_seconds)) [
          | inl z1 ↦ ground (arith, z0, z1)
          | inr (w1, z1) ↦ elim (Option-cases (policy.read h o.retention_policy)) [
            | inl z2 ↦ ground (arith, z0, z1, z2)
            | inr (w2, z2) ↦
                field_step lists read_snapshot h h o.keyspaces w0 u _ v (Later-refl h v) z0
                  (λ a0 h0 p0 q0 e0.
                    field_step ints read_snapshot h h0 o.timeout_seconds w1 u _ v p0 z1
                      (λ a1 h1 p1 q1 e1.
                        field_step policy read_snapshot h h1 o.retention_policy w2 u _ v p1 z2
                          (λ a2 h2 p2 q2 e2. (
                            p2,
                            ground (
                              arith,
                              still lists h p1 q2 (still lists h p0 q1 e0),
                              still ints h p1 q2 e1,
                              e2,
                            ),
                          ))))
          ]
        ]
      ]

  abbrev pub snapshots : Copier P SnapshotObject Snapshot
  snapshots = record {
    read = read_snapshot;
    into = snapshot_into;
    mono = read_snapshot-IsMonotone;
    copies = snapshot_into-IsCopy;
  }

  module _ (copy_quantity : P.Quantity → P.Quantity)
      (same : (q : P.Quantity) → copy_quantity q ≡ q) where
    pub pod_into-IsCopy : IsCopy (read_pod {P = P}) (pod_into copy_quantity)
    unfolding pod_into read_pod
    pod_into-IsCopy h o u v e =
        let probes : Copier P (Option ℕ) (Option Probe) = pointer stored_probe plain in
        elim (Option-cases (probes.read h o.liveness_probe)) [
          | inl z0 ↦ ground (arith, z0)
          | inr (w0, z0) ↦ elim (Option-cases (probes.read h o.readiness_probe)) [
            | inl z1 ↦ ground (arith, z0, z1)
            | inr (w1, z1) ↦
                field_step probes read_pod h h o.liveness_probe w0 u _ v (Later-refl h v) z0
                  (λ a0 h0 p0 q0 e0.
                    field_step probes read_pod h h0 o.readiness_probe w1 u _ v p0 z1
                      (λ a1 h1 p1 q1 e1. (
                        p1,
                        ground (
                          arith,
                          still probes h p0 q1 e0,
                          e1,
                          same o.storage_size,
                          same o.memory,
                          same o.cpu,
                        ),
                      )))
          ]
        ]

    abbrev pub pods : Copier P (PodObject P) (Pod P)
    pods = record {
      read = read_pod;
      into = pod_into copy_quantity;
      mono = read_pod-IsMonotone;
      copies = pod_into-IsCopy;
    }

    pub spec_into-IsCopy : IsCopy (read_spec {P = P}) (spec_into copy_quantity)
    unfolding spec_into read_spec
    spec_into-IsCopy h o u v e =
        let racks : Copier P (Option ℕ) (Option (List Rack)) = pointer stored_racks plain in
        let snaps = pointer stored_snapshot snapshots in
        elim (Option-cases (racks.read h o.racks)) [
          | inl z0 ↦ ground (arith, z0)
          | inr (w0, z0) ↦ elim (Option-cases (pods.read h o.pod)) [
            | inl z1 ↦ ground (arith, z0, z1)
            | inr (w1, z1) ↦ elim (Option-cases (snaps.read h o.snapshot)) [
              | inl z2 ↦ ground (arith, z0, z1, z2)
              | inr (w2, z2) ↦
                  field_step racks read_spec h h o.racks w0 u _ v (Later-refl h v) z0
                    (λ a0 h0 p0 q0 e0.
                      field_step pods read_spec h h0 o.pod w1 u _ v p0 z1 (λ a1 h1 p1 q1 e1.
                        field_step snaps read_spec h h1 o.snapshot w2 u _ v p1 z2 (λ a2 h2 p2 q2 e2.
                          (
                            p2,
                            ground (
                              arith,
                              still racks h p1 q2 (still racks h p0 q1 e0),
                              still pods h p1 q2 e1,
                              e2,
                            ),
                          ))))
            ]
          ]
        ]

    abbrev pub specs : Copier P (CassandraSpecObject P) (CassandraSpec P)
    specs = record {
      read = read_spec;
      into = spec_into copy_quantity;
      mono = read_spec-IsMonotone;
      copies = spec_into-IsCopy;
    }

    pub cassandra_into-IsCopy : IsCopy (read_cassandra {P = P}) (cassandra_into copy_quantity)
    unfolding cassandra_into read_cassandra
    cassandra_into-IsCopy h o u v e = elim (Option-cases (specs.read h o.spec)) [
      | inl z0 ↦ ground (arith, z0)
      | inr (w0, z0) ↦
          field_step specs read_cassandra h h o.spec w0 u _ v (Later-refl h v) z0
            (λ a0 h0 p0 q0 e0. (p0, ground (arith, e0)))
    ]

    abbrev pub resources : Copier P (CassandraObject P) (Cassandra P)
    resources = record {
      read = read_cassandra;
      into = cassandra_into copy_quantity;
      mono = read_cassandra-IsMonotone;
      copies = cassandra_into-IsCopy;
    }
