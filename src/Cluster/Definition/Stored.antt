-- ===== src/Cluster/Definition/Stored.antt =====
-- The definition that CopyInto stores: complete, valid, and its own defaults.
use cassandra_operator.Base.{
  String, ◌==◌, ==_iff, ne_of_==, ◌≡◌, ◌≢◌, refl, ap, Option, none, some, arith, ok,
}
use cassandra_operator.Base.Int.{pos}
use cassandra_operator.Platform.{Platform}
use cassandra_operator.Api.{Probe, Snapshot, Cassandra}
use cassandra_operator.Cluster.{default_liveness_probe, default_readiness_probe, Cluster}
use cassandra_operator.Cluster.Validation.{ValidationError}
use cassandra_operator.Cluster.Validation.Laws.{
  ValidProbe, ValidRacks, ValidResources, ValidSnapshot,
}
use cassandra_operator.Cluster.Definition.{
  merge_probe_defaults, default_snapshot_image, prepare, copy_into, with_default_probe, stored,
  default_text, with_default_image, with_liveness, with_readiness,
}
use cassandra_operator.Cluster.Definition.Laws.{
  Acceptable, Accepted, AcceptableLiveness, AcceptableReadiness, prepare_accepts_iff,
}

abbrev pub HoldsProbe : (Probe → Type 0) → Option Probe → Type 0
HoldsProbe V none = ⊥
HoldsProbe V (some p) = V p

abbrev pub HasImage : Option Snapshot → Type 0
HasImage none = Unit
HasImage (some s) = s.image ≢ ""

-- Everything that the resources of a cluster are made from is there and in range.
pub record Complete {P : Platform} (d : Cassandra P) : Type 0 where
  pub racks : ValidRacks d
  pub resources : ValidResources d
  pub snapshot : ValidSnapshot P d.spec.snapshot
  pub snapshot_image : HasImage d.spec.snapshot
  pub dc : d.spec.dc ≢ ""
  pub image : d.spec.pod.image ≢ ""
  pub bootstrapper_image : d.spec.pod.bootstrapper_image ≢ ""
  pub liveness :
      HoldsProbe (λ p. ValidProbe p × (p.success_threshold ≡ pos 1)) d.spec.pod.liveness_probe
  pub readiness : HoldsProbe ValidProbe d.spec.pod.readiness_probe

default_text-ne : (d x : String) → d ≢ "" → default_text d x ≢ ""
default_text-ne d x h = ground (arith, ==_iff x "")

default_text_idem : (d x : String) → default_text d (default_text d x) ≡ default_text d x
default_text_idem d x = ground (arith, ==_iff x "")

merge_liveness :
    (p : Option Probe)
    → AcceptableLiveness p
    → let q = with_default_probe default_liveness_probe p in
      ValidProbe q × (q.success_threshold ≡ pos 1)
unfolding merge_probe_defaults
merge_liveness none h = ground arith
merge_liveness (some p) h = ground arith

merge_readiness :
    (p : Option Probe)
    → AcceptableReadiness p
    → ValidProbe (with_default_probe default_readiness_probe p)
unfolding merge_probe_defaults
merge_readiness none h = ground arith
merge_readiness (some p) h = ground arith

-- A probe with no setting at 0 is left as it is.
merge_ValidProbe : (d p : Probe) → ValidProbe p → merge_probe_defaults p d ≡ p
unfolding merge_probe_defaults
merge_ValidProbe d p h = ground arith

liveness_fixed :
    (o : Option Probe)
    → HoldsProbe (λ p. ValidProbe p × (p.success_threshold ≡ pos 1)) o
    → (some (with_default_probe default_liveness_probe o) ≡ o) × AcceptableLiveness o
liveness_fixed none h = absurd h
liveness_fixed (some p) h = (ap some (merge_ValidProbe default_liveness_probe p h.0), ground arith)

readiness_fixed :
    (o : Option Probe)
    → HoldsProbe ValidProbe o
    → (some (with_default_probe default_readiness_probe o) ≡ o) × AcceptableReadiness o
readiness_fixed none h = absurd h
readiness_fixed (some p) h = (ap some (merge_ValidProbe default_readiness_probe p h), ground arith)

image_fixed : (o : Option Snapshot) → HasImage o → with_default_image o ≡ o
image_fixed none h = refl
image_fixed (some s) h = ground (arith, ==_iff s.image "")

image_given : (o : Option Snapshot) → HasImage (with_default_image o)
unfolding ◌==◌
image_given none = tt
image_given (some s) = default_text-ne _ s.image (ne_of_== _ "" refl)

image_ValidSnapshot :
    (P : Platform) (o : Option Snapshot)
    → ValidSnapshot P o
    → ValidSnapshot P (with_default_image o)
image_ValidSnapshot P none h = tt
image_ValidSnapshot P (some s) h = h

module _ {P : Platform} where
  -- The definition with its defaults, before and after the assignments to the copy.
  defaulted : Cassandra P → Cassandra P
  unfolding default_snapshot_image
  defaulted d = with_readiness (with_liveness (default_snapshot_image d))

  prepare-Accepted :
      (d : Cassandra P)
      → Accepted (prepare d).0
      → prepare d ≡ (ok (stored (defaulted d)), defaulted d)
  unfolding prepare defaulted
  prepare-Accepted d h = ground arith

  prepare-ok :
      (d s : Cassandra P) → (prepare d).0 ≡ ok s → (s ≡ stored (defaulted d)) × Acceptable d
  prepare-ok d s h =
      let a : Accepted (prepare d).0 = rw h tt in
      (cc (h, prepare-Accepted d a), (prepare_accepts_iff d).0 a)

  stored-Complete : (d : Cassandra P) → Acceptable d → Complete (stored (defaulted d))
  unfolding defaulted ◌==◌
  stored-Complete d a = record {
    racks = a.0;
    resources = a.1;
    snapshot = image_ValidSnapshot P d.spec.snapshot a.2;
    snapshot_image = image_given d.spec.snapshot;
    dc = default_text-ne _ d.spec.dc (ne_of_== _ "" refl);
    image = default_text-ne _ d.spec.pod.image (ne_of_== _ "" refl);
    bootstrapper_image = default_text-ne _ d.spec.pod.bootstrapper_image (ne_of_== _ "" refl);
    liveness = merge_liveness d.spec.pod.liveness_probe a.3;
    readiness = merge_readiness d.spec.pod.readiness_probe a.4;
  }

  -- If a definition is accepted, the one that is stored for it is complete: its racks, resources and
  -- snapshot are valid; its data centre, its pod's two images, the image of a snapshot that it has, and
  -- its two probes are set; and the probes are valid, the liveness probe with a success threshold of 1.
  pub prepare-Complete : (d s : Cassandra P) → (prepare d).0 ≡ ok s → Complete s
  prepare-Complete d s h = let (e, a) = prepare-ok d s h in rw e (stored-Complete d a)

  Complete-Acceptable : (s : Cassandra P) → Complete s → Acceptable s
  Complete-Acceptable s c = (
    c.racks,
    c.resources,
    c.snapshot,
    (liveness_fixed _ c.liveness).1,
    (readiness_fixed _ c.readiness).1,
  )

  defaulted_fixed : (s : Cassandra P) → Complete s → (defaulted s ≡ s) × (stored s ≡ s)
  unfolding defaulted
  defaulted_fixed s c = (
    ground (
      arith,
      image_fixed _ c.snapshot_image,
      (liveness_fixed _ c.liveness).0,
      (readiness_fixed _ c.readiness).0,
    ),
    ground (
      arith,
      ==_iff s.spec.dc "",
      ==_iff s.spec.pod.image "",
      ==_iff s.spec.pod.bootstrapper_image "",
    ),
  )

  -- A complete definition is accepted as it is.
  prepare_fixed : (s : Cassandra P) → Complete s → prepare s ≡ (ok s, s)
  prepare_fixed s c =
      let (d, t) = defaulted_fixed s c in
      let a = (prepare_accepts_iff s).1 (Complete-Acceptable s c) in cc (prepare-Accepted s a, d, t)

  -- If a definition is accepted, the one that is stored for it is accepted in turn and is stored
  -- unchanged.
  pub prepare_idem : (d s : Cassandra P) → (prepare d).0 ≡ ok s → prepare s ≡ (ok s, s)
  prepare_idem d s h = prepare_fixed s (prepare-Complete d s h)

  -- If CopyInto returns an error, the cluster is what it was.
  pub copy_into_error :
      (c : Cluster P) (d : Cassandra P) {e : ValidationError}
      → (copy_into c d).0 ≡ some e
      → (copy_into c d).1 ≡ c
  unfolding copy_into
  copy_into_error c d h = ground arith
