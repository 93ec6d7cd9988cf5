-- ===== src/Adjuster/Convergence.antt =====
-- The changes of adjuster.go, applied as they are meant, turn the racks of the old definition into
-- those of the new one.
use cassandra_operator.Base.{
  String, ==_iff, ◌≡◌, refl, Bool, true, false, Option, none, some, List, [], ◌∷◌, map, arith,
  if◌then◌else◌, ok, Option-cases, inl, inr,
}
use cassandra_operator.Adjuster.Racks.{
  after, rack_called, replicas_called, DistinctNames, find_rack-called,
}
use mathlib.Core.List.{foldl-append}
use cassandra_operator.Base.Int.{ℤ, ltb_ℤ}
use cassandra_operator.Platform.{Platform}
use cassandra_operator.Api.{Pod, Rack, CassandraSpec}
use cassandra_operator.Adjuster.{
  ClusterChange, find_rack, match_old, match_new, match_racks, scaled_up_racks, scaled_down_racks,
  changes, changes_for_cluster, added_change, deleted_change, scaled_down_change, updated_change,
  racks_to_update,
}

module _ (k : String) where
  -- The added racks.
  after-added_absent :
      (old new : List Rack) (o : Option ℤ)
      → rack_called k new ≡ none
      → after k o (map added_change (match_new old new)) ≡ o
  unfolding match_new rack_called
  after-added_absent old [] o h = refl
  after-added_absent old (r ∷ new) o h = ground (arith, after-added_absent old new o)

  abbrev if_absent : Option Rack → Option ℤ → Option ℤ → Option ℤ
  if_absent none a o = a
  if_absent (some x) a o = o

  after-added :
      (old new : List Rack) (o : Option ℤ)
      → DistinctNames new
      → after k o (map added_change (match_new old new)) ≡ (elim (rack_called k new) [
        | none ↦ o
        | some r ↦ if_absent (rack_called k old) (some r.replicas) o
      ])
  unfolding match_new rack_called
  after-added old [] o d = refl
  after-added old (r ∷ new) o (fresh, d) = ground (
    arith,
    ==_iff r.name k,
    find_rack-called r old,
    after-added old new o d,
    after-added_absent old new (some r.replicas),
  )

  after-deleted :
      (old new : List Rack) (o : Option ℤ)
      → after k o (map deleted_change (match_old new old).1)
        ≡ (elim (rack_called k old) [ none ↦ o | some r ↦ if_absent (rack_called k new) none o ])
  unfolding match_old rack_called
  after-deleted [] new o = refl
  after-deleted (r ∷ old) new o = ground (
    arith,
    ==_iff r.name k,
    find_rack-called r new,
    after-deleted old new o,
    after-deleted old new none,
  )

rack_called-name :
    (k : String) (racks : List Rack) {r : Rack} → rack_called k racks ≡ some r → r.name ≡ k
unfolding rack_called
rack_called-name k [] h = cc
rack_called-name k (x ∷ racks) {r} h =
    ground (arith, ==_iff x.name k, rack_called-name k racks {r = r})

module _ (k : String) where
  -- The racks that shrink.
  after-scaled_absent :
      (old new : List Rack) (o : Option ℤ)
      → rack_called k old ≡ none
      → after k o (map scaled_down_change (scaled_down_racks (match_old new old).0)) ≡ o
  unfolding match_old scaled_down_racks rack_called
  after-scaled_absent [] new o h = refl
  after-scaled_absent (r ∷ old) new o h = elim (Option-cases (find_rack r new)) [
    | inl e ↦ ground (arith, after-scaled_absent old new o)
    | inr (f, e) ↦ ground (
      arith,
      find_rack-called r new,
      rack_called-name r.name new {r = f},
      after-scaled_absent old new o,
    )
  ]

  abbrev if_less : Option Rack → Rack → Option ℤ → Option ℤ
  if_less none a o = o
  if_less (some b) a o = if ltb_ℤ b.replicas a.replicas then some b.replicas else o

  after-scaled :
      (old new : List Rack) (o : Option ℤ)
      → DistinctNames old
      → after k o (map scaled_down_change (scaled_down_racks (match_old new old).0))
        ≡ (elim (rack_called k old) [ none ↦ o | some r ↦ if_less (rack_called k new) r o ])
  unfolding match_old scaled_down_racks rack_called
  after-scaled [] new o d = refl
  after-scaled (r ∷ old) new o (fresh, d) = elim (Option-cases (find_rack r new)) [
    | inl e ↦ ground (arith, ==_iff r.name k, find_rack-called r new, after-scaled old new o d)
    | inr (f, e) ↦ ground (
      arith,
      ==_iff r.name k,
      find_rack-called r new,
      rack_called-name r.name new {r = f},
      after-scaled old new o d,
      after-scaled_absent old new (some f.replicas),
    )
  ]

module _ (k : String) {P : Platform} (pod : Pod P) where
  -- The racks that are patched.
  after-updated_absent :
      (changed : Bool) (old new : List Rack) (o : Option ℤ)
      → rack_called k old ≡ none
      → after k o (map (updated_change pod) (racks_to_update changed (match_old new old).0)) ≡ o
  unfolding match_old scaled_up_racks rack_called
  after-updated_absent true [] new o h = refl
  after-updated_absent false [] new o h = refl
  after-updated_absent true (r ∷ old) new o h = elim (Option-cases (find_rack r new)) [
    | inl e ↦ ground (arith, after-updated_absent true old new o)
    | inr (f, e) ↦ ground (
      arith,
      find_rack-called r new,
      rack_called-name r.name new {r = f},
      after-updated_absent true old new o,
    )
  ]
  after-updated_absent false (r ∷ old) new o h = elim (Option-cases (find_rack r new)) [
    | inl e ↦ ground (arith, after-updated_absent false old new o)
    | inr (f, e) ↦ ground (
      arith,
      find_rack-called r new,
      rack_called-name r.name new {r = f},
      after-updated_absent false old new o,
    )
  ]

  abbrev if_updated : Bool → Option Rack → Rack → Option ℤ → Option ℤ
  if_updated changed none a o = o
  if_updated true (some b) a o = some b.replicas
  if_updated false (some b) a o = if ltb_ℤ a.replicas b.replicas then some b.replicas else o

  after-updated :
      (changed : Bool) (old new : List Rack) (o : Option ℤ)
      → DistinctNames old
      → after k o (map (updated_change pod) (racks_to_update changed (match_old new old).0))
        ≡ (elim (rack_called k old) [
          | none ↦ o
          | some r ↦ if_updated changed (rack_called k new) r o
        ])
  unfolding match_old scaled_up_racks rack_called
  after-updated true [] new o d = refl
  after-updated false [] new o d = refl
  after-updated true (r ∷ old) new o (fresh, d) = elim (Option-cases (find_rack r new)) [
    | inl e ↦
        ground (arith, ==_iff r.name k, find_rack-called r new, after-updated true old new o d)
    | inr (f, e) ↦ ground (
      arith,
      ==_iff r.name k,
      find_rack-called r new,
      rack_called-name r.name new {r = f},
      after-updated true old new o d,
      after-updated_absent true old new (some f.replicas),
    )
  ]
  after-updated false (r ∷ old) new o (fresh, d) = elim (Option-cases (find_rack r new)) [
    | inl e ↦
        ground (arith, ==_iff r.name k, find_rack-called r new, after-updated false old new o d)
    | inr (f, e) ↦ ground (
      arith,
      ==_iff r.name k,
      find_rack-called r new,
      rack_called-name r.name new {r = f},
      after-updated false old new o d,
      after-updated_absent false old new (some f.replicas),
    )
  ]

module _ {P : Platform} (old new : CassandraSpec P) where
  after-changes :
      (k : String)
      → DistinctNames old.racks
      → DistinctNames new.racks
      → let (added, matched, deleted) = match_racks old new in
        after k (replicas_called k old.racks) (changes old new added matched deleted)
        ≡ replicas_called k new.racks
  unfolding changes match_racks
  after-changes k d e =
      rw
        (
          foldl-append,
          foldl-append,
          foldl-append,
          after-added k old.racks new.racks _ e,
          after-deleted k old.racks new.racks,
          after-scaled k old.racks new.racks _ d,
          after-updated k new.pod _ old.racks new.racks _ d,
        )
        (ground arith)

  -- An allowed update is planned completely: with no rack named twice in either definition, the
  -- planned changes, made in order and as they are meant, leave every rack of the new definition with
  -- its replicas, and no other rack.
  pub changes_for_cluster_converges :
      {cs : List ClusterChange}
      → DistinctNames old.racks
      → DistinctNames new.racks
      → changes_for_cluster old new ≡ ok cs
      → (k : String) → after k (replicas_called k old.racks) cs ≡ replicas_called k new.racks
  unfolding changes_for_cluster
  changes_for_cluster_converges {cs} d e h k = ground (arith, after-changes k d e)
