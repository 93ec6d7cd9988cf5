-- ===== src/Api/Copies/Independent.antt =====
-- The copy of a pointer reads as what it pointed to, and no later write on one side shows on the other.
use cassandra_operator.Base.{
  ℕ, ◌≤◌, ◌<◌, Option, none, some, List, [], ◌∷◌, ◌≡◌, Option-cases, inl, inr, arith,
}
use cassandra_operator.Platform.{Platform}
use cassandra_operator.Api.{Cassandra, Snapshot}
use cassandra_operator.Api.Memory.{
  CassandraObject, CassandraListObject, Memory, stored_snapshot, stored_cassandra,
  stored_cassandra_list, stored_cassandras,
}
use cassandra_operator.Api.Copies.{
  each_into, list_into, deep_copy_snapshot, deep_copy, deep_copy_list,
}
use cassandra_operator.Api.Copies.Reading.{
  Reader, read_each, read_list, read_cassandra_at, read_list_at, read_snapshot_at,
}
use cassandra_operator.Api.Copies.Separate.{from, read_each-IsMonotone, read_list-IsMonotone}
use cassandra_operator.Api.Copies.Copying.{
  IsValid, Later, Copied, IsCopy, Later-refl, Later-Included, Copier, pointer, field_step, still,
  carry, next_step, from_mono, Later-trans,
}
use cassandra_operator.Api.Copies.Fields.{snapshots, resources}

module _ {P : Platform} where
  -- The run succeeds. Its result reads as `u`, whatever is later written to variables that there were
  -- before; and what was copied reads as `u`, whatever is later written to variables that there were
  -- not.
  abbrev pub Independent :
      {A V : Type 0} → Reader P A V → Memory P → A → V → Option (A × Memory P) → Type 0
  Independent read h x u none = ⊥
  Independent read h x u (some (y, h')) =
      ((h'' : Memory P) → ((a : ℕ) → h.next ≤ a → h''.cell a ≡ h'.cell a) → read h'' y ≡ some u)
      × ((h'' : Memory P) → ((a : ℕ) → a < h.next → h''.cell a ≡ h'.cell a) → read h'' x ≡ some u)

  copies-Independent :
      {A V : Type 0} (K : Copier P A V) (h : Memory P) (x : A) (u : V) (r : Option (A × Memory P))
      → IsValid h
      → K.read h x ≡ some u
      → Copied K.read h u r
      → Independent K.read h x u r
  copies-Independent K h x u none v e c = c
  copies-Independent K h x u (some (y, h')) v e c = (
    λ h'' agrees.
        carry K.read (from h.next h') h'' y u K.mono (λ a o q. ground (arith, agrees a)) c.1,
    λ h'' agrees.
        carry K.read h h'' x u K.mono (λ a o q. ground (arith, v a, agrees a, Later.keeps c.0 a)) e,
  )

  copied-Independent :
      {A V : Type 0} (K : Copier P A V) (h : Memory P) (x : A) (u : V)
      → IsValid h
      → K.read h x ≡ some u
      → Independent K.read h x u (K.into x h)
  copied-Independent K h x u v e = copies-Independent K h x u (K.into x h) v e (K.copies h x u v e)

  module _ (copy_quantity : P.Quantity → P.Quantity)
      (same : (q : P.Quantity) → copy_quantity q ≡ q) where
    each_into-IsCopy : IsCopy (read_each {P = P}) (each_into copy_quantity)
    unfolding each_into read_each
    each_into-IsCopy h [] u v e = (Later-refl h v, ground arith)
    each_into-IsCopy h (o ∷ os) u v e =
        let K = resources copy_quantity same in
        elim (Option-cases (K.read h o)) [
          | inl z ↦ ground (arith, z)
          | inr (c, z) ↦ elim (Option-cases (read_each h os)) [
            | inl y ↦ ground (arith, z, y)
            | inr (cs, y) ↦
                field_step K read_each h h o c u _ v (Later-refl h v) z (λ out h1 p1 q1 e1.
                  next_step read_each read_each h h1 cs u (each_into copy_quantity os h1) _
                    (each_into-IsCopy h1 os cs p1.valid
                      (carry read_each h h1 os cs read_each-IsMonotone (Later-Included v p1) y))
                    (λ outs h2 q2 e2.
                      let tail =
                        carry read_each (from h1.next h2) (from h.next h2) outs cs
                          read_each-IsMonotone (from_mono h1.next h.next h2 p1.grows) e2 in
                      (Later-trans p1 q2, ground (arith, tail, still K h p1 q2 e1))))
          ]
        ]

    abbrev each : Copier P (List (CassandraObject P)) (List (Cassandra P))
    each = record {
      read = read_each;
      into = each_into copy_quantity;
      mono = read_each-IsMonotone;
      copies = each_into-IsCopy;
    }

    list_into-IsCopy : IsCopy (read_list {P = P}) (list_into copy_quantity)
    unfolding list_into read_list
    list_into-IsCopy h o u v e =
        let K = pointer stored_cassandras each in
        field_step K read_list h h o.items u u _ v (Later-refl h v) e (λ y h1 p q e1. (p, e1))

    abbrev lists : Copier P CassandraListObject (Option (List (Cassandra P)))
    lists = record {
      read = read_list;
      into = list_into copy_quantity;
      mono = read_list-IsMonotone;
      copies = list_into-IsCopy;
    }

    -- Where Quantity.DeepCopy returns an equal quantity, DeepCopy of a *Cassandra that points to `u`
    -- (or is nil) does not panic and returns a pointer to an equal resource (or nil). Whatever is then
    -- written to variables that were there before, the copy still stands for `u`; whatever is written
    -- to the others, the original does.
    pub deep_copy-Independent :
        (h : Memory P) (p : Option ℕ) (u : Option (Cassandra P))
        → IsValid h
        → read_cassandra_at h p ≡ some u
        → Independent read_cassandra_at h p u (deep_copy copy_quantity p h)
    unfolding deep_copy read_cassandra_at
    deep_copy-Independent h p u v e =
        copied-Independent (pointer stored_cassandra (resources copy_quantity same)) h p u v e

    -- The same of a *CassandraList with all its items.
    pub deep_copy_list-Independent :
        (h : Memory P) (p : Option ℕ) (u : Option (Option (List (Cassandra P))))
        → IsValid h
        → read_list_at h p ≡ some u
        → Independent read_list_at h p u (deep_copy_list copy_quantity p h)
    unfolding deep_copy_list read_list_at
    deep_copy_list-Independent h p u v e =
        copied-Independent (pointer stored_cassandra_list lists) h p u v e

  -- The same of a *Snapshot, which takes no Quantity.
  pub deep_copy_snapshot-Independent :
      (h : Memory P) (p : Option ℕ) (u : Option Snapshot)
      → IsValid h
      → read_snapshot_at h p ≡ some u
      → Independent read_snapshot_at h p u (deep_copy_snapshot p h)
  unfolding deep_copy_snapshot read_snapshot_at
  deep_copy_snapshot-Independent h p u v e =
      copied-Independent (pointer stored_snapshot snapshots) h p u v e
