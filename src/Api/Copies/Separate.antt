-- ===== src/Api/Copies/Separate.antt =====
-- Parts of the memory, and that what is read from a part is read from all of it.
use cassandra_operator.Base.{
  ℕ, none, some, [], ◌∷◌, ◌≡◌, refl, ◌⊎◌, Option-cases, inl, inr, arith, ltb, if◌then◌else◌,
}
use cassandra_operator.Platform.{Platform}
use cassandra_operator.Api.Memory.{
  Object, Memory, Storable, value_at, stored_int32, stored_probe, stored_policy, stored_snapshot,
  stored_texts, stored_racks, stored_cassandras,
}
use cassandra_operator.Api.Copies.Reading.{
  Reader, read_value, read_pointer, read_policy, read_snapshot, read_pod, read_spec, read_cassandra,
  read_each, read_list,
}

module _ {P : Platform} where
  -- The variables whose address is at least `n`, and those whose address is below it.
  abbrev pub from : ℕ → Memory P → Memory P
  from n h = record h { cell = λ a. if ltb a n then none else h.cell a }

  abbrev pub below : ℕ → Memory P → Memory P
  below n h = record h { cell = λ a. if ltb a n then h.cell a else none }

  -- Every variable of the first memory is in the second, with what it holds.
  abbrev pub Included : Memory P → Memory P → Type 0
  Included h h' = (a : ℕ) (o : Object P) → h.cell a ≡ some o → h'.cell a ≡ some o

  -- A read that succeeds in the first memory gives the same in the second.
  abbrev pub IsMonotone : {A V : Type 0} → Reader P A V → Type 0
  IsMonotone {A} {V} read =
      (h h' : Memory P) (a : A) → Included h h' → (read h a ≡ none) ⊎ (read h' a ≡ read h a)

  pub read_value-IsMonotone : {A : Type 0} → IsMonotone (read_value {P = P} {A = A})
  read_value-IsMonotone h h' a i = inr refl

  value_at_mono :
      {A : Type 0} (S : Storable P A) (h h' : Memory P) (p : ℕ)
      → Included h h'
      → (value_at S (h.cell p) ≡ none) ⊎ (value_at S (h'.cell p) ≡ value_at S (h.cell p))
  value_at_mono S h h' p i = elim (Option-cases (h.cell p)) [
    | inl z ↦ inl (rw z)
    | inr (o, z) ↦ inr (rw (z, i p o z))
  ]

  pub read_pointer-IsMonotone :
      {A V : Type 0} (S : Storable P A) (read : Reader P A V)
      → IsMonotone read
      → IsMonotone (read_pointer S read)
  unfolding read_pointer
  read_pointer-IsMonotone S read mono h h' none i = inr refl
  read_pointer-IsMonotone S read mono h h' (some p) i =
      elim (Option-cases (value_at S (h.cell p))) [
        | inl z ↦ inl (rw z)
        | inr (a, z) ↦ ground (arith, value_at_mono S h h' p i, mono h h' a i)
      ]

  pub read_policy-IsMonotone : IsMonotone (read_policy {P = P})
  unfolding read_policy
  read_policy-IsMonotone h h' o i = ground (
    arith,
    read_pointer-IsMonotone stored_int32 read_value read_value-IsMonotone h h'
        o.retention_period_days i,
    read_pointer-IsMonotone stored_int32 read_value read_value-IsMonotone h h'
        o.cleanup_timeout_seconds i,
  )

  pub read_snapshot-IsMonotone : IsMonotone (read_snapshot {P = P})
  unfolding read_snapshot
  read_snapshot-IsMonotone h h' o i = ground (
    arith,
    read_pointer-IsMonotone stored_texts read_value read_value-IsMonotone h h' o.keyspaces i,
    read_pointer-IsMonotone stored_int32 read_value read_value-IsMonotone h h' o.timeout_seconds i,
    read_pointer-IsMonotone stored_policy read_policy read_policy-IsMonotone h h' o.retention_policy
        i,
  )

  pub read_pod-IsMonotone : IsMonotone (read_pod {P = P})
  unfolding read_pod
  read_pod-IsMonotone h h' o i = ground (
    arith,
    read_pointer-IsMonotone stored_probe read_value read_value-IsMonotone h h' o.liveness_probe i,
    read_pointer-IsMonotone stored_probe read_value read_value-IsMonotone h h' o.readiness_probe i,
  )

  pub read_spec-IsMonotone : IsMonotone (read_spec {P = P})
  unfolding read_spec
  read_spec-IsMonotone h h' o i = ground (
    arith,
    read_pointer-IsMonotone stored_racks read_value read_value-IsMonotone h h' o.racks i,
    read_pod-IsMonotone h h' o.pod i,
    read_pointer-IsMonotone stored_snapshot read_snapshot read_snapshot-IsMonotone h h' o.snapshot
        i,
  )

  pub read_cassandra-IsMonotone : IsMonotone (read_cassandra {P = P})
  unfolding read_cassandra
  read_cassandra-IsMonotone h h' o i = ground (arith, read_spec-IsMonotone h h' o.spec i)

  pub read_each-IsMonotone : IsMonotone (read_each {P = P})
  unfolding read_each
  read_each-IsMonotone h h' [] i = inr refl
  read_each-IsMonotone h h' (o ∷ os) i =
      ground (arith, read_cassandra-IsMonotone h h' o i, read_each-IsMonotone h h' os i)

  pub read_list-IsMonotone : IsMonotone (read_list {P = P})
  unfolding read_list
  read_list-IsMonotone h h' o i =
      read_pointer-IsMonotone stored_cassandras read_each read_each-IsMonotone h h' o.items i
