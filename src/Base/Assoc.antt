-- ===== src/Base/Assoc.antt =====
-- Go's maps with string keys, as association lists whose entries stand in no promised order.
use Prim.Native.String.{String}
use mathlib.Core.Path.{◌≡◌, refl}
use mathlib.Core.Option.{Option, none, some}
use mathlib.Core.List.{List, [], ◌∷◌}
use native.Mathlib.Omega.{arith}
use cassandra_operator.Base.Tests.{◌==◌, ==_iff, ==_refl, if◌then◌else◌}

abbrev pub Assoc {κ} : Type κ → Type κ
Assoc A = List (String × A)

module _ {κ} {A : Type κ} where
  -- v, ok := table[key]
  unfoldable pub lookup : String → Assoc A → Option A
  lookup key [] = none
  lookup key (entry ∷ table) = if entry.0 == key then some entry.1 else lookup key table

  -- table[key] = value
  unfoldable pub insert : String → A → Assoc A → Assoc A
  insert key value [] = (key, value) ∷ []
  insert key value (entry ∷ table) =
      let rest = insert key value table in
      if entry.0 == key then (key, value) ∷ table else entry ∷ rest

  -- delete(table, key)
  unfoldable pub delete : String → Assoc A → Assoc A
  delete key [] = []
  delete key (entry ∷ table) =
      let rest = delete key table in if entry.0 == key then rest else entry ∷ rest

  -- Which entry the key `other` has once `key` has been set.
  pub lookup-insert :
      (key other : String) (value : A) (table : Assoc A)
      → lookup other (insert key value table)
        ≡ (if key == other then some value else lookup other table)
  unfolding lookup insert
  lookup-insert key other value [] = refl
  lookup-insert key other value (entry ∷ table) =
      let rest = lookup-insert key other value table in
      ground (arith, rest, ==_iff entry.0 key, ==_iff entry.0 other, ==_iff key other)

  pub lookup-delete :
      (key other : String) (table : Assoc A)
      → lookup other (delete key table) ≡ (if key == other then none else lookup other table)
  unfolding lookup delete
  lookup-delete key other [] = ground arith
  lookup-delete key other (entry ∷ table) =
      let rest = lookup-delete key other table in
      ground (arith, rest, ==_iff entry.0 key, ==_iff entry.0 other, ==_iff key other)

  pub lookup-insert_self :
      (key : String) (value : A) (table : Assoc A)
      → lookup key (insert key value table) ≡ some value
  lookup-insert_self key value table =
      ground (arith, lookup-insert key key value table, ==_refl key)
