-- ===== src/Snapshots.antt =====
-- cassandra-snapshot/pkg: the tool that the snapshot jobs run. This file is
-- cassandra-snapshot/pkg/snapshot/filter/filter.go with the part of strconv that it uses.
pub mod Retention
pub mod Naming
pub mod Nodetool
pub mod Manipulator
pub mod Logged
pub mod Exits
pub mod Commands
use Prim.Native.Char.{Char, code}
use cassandra_operator.Base.{
  ℕ, zero, suc, ◌+◌, ◌-◌, ◌*◌, ◌^◌, String, ◌==◌, Bool, true, false, not, ◌&&◌, ◌||◌, Option, none,
  some, List, [], ◌∷◌, ◌++◌, if◌then◌else◌, ltb, leb, eqb, ◌>>=◌,
}
use cassandra_operator.Base.Int.{ℤ, pos, negsuc, ltb_ℤ}

-- nodetool.Snapshot
pub record Listing : Type 0 where
  pub name : String
  pub keyspace : String
  pub column_family : String

unfoldable pub is_digit : Char → Bool
is_digit c = leb 48 (code c) && leb (code c) 57

-- The number that a text of digits stands for, after the digits read so far.
unfoldable pub read_digits : ℕ → String → Option ℕ
unfolding is_digit
read_digits n String.[] = some n
read_digits n (String.◌∷◌ c s) =
    let rest = read_digits (10 * n + (code c - 48)) s in if is_digit c then rest else none

unfoldable pub read_unsigned : String → Option ℕ
unfolding read_digits
read_unsigned String.[] = none
read_unsigned (String.◌∷◌ c s) = read_digits 0 (String.◌∷◌ c s)

-- The integer of a sign and a magnitude, if it is an int64.
unfoldable pub in_range : Bool → ℕ → Option ℤ
in_range false n = if ltb n (2 ^ 63) then some (pos n) else none
in_range true zero = some (pos 0)
in_range true (suc n) = if ltb n (2 ^ 63) then some (negsuc n) else none

-- strconv.Atoi, where an int has 64 bits.
unfoldable pub atoi : String → Option ℤ
unfolding read_unsigned in_range
atoi String.[] = none
atoi (String.◌∷◌ c s) =
    if eqb (code c) 45
    then (do n ← read_unsigned s; in_range true n)
    else if eqb (code c) 43
    then (do n ← read_unsigned s; in_range false n)
    else (do n ← read_unsigned (String.◌∷◌ c s); in_range false n)

-- The loop over the snapshots that are selected so far.
unfoldable pub found : String → String → List Listing → Bool
found name keyspace [] = false
found name keyspace (s ∷ ss) = (s.name == name && s.keyspace == keyspace) || found name keyspace ss

unfoldable pub is_older : ℤ → Option ℤ → Bool
is_older cutoff none = false
is_older cutoff (some time) = ltb_ℤ time cutoff

unfoldable pub select_older : ℤ → List Listing → List Listing → List Listing
unfolding atoi is_older found
select_older cutoff selected [] = selected
select_older cutoff selected (s ∷ ss) =
    select_older cutoff
      (if is_older cutoff (atoi s.name) && not (found s.name s.keyspace selected)
        then selected ++ s ∷ []
        else selected)
      ss

unfoldable pub outside_retention_period : ℤ → List Listing → List Listing
unfolding select_older
outside_retention_period cutoff snapshots = select_older cutoff [] snapshots
