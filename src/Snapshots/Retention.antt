-- ===== src/Snapshots/Retention.antt =====
-- Which snapshots the filter selects.
use cassandra_operator.Base.{
  String, ◌==◌, ==_iff, ◌≡◌, refl, Bool, true, false, not, ◌&&◌, ◌||◌, List, [], ◌∷◌, ◌++◌, arith,
  if◌then◌else◌,
}
use cassandra_operator.Base.Int.{ℤ}
use cassandra_operator.Snapshots.{
  Listing, atoi, found, is_older, select_older, outside_retention_period,
}

found-append :
    (name keyspace : String) (xs ys : List Listing)
    → found name keyspace (xs ++ ys) ≡ (found name keyspace xs || found name keyspace ys)
unfolding found
found-append name keyspace [] ys = refl
found-append name keyspace (x ∷ xs) ys = ground (arith, found-append name keyspace xs ys)

abbrev step : ℤ → List Listing → Listing → List Listing
step cutoff selected s =
    if is_older cutoff (atoi s.name) && not (found s.name s.keyspace selected)
    then selected ++ s ∷ []
    else selected

found-step :
    (name keyspace : String) (cutoff : ℤ) (selected : List Listing) (s : Listing)
    → found name keyspace (step cutoff selected s) ≡ (
        found name keyspace selected
        || (is_older cutoff (atoi name) && (s.name == name && s.keyspace == keyspace)))
unfolding found
found-step name keyspace cutoff selected s = ground (
  arith,
  found-append name keyspace selected (s ∷ []),
  ==_iff s.name name,
  ==_iff s.keyspace keyspace,
)

found-select_older :
    (name keyspace : String) (cutoff : ℤ) (selected ss : List Listing)
    → found name keyspace (select_older cutoff selected ss)
      ≡ (found name keyspace selected || (is_older cutoff (atoi name) && found name keyspace ss))
unfolding select_older found
found-select_older name keyspace cutoff selected [] = ground arith
found-select_older name keyspace cutoff selected (s ∷ ss) = ground (
  arith,
  found-select_older name keyspace cutoff (step cutoff selected s) ss,
  found-step name keyspace cutoff selected s,
)

-- A snapshot's name and keyspace are selected exactly if a snapshot of that name and keyspace was
-- given and the name is a number before the cutoff.
pub found-outside_retention_period :
    (name keyspace : String) (cutoff : ℤ) (ss : List Listing)
    → found name keyspace (outside_retention_period cutoff ss)
      ≡ (is_older cutoff (atoi name) && found name keyspace ss)
unfolding outside_retention_period found
found-outside_retention_period name keyspace cutoff ss =
    found-select_older name keyspace cutoff [] ss

-- No entry has the name and the keyspace of a later one.
unfoldable pub are_distinct : List Listing → Bool
are_distinct [] = true
are_distinct (s ∷ ss) = not (found s.name s.keyspace ss) && are_distinct ss

are_distinct-snoc :
    (xs : List Listing) (s : Listing)
    → found s.name s.keyspace xs ≡ false
    → are_distinct xs ≡ true
    → are_distinct (xs ++ s ∷ []) ≡ true
unfolding are_distinct found
are_distinct-snoc [] s f d = refl
are_distinct-snoc (x ∷ xs) s f d = ground (
  arith,
  are_distinct-snoc xs s,
  found-append x.name x.keyspace xs (s ∷ []),
  ==_iff s.name x.name,
  ==_iff x.name s.name,
  ==_iff s.keyspace x.keyspace,
  ==_iff x.keyspace s.keyspace,
)

are_distinct-select_older :
    (cutoff : ℤ) (selected ss : List Listing)
    → are_distinct selected ≡ true
    → are_distinct (select_older cutoff selected ss) ≡ true
unfolding select_older
are_distinct-select_older cutoff selected [] d = d
are_distinct-select_older cutoff selected (s ∷ ss) d =
    are_distinct-select_older cutoff (step cutoff selected s) ss
      (ground (arith, are_distinct-snoc selected s, d))

-- No two of the selected snapshots have the same name and the same keyspace.
pub outside_retention_period-distinct :
    (cutoff : ℤ) (ss : List Listing) → are_distinct (outside_retention_period cutoff ss) ≡ true
unfolding outside_retention_period are_distinct
outside_retention_period-distinct cutoff ss = are_distinct-select_older cutoff [] ss refl
