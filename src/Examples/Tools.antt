-- ===== src/Examples/Tools.antt =====
-- Concrete runs of the snapshot tool and of the operator's command at which the theorems hold.
use cassandra_operator.Base.{
  arith, Bool, ℕ, suc, String, ◌==◌, ◌≡◌, ◌↔◌, ◌&&◌, none, some, List, [], ◌∷◌, ok,
}
use cassandra_operator.Base.Int.{ℤ, int64, ◌-ℤ◌, pos, ltb_ℤ}
use cassandra_operator.Base.Text.{show_ℤ}
use cassandra_operator.Snapshots.{found, outside_retention_period}
use cassandra_operator.Snapshots.Naming.{found-taken}
use cassandra_operator.Snapshots.Nodetool.{PodName, Client, streamed, parse_line}
use cassandra_operator.Snapshots.Nodetool.Lines.{Fields, parse_line_iff}
use cassandra_operator.Snapshots.Logged.{Created, CleanedUp, logged}
use cassandra_operator.Snapshots.Exits.{Exits, targets, create-Exits, cleanup-Exits}
use cassandra_operator.Snapshots.Commands.{Flags, create, cleanup}

abbrev listed_line : String
listed_line = "1500 k users 1.2 KiB 2.3 KiB"

abbrev two_pods : List PodName
two_pods =
    record { name = "users-a-0"; namespace = "team" }
    ∷ record { name = "users-b-0"; namespace = "team" }
    ∷ []

-- Every pod has one snapshot, taken at the time 1500; the state counts the commands.
abbrev pods_client : Client
pods_client = record {
  State = ℕ;
  list_pods = λ namespace label n. (ok two_pods, n);
  execute = λ pod timeout args n. (streamed listed_line "" none, suc n);
}

abbrev flags : Flags
flags = record {
  keyspaces = "k" ∷ [];
  pod_label = "app=users";
  namespace = "team";
  log_level = "info";
}

found-taken_example :
    found (show_ℤ (pos 1500)) "k" (
      outside_retention_period
        (pos 2000)
        (record { name = "1500"; keyspace = "k"; column_family = "users" } ∷ []))
    ≡ (ltb_ℤ (pos 1500) (pos 2000)
        && found
            (show_ℤ (pos 1500))
            "k"
            (record { name = "1500"; keyspace = "k"; column_family = "users" } ∷ []))
found-taken_example =
    found-taken (pos 1500) (pos 2000) "k"
      (record { name = "1500"; keyspace = "k"; column_family = "users" } ∷ []) (omega arith)

-- The log levels, the time of a snapshot, and the whole seconds of a duration.
abbrev knows : String → Bool
knows level = level == "info"

abbrev whole_seconds : ℤ → ℤ
whole_seconds duration = pos 500

create-Exits_example :
    Exits
      (Created (pos 1500) ("k" ∷ []) (targets pods_client knows whole_seconds flags 0))
      (targets pods_client knows whole_seconds flags 0)
      []
      (create (logged pods_client) knows whole_seconds flags (pos 10) (pos 1500) (0, []))
create-Exits_example = create-Exits pods_client knows whole_seconds flags (pos 10) (pos 1500) 0 []

cleanup-Exits_example :
    Exits
      (CleanedUp (int64 (pos 2000 -ℤ pos 500)) (targets pods_client knows whole_seconds flags 0))
      (targets pods_client knows whole_seconds flags 0)
      []
      (cleanup
        (logged pods_client)
        knows
        whole_seconds
        flags
        (pos 500_000_000_000)
        (pos 10)
        (pos 2000)
        (0, []))
cleanup-Exits_example =
    cleanup-Exits pods_client knows whole_seconds flags (pos 500_000_000_000) (pos 10) (pos 2000) 0
      []

parse_line_iff_example :
    (parse_line listed_line
      ≡ some (record { name = "1500"; keyspace = "k"; column_family = "users" }))
    ↔ Fields listed_line (record { name = "1500"; keyspace = "k"; column_family = "users" })
parse_line_iff_example =
    parse_line_iff listed_line (record { name = "1500"; keyspace = "k"; column_family = "users" })
