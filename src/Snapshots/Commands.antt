-- ===== src/Snapshots/Commands.antt =====
-- cassandra-snapshot/cmd: root.go, create.go and cleanup.go.
use cassandra_operator.Base.{ℕ, String, Bool, List, Result, ok, err, if◌then◌else◌}
use cassandra_operator.Base.Int.{ℤ, pos}
use cassandra_operator.Snapshots.Nodetool.{Client}
use cassandra_operator.Snapshots.Manipulator.{CreateConfig, CleanupConfig, do_create, do_cleanup}

-- The flags of every command, which cobra parses; it insists on the pod label and the namespace.
pub record Flags : Type 0 where
  pub keyspaces : List String
  pub pod_label : String
  pub namespace : String
  pub log_level : String

abbrev pub default_log_level : String
default_log_level = "info"

abbrev pub default_snapshot_timeout : ℤ
default_snapshot_timeout = pos 10_000_000_000

abbrev pub default_cleanup_timeout : ℤ
default_cleanup_timeout = pos 10_000_000_000

abbrev pub default_retention_period : ℤ
default_retention_period = pos 604_800_000_000_000

abbrev pub create_config : Flags → ℤ → CreateConfig
create_config f timeout = record {
  keyspaces = f.keyspaces;
  namespace = f.namespace;
  pod_label = f.pod_label;
  snapshot_timeout = timeout;
}

-- `seconds` is the number of whole seconds of the retention period.
abbrev pub cleanup_config : Flags → ℤ → ℤ → CleanupConfig
cleanup_config f seconds timeout = record {
  namespace = f.namespace;
  retention_seconds = seconds;
  keyspaces = f.keyspaces;
  pod_label = f.pod_label;
  cleanup_timeout = timeout;
}

unfoldable pub exit_code : Result String (Unit {0}) → ℕ
exit_code (ok _) = 0
exit_code (err e) = 1

-- `parses` tells whether logrus knows a log level, and `seconds_of` is int64 of a duration's Seconds(),
-- a floating-point number.
module _ (C : Client) (parses : String → Bool) (seconds_of : ℤ → ℤ) where
  -- cobra.OnInitialize runs onInitialise before the command, which exits with 1 at an unknown level.
  unfoldable pub initialised : Flags → (C.State → ℕ × C.State) → C.State → ℕ × C.State
  initialised f command s = if parses f.log_level then command s else (1, s)

  unfoldable pub create_snapshot_command : Flags → ℤ → ℤ → C.State → ℕ × C.State
  unfolding do_create exit_code
  create_snapshot_command f timeout timestamp s =
      let (r, t) = do_create C (create_config f timeout) timestamp s in (exit_code r, t)

  unfoldable pub cleanup_snapshot_command : Flags → ℤ → ℤ → ℤ → C.State → ℕ × C.State
  unfolding do_cleanup exit_code
  cleanup_snapshot_command f retention timeout now s =
      let (r, t) = do_cleanup C (cleanup_config f (seconds_of retention) timeout) now s in
      (exit_code r, t)

  unfoldable pub create : Flags → ℤ → ℤ → C.State → ℕ × C.State
  unfolding initialised create_snapshot_command
  create f timeout timestamp s = initialised f (create_snapshot_command f timeout timestamp) s

  unfoldable pub cleanup : Flags → ℤ → ℤ → ℤ → C.State → ℕ × C.State
  unfolding initialised cleanup_snapshot_command
  cleanup f retention timeout now s =
      initialised f (cleanup_snapshot_command f retention timeout now) s
