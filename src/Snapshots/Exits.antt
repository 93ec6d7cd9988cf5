-- ===== src/Snapshots/Exits.antt =====
-- What the commands of the snapshot tool execute, and the code that they exit with.
use cassandra_operator.Base.{
  ℕ, String, ◌≡◌, refl, sym, ap, ◌∙◌, Bool, true, false, ◌&&◌, not, List, [], ◌∷◌, ◌++◌, Result, ok,
  err, is_empty, if◌then◌else◌,
}
use mathlib.Core.List.{append-nil}
use cassandra_operator.Base.Int.{ℤ, ◌-ℤ◌, int64}
use cassandra_operator.Snapshots.Nodetool.{PodName, Client}
use cassandra_operator.Snapshots.Manipulator.{
  CreateConfig, CleanupConfig, create_all, clean_up_all, do_create, do_cleanup, failures_result,
}
use cassandra_operator.Snapshots.Logged.{Entry, logged, failures, Created, CleanedUp}
use cassandra_operator.Snapshots.Logged.Conforms.{create_on-Runs, clean_up_on-Runs}
use cassandra_operator.Snapshots.Commands.{
  Flags, create_config, cleanup_config, exit_code, initialised, create_snapshot_command,
  cleanup_snapshot_command, create, cleanup,
}

-- The pods that a command works on: none if the log level is unknown or the pods cannot be listed.
pub pods_of : Bool → Result String (List PodName) → List PodName
pods_of false listing = []
pods_of true (err e) = []
pods_of true (ok pods) = pods

-- A command succeeds if there is a pod to work on and nothing that it executes fails.
pub succeeds : List PodName → List Entry → Bool
succeeds pods commands = not (is_empty pods) && is_empty (failures commands)

-- What was executed behind a log, and the exit code.
pub record Exits {S : Type 0} (spec : List Entry → Type 0) (pods : List PodName) (log : List Entry)
    (r : ℕ × (S × List Entry)) : Type 0 where
  pub commands : List Entry
  pub logs : r.1.1 ≡ (log ++ commands)
  pub conforms : spec commands
  pub code : r.0 ≡ (if succeeds pods commands then 0 else 1)

exit_code-failures_result :
    (what : String) (pod : PodName) (pods : List PodName) (commands : List Entry)
    → exit_code (failures_result what (failures commands))
      ≡ (if succeeds (pod ∷ pods) commands then 0 else 1)
unfolding exit_code failures_result succeeds
exit_code-failures_result what pod pods commands = go (failures commands)
  where
    go :
        (fs : List String)
        → exit_code (failures_result what fs) ≡ (if not false && is_empty fs then 0 else 1)
    go [] = refl
    go (f ∷ fs) = refl

module _ (C : Client) where
  idle-Exits :
      (spec : List Entry → Type 0) (s : C.State) (log : List Entry)
      → spec []
      → Exits spec [] log (1, (s, log))
  unfolding succeeds
  idle-Exits spec s log h = record {
    commands = [];
    logs = sym (append-nil log);
    conforms = h;
    code = refl;
  }

  create_all-Exits :
      (config : CreateConfig) (time : ℤ) (listing : Result String (List PodName)) (s : C.State)
      (log : List Entry)
      → Exits (Created time config.keyspaces (pods_of true listing)) (pods_of true listing) log (
        exit_code (create_all (logged C) config time listing (s, log)).0,
        (create_all (logged C) config time listing (s, log)).1,
      )
  unfolding create_all exit_code pods_of
  create_all-Exits config time (err e) s log =
      idle-Exits (Created time config.keyspaces []) s log Created.no_pods
  create_all-Exits config time (ok []) s log =
      idle-Exits (Created time config.keyspaces []) s log Created.no_pods
  create_all-Exits config time (ok (pod ∷ pods)) s log =
      let r = create_on-Runs C config time (pod ∷ pods) s log in
      record {
        commands = r.commands;
        logs = r.logs;
        conforms = r.conforms;
        code =
            ap (λ fs. exit_code (failures_result "snapshot creation" fs)) r.reports
            ∙ exit_code-failures_result "snapshot creation" pod pods r.commands;
      }

  clean_up_all-Exits :
      (config : CleanupConfig) (now : ℤ) (listing : Result String (List PodName)) (s : C.State)
      (log : List Entry)
      → Exits
          (CleanedUp (int64 (now -ℤ config.retention_seconds)) (pods_of true listing))
          (pods_of true listing)
          log
          (
            exit_code (clean_up_all (logged C) config now listing (s, log)).0,
            (clean_up_all (logged C) config now listing (s, log)).1,
          )
  unfolding clean_up_all exit_code pods_of
  clean_up_all-Exits config now (err e) s log =
      idle-Exits (CleanedUp (int64 (now -ℤ config.retention_seconds)) []) s log CleanedUp.no_pods
  clean_up_all-Exits config now (ok []) s log =
      idle-Exits (CleanedUp (int64 (now -ℤ config.retention_seconds)) []) s log CleanedUp.no_pods
  clean_up_all-Exits config now (ok (pod ∷ pods)) s log =
      let r =
        clean_up_on-Runs C config (int64 (now -ℤ config.retention_seconds)) (pod ∷ pods) s log in
      record {
        commands = r.commands;
        logs = r.logs;
        conforms = r.conforms;
        code =
            ap (λ fs. exit_code (failures_result "snapshot cleanup" fs)) r.reports
            ∙ exit_code-failures_result "snapshot cleanup" pod pods r.commands;
      }

  module _ (parses : String → Bool) (seconds_of : ℤ → ℤ) (f : Flags) where
    -- The pods that the command finds in a state.
    abbrev pub targets : C.State → List PodName
    targets s = pods_of (parses f.log_level) (C.list_pods f.namespace f.pod_label s).0

    -- The create command executes one snapshot command on each of the pods that are listed for its
    -- namespace and label, in order and all with the same time, and on no pod if its log level is
    -- unknown or the listing fails. It exits with 0 if there is a pod and every command succeeded, and
    -- with 1 otherwise.
    pub create-Exits :
        (timeout time : ℤ) (s : C.State) (log : List Entry)
        → Exits
            (Created time f.keyspaces (targets s))
            (targets s)
            log
            (create (logged C) parses seconds_of f timeout time (s, log))
    unfolding create create_snapshot_command initialised do_create pods_of
    create-Exits timeout time s log =
        elim (parses f.log_level)
          as (λ b.
            Exits (Created time f.keyspaces (pods_of b (C.list_pods f.namespace f.pod_label s).0))
              (pods_of b (C.list_pods f.namespace f.pod_label s).0) log
              (if b
                then create_snapshot_command (logged C) parses seconds_of f timeout time (s, log)
                else (1, (s, log)))) [
                  | true ↦
                      create_all-Exits (create_config f timeout) time
                        (C.list_pods f.namespace f.pod_label s).0
                        (C.list_pods f.namespace f.pod_label s).1 log
                  | false ↦ idle-Exits (Created time f.keyspaces []) s log Created.no_pods
                ]

    -- The cleanup command lists the snapshots of each of the pods that are listed for its namespace and
    -- label, in order, and deletes those of each listing that the filter selects at the time of the run
    -- less the retention period; it executes nothing else, and nothing if its log level is unknown
    -- or the listing of the pods fails. It exits with 0 if there is a pod and every command succeeded,
    -- and with 1 otherwise.
    pub cleanup-Exits :
        (retention timeout now : ℤ) (s : C.State) (log : List Entry)
        → Exits
            (CleanedUp (int64 (now -ℤ seconds_of retention)) (targets s))
            (targets s)
            log
            (cleanup (logged C) parses seconds_of f retention timeout now (s, log))
    unfolding cleanup cleanup_snapshot_command initialised do_cleanup pods_of
    cleanup-Exits retention timeout now s log =
        elim (parses f.log_level)
          as (λ b.
            Exits
              (CleanedUp (int64 (now -ℤ seconds_of retention))
                (pods_of b (C.list_pods f.namespace f.pod_label s).0))
              (pods_of b (C.list_pods f.namespace f.pod_label s).0) log
              (if b
                then cleanup_snapshot_command (logged C) parses seconds_of f retention timeout now
                    (s, log)
                else (1, (s, log)))) [
                  | true ↦
                      clean_up_all-Exits (cleanup_config f (seconds_of retention) timeout) now
                        (C.list_pods f.namespace f.pod_label s).0
                        (C.list_pods f.namespace f.pod_label s).1 log
                  | false ↦
                      idle-Exits (CleanedUp (int64 (now -ℤ seconds_of retention)) []) s log
                        CleanedUp.no_pods
                ]
