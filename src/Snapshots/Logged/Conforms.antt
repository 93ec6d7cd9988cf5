-- ===== src/Snapshots/Logged/Conforms.antt =====
-- What creating and cleaning up snapshots on a list of pods executes and reports.
use cassandra_operator.Base.{
  String, ◌≡◌, refl, sym, ap, ◌∙◌, List, [], ◌∷◌, ◌++◌, arith, ok, err, Result-cases, inl, inr,
}
use mathlib.Core.Path.{subst}
use mathlib.Core.List.{append_assoc, append-nil}
use cassandra_operator.Base.Int.{ℤ}
use cassandra_operator.Snapshots.{Listing, outside_retention_period}
use cassandra_operator.Snapshots.Nodetool.{
  PodName, Client, Execution, command_result, filtered_listing, parse_lines, split_lines,
  run_command, create_snapshot, get_snapshots, delete_snapshot,
}
use cassandra_operator.Snapshots.Manipulator.{
  CreateConfig, CleanupConfig, failure_of, selected_of, create_on, delete_each,
  find_snapshots_to_delete, clean_up_on,
}
use cassandra_operator.Snapshots.Logged.{
  Entry, logged, failures, failures-append, listing_command, deletion_command, creation_command,
  Created, Deleted, CleanedUp, Runs,
}
use cassandra_operator.Snapshots.Logged.{
  no_pods, next_pod, no_snapshots, next_snapshot, unlisted, listed,
}

module _ (C : Client) where
  -- Creating snapshots on a list of pods executes one snapshot command on each, in order and all with
  -- the same time, and reports exactly the pods on which the command failed.
  pub create_on-Runs :
      (config : CreateConfig) (time : ℤ) (pods : List PodName) (s : C.State) (log : List Entry)
      → Runs
          (Created time config.keyspaces pods)
          log
          (create_on (logged C) config time pods (s, log))
  unfolding create_on create_snapshot run_command failures
  create_on-Runs config time [] s log = record {
    commands = [];
    logs = sym (append-nil log);
    conforms = no_pods;
    reports = refl;
  }
  create_on-Runs config time (pod ∷ pods) s log =
      let answer =
        C.execute pod config.snapshot_timeout (creation_command time config.keyspaces) s in
      let entry : Entry = record {
        pod = pod;
        args = creation_command time config.keyspaces;
        execution = answer.0;
      } in
      let rest = create_on-Runs config time pods answer.1 (log ++ entry ∷ []) in
      record {
        commands = entry ∷ rest.commands;
        logs = rest.logs ∙ append_assoc log (entry ∷ []) rest.commands;
        conforms = next_pod rest.conforms;
        reports =
            ap (λ l. failure_of pod.name (command_result entry.args entry.execution) ++ l)
              rest.reports;
      }

  delete_each-Runs :
      (pod : PodName) (timeout : ℤ) (ls : List Listing) (s : C.State) (log : List Entry)
      → Runs (Deleted pod ls) log (delete_each (logged C) pod timeout ls (s, log))
  unfolding delete_each delete_snapshot run_command failures
  delete_each-Runs pod timeout [] s log = record {
    commands = [];
    logs = sym (append-nil log);
    conforms = no_snapshots;
    reports = refl;
  }
  delete_each-Runs pod timeout (l ∷ ls) s log =
      let answer = C.execute pod timeout (deletion_command l) s in
      let entry : Entry = record { pod = pod; args = deletion_command l; execution = answer.0 } in
      let rest = delete_each-Runs pod timeout ls answer.1 (log ++ entry ∷ []) in
      record {
        commands = entry ∷ rest.commands;
        logs = rest.logs ∙ append_assoc log (entry ∷ []) rest.commands;
        conforms = next_snapshot rest.conforms;
        reports =
            ap (λ l. failure_of pod.name (command_result entry.args entry.execution) ++ l)
              rest.reports;
      }

  -- Cleaning up on one pod, by whether the listing succeeded.
  module _ (config : CleanupConfig) (cutoff : ℤ) (pod : PodName) (s : C.State)
      (log : List Entry) where
    abbrev answer : Execution × C.State
    answer = C.execute pod config.cleanup_timeout listing_command s

    abbrev entry : Entry
    entry = record { pod = pod; args = listing_command; execution = answer.0 }

    abbrev selected : String → List Listing
    selected output = outside_retention_period cutoff (parse_lines (split_lines output))

    clean_up_on-unlisted :
        (pods : List PodName) {why : String}
        → command_result listing_command answer.0 ≡ err why
        → clean_up_on (logged C) config cutoff (pod ∷ pods) (s, log) ≡ (
            let r = clean_up_on (logged C) config cutoff pods (answer.1, log ++ entry ∷ []) in
            (pod.name ∷ r.0, r.1))
    unfolding clean_up_on find_snapshots_to_delete get_snapshots run_command filtered_listing
        failure_of selected_of delete_each
    clean_up_on-unlisted pods h = ground arith

    clean_up_on-listed :
        (pods : List PodName) {output : String}
        → command_result listing_command answer.0 ≡ ok output
        → clean_up_on (logged C) config cutoff (pod ∷ pods) (s, log) ≡ (
            let d =
              delete_each
                (logged C)
                pod
                config.cleanup_timeout
                (selected output)
                (answer.1, log ++ entry ∷ []) in
            let r = clean_up_on (logged C) config cutoff pods d.1 in (d.0 ++ r.0, r.1))
    unfolding clean_up_on find_snapshots_to_delete get_snapshots run_command filtered_listing
        failure_of selected_of
    clean_up_on-listed pods h = ground arith

  -- Cleaning up on a list of pods lists the snapshots of each in order and, where that succeeds,
  -- executes one deletion for each snapshot of its listing that the filter selects, in order, and
  -- nothing else; it reports a pod once for each of its commands that failed.
  pub clean_up_on-Runs :
      (config : CleanupConfig) (cutoff : ℤ) (pods : List PodName) (s : C.State) (log : List Entry)
      → Runs (CleanedUp cutoff pods) log (clean_up_on (logged C) config cutoff pods (s, log))
  unfolding clean_up_on failures failure_of
  clean_up_on-Runs config cutoff [] s log = record {
    commands = [];
    logs = sym (append-nil log);
    conforms = no_pods;
    reports = refl;
  }
  clean_up_on-Runs config cutoff (pod ∷ pods) s log =
      let a = answer config cutoff pod s log in
      let e = entry config cutoff pod s log in
      elim (Result-cases (command_result listing_command a.0)) [
        | inl bad ↦
            let rest = clean_up_on-Runs config cutoff pods a.1 (log ++ e ∷ []) in
            subst (Runs (CleanedUp cutoff (pod ∷ pods)) log)
              (sym (clean_up_on-unlisted config cutoff pod s log pods bad.1))
              (record {
                commands = e ∷ rest.commands;
                logs = rest.logs ∙ append_assoc log (e ∷ []) rest.commands;
                conforms = unlisted bad.1 rest.conforms;
                reports =
                    ap (λ l. pod.name ∷ l) rest.reports
                    ∙ ap (λ r. failure_of pod.name r ++ failures rest.commands) (sym bad.1);
              })
        | inr good ↦
            let ls = selected config cutoff pod s log good.0 in
            let d = delete_each-Runs pod config.cleanup_timeout ls a.1 (log ++ e ∷ []) in
            let after =
              (delete_each (logged C) pod config.cleanup_timeout ls (a.1, log ++ e ∷ [])).1 in
            let rest = clean_up_on-Runs config cutoff pods after.0 after.1 in
            subst (Runs (CleanedUp cutoff (pod ∷ pods)) log)
              (sym (clean_up_on-listed config cutoff pod s log pods good.1))
              (record {
                commands = e ∷ (d.commands ++ rest.commands);
                logs =
                    rest.logs
                    ∙ ap (λ l. l ++ rest.commands) d.logs
                    ∙ append_assoc (log ++ e ∷ []) d.commands rest.commands
                    ∙ append_assoc log (e ∷ []) (d.commands ++ rest.commands);
                conforms = listed good.1 d.conforms rest.conforms;
                reports =
                    ap (λ l. l ++ (clean_up_on (logged C) config cutoff pods after).0) d.reports
                    ∙ ap (λ l. failures d.commands ++ l) rest.reports
                    ∙ sym (failures-append d.commands rest.commands)
                    ∙ ap (λ r. failure_of pod.name r ++ failures (d.commands ++ rest.commands))
                        (sym good.1);
              })
      ]
