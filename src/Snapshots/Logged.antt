-- ===== src/Snapshots/Logged.antt =====
-- The commands that a run over all pods executes, and which pods it reports.
pub mod Conforms
use cassandra_operator.Base.{
  String, ◌≡◌, refl, sym, ap, ◌∙◌, List, [], ◌∷◌, ◌++◌, arith, ok, err, Result-cases, inl, inr,
}
use mathlib.Core.Path.{subst}
use mathlib.Core.List.{append_assoc, append-nil}
use cassandra_operator.Base.Int.{ℤ}
use cassandra_operator.Base.Text.{show_ℤ}
use cassandra_operator.Snapshots.{Listing, outside_retention_period}
use cassandra_operator.Snapshots.Nodetool.{
  PodName, Client, Execution, command_result, filtered_listing, parse_lines, split_lines,
  run_command, create_snapshot, get_snapshots, delete_snapshot,
}
use cassandra_operator.Snapshots.Manipulator.{
  CreateConfig, CleanupConfig, failure_of, selected_of, create_on, delete_each,
  find_snapshots_to_delete, clean_up_on,
}

-- A command that was executed in a pod, and how it ended.
pub record Entry : Type 0 where
  pub pod : PodName
  pub args : List String
  pub execution : Execution

-- A client that also writes down what is executed.
abbrev pub logged : Client → Client
logged C = record {
  State = C.State × List Entry;
  list_pods = λ namespace label s.
      ((C.list_pods namespace label s.0).0, ((C.list_pods namespace label s.0).1, s.1));
  execute = λ pod timeout args s. (
    (C.execute pod timeout args s.0).0,
    (
      (C.execute pod timeout args s.0).1,
      s.1 ++ record { pod = pod; args = args; execution = (C.execute pod timeout args s.0).0 } ∷ [],
    ),
  );
}

-- The pods of the commands that failed, in order.
unfoldable pub failures : List Entry → List String
unfolding failure_of
failures [] = []
failures (e ∷ es) = failure_of e.pod.name (command_result e.args e.execution) ++ failures es

abbrev listing_command : List String
listing_command = "nodetool" ∷ "listsnapshots" ∷ []

abbrev deletion_command : Listing → List String
deletion_command l = "nodetool" ∷ "clearsnapshot" ∷ "-t" ∷ l.name ∷ "--" ∷ l.keyspace ∷ []

abbrev creation_command : ℤ → List String → List String
creation_command time keyspaces = ("nodetool" ∷ "snapshot" ∷ "-t" ∷ show_ℤ time ∷ []) ++ keyspaces

failures-append : (es fs : List Entry) → failures (es ++ fs) ≡ failures es ++ failures fs
unfolding failures
failures-append [] fs = refl
failures-append (e ∷ es) fs =
    ap (λ l. failure_of e.pod.name (command_result e.args e.execution) ++ l) (failures-append es fs)
    ∙ sym (
        append_assoc (failure_of e.pod.name (command_result e.args e.execution)) (failures es)
          (failures fs))

-- One command on each pod, in order.
pub data Created (time : ℤ) (keyspaces : List String) : List PodName → List Entry → Type 0 where
  no_pods : Created time keyspaces [] []
  next_pod :
      {pod : PodName} {pods : List PodName} {e : Execution} {es : List Entry}
      → Created time keyspaces pods es
      → Created time keyspaces
          (pod ∷ pods)
          (record { pod = pod; args = creation_command time keyspaces; execution = e } ∷ es)

-- One deletion on a pod for each snapshot, in order.
pub data Deleted (pod : PodName) : List Listing → List Entry → Type 0 where
  no_snapshots : Deleted pod [] []
  next_snapshot :
      {l : Listing} {ls : List Listing} {e : Execution} {es : List Entry}
      → Deleted pod ls es
      → Deleted pod (l ∷ ls) (record { pod = pod; args = deletion_command l; execution = e } ∷ es)

-- On each pod in order its snapshots are listed, and, if that succeeds, those of the listing that lie
-- before the cutoff are deleted, each name and keyspace once.
pub data CleanedUp (cutoff : ℤ) : List PodName → List Entry → Type 0 where
  no_pods : CleanedUp cutoff [] []
  unlisted :
      {pod : PodName} {pods : List PodName} {e : Execution} {es : List Entry} {why : String}
      → command_result listing_command e ≡ err why
      → CleanedUp cutoff pods es
      → CleanedUp cutoff
          (pod ∷ pods)
          (record { pod = pod; args = listing_command; execution = e } ∷ es)
  listed :
      {pod : PodName} {pods : List PodName} {e : Execution} {es fs : List Entry} {output : String}
      → command_result listing_command e ≡ ok output
      → Deleted pod (outside_retention_period cutoff (parse_lines (split_lines output))) es
      → CleanedUp cutoff pods fs
      → CleanedUp cutoff
          (pod ∷ pods)
          (record { pod = pod; args = listing_command; execution = e } ∷ (es ++ fs))

-- A run that reports pods, over a log: what it adds to the log, which is as specified, and the pods
-- that it reports, which are those of the commands that failed.
pub record Runs {S : Type 0} (spec : List Entry → Type 0) (log : List Entry)
    (r : List String × (S × List Entry)) : Type 0 where
  pub commands : List Entry
  pub logs : r.1.1 ≡ log ++ commands
  pub conforms : spec commands
  pub reports : r.0 ≡ failures commands
