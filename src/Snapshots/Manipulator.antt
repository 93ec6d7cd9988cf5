-- ===== src/Snapshots/Manipulator.antt =====
-- cassandra-snapshot/pkg/snapshot/snapshot.go: creating and cleaning up snapshots on every pod.
use cassandra_operator.Base.{String, List, [], ◌∷◌, ◌++◌, Result, ok, err}
use cassandra_operator.Base.Int.{ℤ, ◌-ℤ◌, int64}
use cassandra_operator.Base.Text.{join, concat}
use cassandra_operator.Snapshots.{Listing, outside_retention_period}
use cassandra_operator.Snapshots.Nodetool.{
  PodName, Client, create_snapshot, get_snapshots, delete_snapshot,
}

pub record CreateConfig : Type 0 where
  pub keyspaces : List String
  pub namespace : String
  pub pod_label : String
  pub snapshot_timeout : ℤ

-- `retention_seconds` is int64(RetentionPeriod.Seconds()). DoCleanup does not read the keyspaces.
pub record CleanupConfig : Type 0 where
  pub namespace : String
  pub retention_seconds : ℤ
  pub keyspaces : List String
  pub pod_label : String
  pub cleanup_timeout : ℤ

-- if err != nil { failedPods = append(failedPods, pod.Name) }
unfoldable pub failure_of {ℓ} : {A : Type ℓ} → String → Result String A → List String
failure_of name (ok a) = []
failure_of name (err e) = name ∷ []

unfoldable pub selected_of : Result String (List Listing) → List Listing
selected_of (ok snapshots) = snapshots
selected_of (err e) = []

unfoldable pub failures_result : String → List String → Result String (Unit {0})
failures_result what [] = ok tt
failures_result what (p ∷ ps) =
    err (concat (what ∷ " failed for pods: [" ∷ join (p ∷ ps) " " ∷ "]" ∷ []))

unfoldable pub listing_failed : String → String → String
listing_failed label e =
    concat ("unable to find cassandra pods with label " ∷ label ∷ ": " ∷ e ∷ [])

unfoldable pub no_pods : String → String → String
no_pods label namespace =
    concat ("no cassandra pods found with label " ∷ label ∷ " in namespace " ∷ namespace ∷ [])

module _ (C : Client) where
  -- The pods on which creating the snapshot failed, in order.
  unfoldable pub create_on : CreateConfig → ℤ → List PodName → C.State → List String × C.State
  unfolding create_snapshot failure_of
  create_on config timestamp [] s = ([], s)
  create_on config timestamp (pod ∷ pods) s =
      let (r, t) = create_snapshot C timestamp config.keyspaces pod config.snapshot_timeout s in
      let (failed, u) = create_on config timestamp pods t in (failure_of pod.name r ++ failed, u)

  unfoldable pub create_all :
      CreateConfig → ℤ → Result String (List PodName) → C.State → Result String (Unit {0}) × C.State
  unfolding create_on failures_result listing_failed no_pods
  create_all config timestamp (err e) s = (err (listing_failed config.pod_label e), s)
  create_all config timestamp (ok []) s = (err (no_pods config.pod_label config.namespace), s)
  create_all config timestamp (ok (pod ∷ pods)) s =
      let (failed, t) = create_on config timestamp (pod ∷ pods) s in
      (failures_result "snapshot creation" failed, t)

  -- `timestamp` is the time at which the pods have been listed.
  unfoldable pub do_create : CreateConfig → ℤ → C.State → Result String (Unit {0}) × C.State
  unfolding create_all
  do_create config timestamp s =
      let (pods, t) = C.list_pods config.namespace config.pod_label s in
      create_all config timestamp pods t

  unfoldable pub delete_each : PodName → ℤ → List Listing → C.State → List String × C.State
  unfolding delete_snapshot failure_of
  delete_each pod timeout [] s = ([], s)
  delete_each pod timeout (snapshot ∷ snapshots) s =
      let (r, t) = delete_snapshot C pod snapshot timeout s in
      let (failed, u) = delete_each pod timeout snapshots t in (failure_of pod.name r ++ failed, u)

  unfoldable pub find_snapshots_to_delete :
      PodName → CleanupConfig → ℤ → C.State → Result String (List Listing) × C.State
  unfolding get_snapshots outside_retention_period
  find_snapshots_to_delete pod config cutoff s =
      get_snapshots C pod config.cleanup_timeout (outside_retention_period cutoff) s

  unfoldable pub clean_up_on : CleanupConfig → ℤ → List PodName → C.State → List String × C.State
  unfolding find_snapshots_to_delete failure_of selected_of delete_each
  clean_up_on config cutoff [] s = ([], s)
  clean_up_on config cutoff (pod ∷ pods) s =
      let (r, t) = find_snapshots_to_delete pod config cutoff s in
      let (undeleted, u) = delete_each pod config.cleanup_timeout (selected_of r) t in
      let (failed, v) = clean_up_on config cutoff pods u in
      (failure_of pod.name r ++ (undeleted ++ failed), v)

  unfoldable pub clean_up_all :
      CleanupConfig
      → ℤ
      → Result String (List PodName)
      → C.State
      → Result String (Unit {0}) × C.State
  unfolding clean_up_on failures_result listing_failed no_pods
  clean_up_all config now (err e) s = (err (listing_failed config.pod_label e), s)
  clean_up_all config now (ok []) s = (err (no_pods config.pod_label config.namespace), s)
  clean_up_all config now (ok (pod ∷ pods)) s =
      let (failed, t) =
        clean_up_on config (int64 (now -ℤ config.retention_seconds)) (pod ∷ pods) s in
      (failures_result "snapshot cleanup" failed, t)

  -- `now` is the Unix time at which the pods have been listed.
  unfoldable pub do_cleanup : CleanupConfig → ℤ → C.State → Result String (Unit {0}) × C.State
  unfolding clean_up_all
  do_cleanup config now s =
      let (pods, t) = C.list_pods config.namespace config.pod_label s in
      clean_up_all config now pods t
