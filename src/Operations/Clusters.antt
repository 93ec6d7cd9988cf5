-- ===== src/Operations/Clusters.antt =====
-- add_cluster.go, delete_cluster.go and update_cluster.go.
pub mod Refused
pub mod Deletion
pub mod Addition
pub mod Changes
pub mod Rollout
pub mod InOrder
use cassandra_operator.Base.{
  ℕ, String, Bool, true, false, Option, none, some, List, [], ◌∷◌, if◌then◌else◌, Result, ok, err,
}
use cassandra_operator.Base.Assoc.{lookup, insert, delete}
use cassandra_operator.Platform.{Platform}
use cassandra_operator.Api.{qualified_name}
use cassandra_operator.Kube.{ConfigMap}
use cassandra_operator.Cluster.Validation.{ValidationError}
use cassandra_operator.Cluster.Definition
use cassandra_operator.Adjuster.{
  ClusterChange, ClusterChangeType, delete_rack, add_rack, update_rack, scale_down_rack,
  ForbiddenChange, changes_for_cluster,
}
use cassandra_operator.World.{
  Environment, invalid_change, M, done, ◌>>=◌, ◌>>◌, pure, record_event, definition_at, cluster_at,
  write_definition, write_cluster, allocate_cluster,
}
use cassandra_operator.Accessor.{
  find_custom_config_map, find_existing_resources_for, create_service_for_cluster,
  delete_service_for_cluster, delete_stateful_sets_for_cluster,
}
use cassandra_operator.Accessor.StatefulSets.{
  register_stateful_set, register_stateful_sets, patch_stateful_set,
}
use cassandra_operator.Metrics.Prometheus.{delete_metrics}

module _ {P : Platform} {K : Environment P} where
  -- o.clusters[name] = c, delete(o.clusters, name), and a read of the map.
  abbrev pub put_cluster : String → ℕ → M K (Unit {0})
  put_cluster name a w = done tt (record w { clusters = insert name a w.clusters })

  abbrev pub forget_cluster : String → M K (Unit {0})
  forget_cluster name w = done tt (record w { clusters = delete name w.clusters })

  abbrev pub find_cluster : String → M K (Option ℕ)
  find_cluster name w = done (lookup name w.clusters) w

  set_online : ℕ → Bool → M K (Unit {0})
  set_online a online = do c ← cluster_at a; write_cluster a (record c { online = online })

  -- cluster.New at a definition's address, which also writes the defaults into the definition.
  unfoldable pub new_cluster : ℕ → M K (Result ValidationError ℕ)
  unfolding Definition.new
  new_cluster d = do
    definition ← definition_at d
    let (r, definition') = Definition.new definition
    write_definition d definition'
    elim r [ err e ↦ pure (err e) | ok c ↦ (do a ← allocate_cluster c; pure (ok a)) ]

  after_sets : ℕ → Result String (Unit {0}) → M K (Unit {0})
  unfolding set_online
  after_sets a (err e) = pure tt
  after_sets a (ok _) = set_online a true

  after_service : ℕ → Option ConfigMap → Result String (Unit {0}) → M K (Unit {0})
  unfolding register_stateful_sets after_sets
  after_service a cm (err e) = pure tt
  after_service a cm (ok _) = do c ← cluster_at a; r ← register_stateful_sets c cm; after_sets a r

  -- Nothing is created if something with the cluster's label is there.
  create_unless_found : ℕ → Option ConfigMap → List String → M K (Unit {0})
  unfolding create_service_for_cluster after_service set_online
  create_unless_found a cm (found ∷ resources) = set_online a true
  create_unless_found a cm [] = do
    c ← cluster_at a
    r ← create_service_for_cluster c
    after_service a cm r

  added : Option ConfigMap → Result ValidationError ℕ → M K (Unit {0})
  unfolding find_existing_resources_for create_unless_found insert qualified_name
  added cm (err e) = pure tt
  added cm (ok a) = do
    c ← cluster_at a
    put_cluster (qualified_name c.definition) a
    found ← find_existing_resources_for c
    create_unless_found a cm found

  unfoldable pub execute_add_cluster : ℕ → M K (Unit {0})
  unfolding find_custom_config_map new_cluster added
  execute_add_cluster d = do
    definition ← definition_at d
    cm ← find_custom_config_map definition.namespace definition.name
    r ← new_cluster d
    added cm r

  -- The two deletions are both tried; their errors are only logged.
  deleted : Option ℕ → M K (Unit {0})
  unfolding delete qualified_name set_online delete_metrics delete_stateful_sets_for_cluster
      delete_service_for_cluster
  deleted none = pure tt
  deleted (some a) = do
    c ← cluster_at a
    forget_cluster (qualified_name c.definition)
    set_online a false
    delete_metrics c
    delete_stateful_sets_for_cluster c
    delete_service_for_cluster c
    pure tt

  unfoldable pub execute_delete_cluster : ℕ → M K (Unit {0})
  unfolding deleted lookup qualified_name
  execute_delete_cluster d = do
    definition ← definition_at d
    found ← find_cluster (qualified_name definition)
    deleted found

  -- One change, with whether the loop goes on.
  goes_on : Result String (Unit {0}) → M K Bool
  goes_on (ok _) = pure true
  goes_on (err e) = pure false

  perform : ℕ → ClusterChange → ClusterChangeType → M K Bool
  unfolding patch_stateful_set register_stateful_set find_custom_config_map goes_on
  perform a change update_rack = do
    c ← cluster_at a
    r ← patch_stateful_set c change.rack change.patch
    goes_on r
  perform a change add_rack = do
    c ← cluster_at a
    cm ← find_custom_config_map c.definition.namespace c.definition.name
    r ← register_stateful_set c change.rack cm
    goes_on r
  perform a change delete_rack = do record_event invalid_change; pure true
  perform a change scale_down_rack = do record_event invalid_change; pure true

  unfoldable pub perform_changes : ℕ → List ClusterChange → M K (Unit {0})
  unfolding perform
  perform_changes a [] w = done tt w
  perform_changes a (change ∷ changes) w =
      let rest = perform_changes a changes in
      (do more ← perform a change change.change_type; if more then rest else pure tt) w

  planned : ℕ → Result ForbiddenChange (List ClusterChange) → M K (Unit {0})
  unfolding perform_changes
  planned a (err e) = record_event invalid_change
  planned a (ok changes) = perform_changes a changes

  -- cluster.CopyInto at two addresses.
  unfoldable pub copy_definition : ℕ → ℕ → M K (Option ValidationError)
  unfolding Definition.copy_into
  copy_definition a d = do
    c ← cluster_at a
    definition ← definition_at d
    let (e, c', definition') = Definition.copy_into c definition
    write_cluster a c'
    write_definition d definition'
    pure e

  copied : ℕ → ℕ → ℕ → Option ValidationError → M K (Unit {0})
  unfolding planned changes_for_cluster
  copied a old new (some e) = pure tt
  copied a old new none = do
    old_definition ← definition_at old
    new_definition ← definition_at new
    planned a (changes_for_cluster old_definition.spec new_definition.spec)

  unfoldable pub execute_update_cluster : ℕ → ℕ → ℕ → M K (Unit {0})
  unfolding copy_definition copied
  execute_update_cluster a old new = do e ← copy_definition a new; copied a old new e
