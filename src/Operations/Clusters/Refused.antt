-- ===== src/Operations/Clusters/Refused.antt =====
-- Updates of a cluster that are refused.
use cassandra_operator.Base.{
  ℕ, ◌≡◌, ◌≢◌, ap, ◌∙◌, some, List, [], ◌∷◌, ◌++◌, arith, ok, err, All, map, sym, ◌⊎◌, ◌<>◌,
  get_elem?, set, set_same, get_elem?-set, get_elem?-set_ne,
}
use cassandra_operator.Platform.{Platform}
use cassandra_operator.Api.{Cassandra}
use cassandra_operator.Cluster.{Cluster}
use cassandra_operator.Cluster.Validation.{ValidationError}
use cassandra_operator.Cluster.Definition.{prepare, copy_into, new}
use cassandra_operator.Adjuster.{
  ClusterChange, delete_rack, scale_down_rack, ForbiddenChange, changes_for_cluster,
}
use cassandra_operator.World.{Environment, World, invalid_change, done}
use cassandra_operator.Operations.Clusters.{
  execute_update_cluster, copy_definition, copied, planned, perform_changes, perform,
  execute_add_cluster, new_cluster, added,
}
use cassandra_operator.Accessor.{find_custom_config_map}
use mathlib.Core.List.{append_assoc, append-nil}

module _ {P : Platform} {K : Environment P} (w : World K) (a old new : ℕ) (c : Cluster P)
    (n : Cassandra P) (has_cluster : get_elem? w.stored_clusters a ≡ some c)
    (has_new : get_elem? w.definitions new ≡ some n) where
  -- If the new definition does not pass the checks, executing the update writes what the checks wrote
  -- into that definition, and changes nothing else: nothing is sent and no event is recorded.
  pub execute_update_cluster-invalid :
      {e : ValidationError}
      → (prepare n).0 ≡ err e
      → execute_update_cluster a old new w
        ≡ done tt (record w { definitions = set w.definitions new (prepare n).1 })
  unfolding execute_update_cluster copy_definition copied copy_into
  execute_update_cluster-invalid h =
      ground (arith, h, has_cluster, has_new, set_same w.stored_clusters a c has_cluster)

  -- If the new definition passes the checks but the update from the old one is not allowed, executing
  -- the update sends nothing and records one event; yet the new definition, with its defaults, is
  -- stored in the cluster. The two definitions stand at different addresses.
  pub execute_update_cluster-forbidden :
      {s o : Cassandra P} {f : ForbiddenChange}
      → get_elem? w.definitions old ≡ some o
      → new ≢ old
      → (prepare n).0 ≡ ok s
      → changes_for_cluster o.spec (prepare n).1.spec ≡ err f
      → execute_update_cluster a old new w
        ≡ done tt (record w {
          definitions = set w.definitions new (prepare n).1;
          stored_clusters = set w.stored_clusters a (record c { definition = s });
          events = w.events ++ invalid_change ∷ [];
        })
  unfolding execute_update_cluster copy_definition copied copy_into planned
  execute_update_cluster-forbidden {s} {o} {f} has_old apart h forbidden = ground (
    arith,
    h,
    has_cluster,
    has_new,
    forbidden,
    get_elem?-set_ne w.definitions new old (prepare n).1 apart ∙ has_old,
    get_elem?-set w.definitions new n (prepare n).1 has_new,
  )

-- A change that the operator only reports.
abbrev pub IsUnsupported : ClusterChange → Type 0
IsUnsupported c = (c.change_type ≡ delete_rack) ⊎ (c.change_type ≡ scale_down_rack)

module _ {P : Platform} {K : Environment P} where
  -- Performing changes that all remove or shrink a rack sends nothing, changes no definition and no
  -- cluster, and records one event for each of them.
  pub perform_changes-unsupported :
      (w : World K) (a : ℕ) (cs : List ClusterChange)
      → All IsUnsupported cs
      → perform_changes a cs w
        ≡ done tt (record w { events = w.events ++ map (λ c. invalid_change) cs })
  unfolding perform_changes perform
  perform_changes-unsupported w a [] h =
      ap (λ l. done tt (record w { events = l })) (sym (append-nil w.events))
  perform_changes-unsupported w a (c ∷ cs) h = ground (
    arith,
    h,
    perform_changes-unsupported (record w { events = w.events ++ invalid_change ∷ [] }) a cs,
    append_assoc w.events (invalid_change ∷ []) (map (λ c. invalid_change) cs),
  )

  -- If the definition of a new cluster does not pass the checks, executing its addition looks for a
  -- custom config map and writes what the checks wrote into the definition; nothing is sent and no
  -- cluster is known that was not known before.
  pub execute_add_cluster-invalid :
      (w : World K) (d : ℕ) (n : Cassandra P) {e : ValidationError}
      → get_elem? w.definitions d ≡ some n
      → (prepare n).0 ≡ err e
      → execute_add_cluster d w
        ≡ done tt (record w {
          kube = (K.get_config_map n.namespace (n.name <> "-config") w.kube).1;
          definitions = set w.definitions d (prepare n).1;
        })
  unfolding execute_add_cluster new_cluster added find_custom_config_map new
  execute_add_cluster-invalid w d n has_definition invalid = ground (arith, has_definition, invalid)
