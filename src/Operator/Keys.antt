-- ===== src/Operator/Keys.antt =====
-- cassandra-operator/pkg/operator/operator.go: the keys under which events are dispatched, which decide
-- the worker that handles them.
use cassandra_operator.Base.{
  ℕ, ◌+◌, ◌<>◌, ◌≡◌, ◌≢◌, ap, ◌∙◌, Bool, not, ◌&&◌, Bool-cases, inl, inr, Option, none, some, List,
  [], ◌∷◌, map, arith, Any, String, get_elem?,
}
use cassandra_operator.Base.Text.{chars, chars-append}
use cassandra_operator.Platform.{Platform}
use cassandra_operator.Api.{Cassandra, qualified_name, custom_config_map_name}
use cassandra_operator.Kube.{ConfigMap}
use cassandra_operator.Cluster.{Cluster}
use cassandra_operator.Cluster.ConfigMaps.Names.{looks_like-Any, belongs_iff}
use cassandra_operator.World.{Environment, World, Outcome, done}
use cassandra_operator.Base.Assoc.{Assoc}
use cassandra_operator.Operator.{adjusted, without_empty_dir}
use cassandra_operator.Operator.Handlers.{
  Message, config_map_key, config_map_added, config_map_deleted, adjust_use_empty_dir,
  on_cluster_added, on_cluster_deleted,
}

module _ {P : Platform} where
  config_map_key-apart :
      (d : Cassandra P) (cm : ConfigMap)
      → cm.name ≡ custom_config_map_name d
      → cm.namespace ≡ d.namespace
      → config_map_key cm ≢ qualified_name d
  unfolding config_map_key qualified_name custom_config_map_name chars
  config_map_key-apart d cm named placed same =
      let long : chars (cm.namespace <> ("." <> cm.name))
          ≡ chars d.namespace + (1 + (chars d.name + 7)) =
        chars-append cm.namespace ("." <> cm.name)
        ∙ ground (
          arith,
          placed,
          named,
          chars-append "." cm.name,
          chars-append d.name "-config",
          ap chars named,
          ap chars placed,
        ) in
      let short : chars (d.namespace <> ("." <> d.name)) ≡ chars d.namespace + (1 + chars d.name) =
        chars-append d.namespace ("." <> d.name) ∙ ground (arith, chars-append "." d.name) in
      omega (arith, long, short, ap chars same)

module _ {P : Platform} {K : Environment P} where
  -- The keys of the events that a callback dispatches, if it returns.
  abbrev pub keys_of : Outcome K (List Message) → Option (List String)
  keys_of (done messages v) = some (map (λ (m : Message). m.key) messages)
  keys_of _ = none

  cluster_keys :
      (allow : Bool) (a : ℕ) (d : Cassandra P) (w : World K)
      → get_elem? w.definitions a ≡ some d
      → (keys_of (on_cluster_added allow a w) ≡ some (qualified_name d ∷ []))
        × (keys_of (on_cluster_deleted allow a w) ≡ some (qualified_name d ∷ []))
  unfolding on_cluster_added on_cluster_deleted adjust_use_empty_dir adjusted without_empty_dir
      qualified_name
  cluster_keys allow a d w at = elim (Bool-cases (d.spec.use_empty_dir && not allow)) [
    | inl y ↦ ground (arith, at, y)
    | inr z ↦ ground (arith, at, z)
  ]

  -- For a config map with the name of a cluster's custom config map, in the cluster's namespace, where
  -- the operator knows a cluster whose custom config map has that name: the callbacks of its
  -- addition and of its deletion each dispatch one event, under the namespace and the name of the
  -- config map. The callbacks of the addition and of the deletion of the cluster each dispatch one
  -- event, under the cluster's qualified name, which is another key.
  pub keys_apart :
      (allow : Bool) (a : ℕ) (d : Cassandra P) (w : World K) (clusters : Assoc (Cluster P))
      (cm : ConfigMap)
      → get_elem? w.definitions a ≡ some d
      → cm.name ≡ custom_config_map_name d
      → cm.namespace ≡ d.namespace
      → Any (λ e. cm.name ≡ custom_config_map_name e.1.definition) clusters
      → let key = cm.namespace <> ("." <> cm.name) in
        (map (λ (m : Message). m.key) (config_map_added cm) ≡ key ∷ [])
        × (map (λ (m : Message). m.key) (config_map_deleted clusters cm) ≡ key ∷ [])
        × (keys_of (on_cluster_added allow a w) ≡ some (qualified_name d ∷ []))
        × (keys_of (on_cluster_deleted allow a w) ≡ some (qualified_name d ∷ []))
        × (key ≢ qualified_name d)
  unfolding config_map_added config_map_deleted config_map_key
  keys_apart allow a d w clusters cm at named placed known =
      let keys = cluster_keys allow a d w at in
      (
        ground (arith, looks_like-Any clusters cm known),
        ground (arith, (belongs_iff clusters cm).1 known),
        keys.0,
        keys.1,
        config_map_key-apart d cm named placed,
      )
