-- ===== src/Cluster/ConfigMaps/Names.antt =====
-- The names of custom config maps.
use cassandra_operator.Base.{
  String, ◌<>◌, ==_iff, ==_refl, ◌≡◌, ap, ◌∙◌, ◌↔◌, inl, inr, [], ◌∷◌, arith, Any, Bool, true,
  false, none, some, eqb, if◌then◌else◌, refl, ok,
}
use text.Mathlib.TextLemmas.{nil-append, cons-append}
use cassandra_operator.Base.Text.{ends_with, strip_prefix, replace_from, replace_all, chars}
use Prim.Native.Char.{Char, code}
use cassandra_operator.Base.Assoc.{Assoc}
use cassandra_operator.Platform.{Platform}
use cassandra_operator.Api.{Cassandra, custom_config_map_name, qualified_name}
use cassandra_operator.Kube.{ConfigMap}
use cassandra_operator.Cluster.{Cluster}
use cassandra_operator.Cluster.ConfigMaps.{
  looks_like_a_cassandra_config_map, config_map_belongs_to_a_managed_cluster,
  qualified_cluster_name_for,
}

ends_with_refl : (t : String) → ends_with t t ≡ true
unfolding ends_with
ends_with_refl String.[] = ==_refl String.[]
ends_with_refl (String.◌∷◌ c t) = ground (arith, ==_refl (String.◌∷◌ c t))

ends_with-append : (s t : String) → ends_with (s <> t) t ≡ true
unfolding ends_with
ends_with-append String.[] t = ap (λ x. ends_with x t) (nil-append t) ∙ ends_with_refl t
ends_with-append (String.◌∷◌ c s) t =
    ap (λ x. ends_with x t) (cons-append c s t) ∙ ground (arith, ends_with-append s t)

module _ {P : Platform} where
  pub belongs_iff :
      (clusters : Assoc (Cluster P)) (cm : ConfigMap)
      → (config_map_belongs_to_a_managed_cluster clusters cm ≡ true)
        ↔ Any (λ e. cm.name ≡ custom_config_map_name e.1.definition) clusters
  unfolding config_map_belongs_to_a_managed_cluster
  belongs_iff [] cm = ground arith
  belongs_iff ((key, c) ∷ clusters) cm =
      ground (arith, ==_iff cm.name (custom_config_map_name c.definition), belongs_iff clusters cm)

  pub looks_like-Any :
      (clusters : Assoc (Cluster P)) (cm : ConfigMap)
      → Any (λ e. cm.name ≡ custom_config_map_name e.1.definition) clusters
      → looks_like_a_cassandra_config_map cm ≡ true
  unfolding looks_like_a_cassandra_config_map custom_config_map_name
  looks_like-Any [] cm h = absurd h
  looks_like-Any ((key, c) ∷ clusters) cm (inl e) =
      ap (λ x. ends_with x "-config") e ∙ ends_with-append c.definition.name "-config"
  looks_like-Any ((key, c) ∷ clusters) cm (inr h) = looks_like-Any clusters cm h

  -- A config map that belongs to a managed cluster also looks like a Cassandra config map, so that its
  -- deletion and its updates are only dispatched for config maps whose addition is dispatched too.
  pub belongs-looks_like :
      (clusters : Assoc (Cluster P)) (cm : ConfigMap)
      → config_map_belongs_to_a_managed_cluster clusters cm ≡ true
      → looks_like_a_cassandra_config_map cm ≡ true
  belongs-looks_like clusters cm h = looks_like-Any clusters cm ((belongs_iff clusters cm).0 h)

-- strings.Contains, for a text that is not empty.
unfoldable pub contains : String → String → Bool
unfolding strip_prefix
contains String.[] old = false
contains (String.◌∷◌ c s) old = elim (strip_prefix old (String.◌∷◌ c s)) [
  | some rest ↦ true
  | none ↦ contains s old
]

dash_free : String → Bool
dash_free String.[] = true
dash_free (String.◌∷◌ c s) = let rest = dash_free s in if eqb (code c) 45 then false else rest

-- An occurrence that does not begin inside s does not begin there in s followed by the suffix.
strip_prefix-append :
    (q s : String)
    → dash_free q ≡ true
    → strip_prefix q s ≡ none
    → strip_prefix q (s <> "-config") ≡ none
unfolding strip_prefix dash_free
strip_prefix-append String.[] s f h = ground (arith, h)
strip_prefix-append (String.◌∷◌ c q) String.[] f h =
    ap (strip_prefix (String.◌∷◌ c q)) (nil-append "-config") ∙ ground (arith, f)
strip_prefix-append (String.◌∷◌ c q) (String.◌∷◌ d s) f h =
    ap (strip_prefix (String.◌∷◌ c q)) (cons-append d s "-config")
    ∙ ground (arith, f, h, strip_prefix-append q s)

strip_prefix-config :
    (d : Char) (s : String)
    → strip_prefix "-config" (String.◌∷◌ d s) ≡ none
    → strip_prefix "-config" (String.◌∷◌ d (s <> "-config")) ≡ none
unfolding strip_prefix dash_free
strip_prefix-config d s h = ground (arith, h, strip_prefix-append "config" s refl)

replace_from-once :
    (s : String) → contains s "-config" ≡ false → replace_from 0 (s <> "-config") "-config" "" ≡ s
unfolding replace_from contains chars strip_prefix
replace_from-once String.[] h = ap (λ t. replace_from 0 t "-config" "") (nil-append "-config")
replace_from-once (String.◌∷◌ c s) h =
    ap (λ t. replace_from 0 t "-config" "") (cons-append c s "-config")
    ∙ ground (arith, h, strip_prefix-config c s, replace_from-once s)

module _ {P : Platform} where
  -- The custom config map of a cluster, in the cluster's namespace, leads back to the cluster's
  -- qualified name, if the cluster's own name does not contain "-config".
  pub qualified_cluster_name_for-custom :
      (d : Cassandra P) (cm : ConfigMap)
      → cm.name ≡ custom_config_map_name d
      → cm.namespace ≡ d.namespace
      → contains d.name "-config" ≡ false
      → qualified_cluster_name_for cm ≡ ok (qualified_name d)
  unfolding qualified_cluster_name_for looks_like_a_cassandra_config_map custom_config_map_name
      qualified_name replace_all
  qualified_cluster_name_for-custom d cm named placed free =
      ground
        (arith, named, placed, ends_with-append d.name "-config", replace_from-once d.name free)
