-- ===== src/Client/Informers.antt =====
-- cassandra-operator/pkg/client/informers/externalversions: v1alpha1/cassandra.go, the two files
-- interface.go and generic.go, which make the informer of the Cassandra resources.
use cassandra_operator.Base.{
  ℕ, String, Option, none, some, List, [], ◌∷◌, if◌then◌else◌, Result, ok, err, ◌==◌, ◌&&◌,
}
use cassandra_operator.Base.Int.{ℤ}
use cassandra_operator.Platform.{Platform}
use cassandra_operator.Client.Rest.{Options}
use cassandra_operator.Client.Cassandras.{list_request, watch_request}
use cassandra_operator.Client.Fake.{GroupVersionResource}
use cassandra_operator.Client.Factory.{Informer, SharedInformerFactory, Process, informer_for}

-- "namespace", the cache.NamespaceIndex
abbrev pub namespace_index : String
namespace_index = "namespace"

-- if tweakListOptions != nil { tweakListOptions(&options) }
unfoldable pub tweaked {ℓ} : {A : Type ℓ} → Option (A → A) → A → A
tweaked none options = options
tweaked (some tweak) options = tweak options

module _ {P : Platform} {O : Options P} where
  unfoldable pub new_filtered_cassandra_informer :
      String → ℤ → List String → Option (O.ListOptions → O.ListOptions) → Informer O
  unfolding tweaked list_request watch_request
  new_filtered_cassandra_informer ns resync_period indexers tweak = record {
    list_func = λ options. list_request ns (tweaked tweak options);
    watch_func = λ options. watch_request ns (tweaked tweak options);
    resync_period = resync_period;
    indexers = indexers;
  }

  unfoldable pub new_cassandra_informer : String → ℤ → List String → Informer O
  unfolding new_filtered_cassandra_informer
  new_cassandra_informer ns resync_period indexers =
      new_filtered_cassandra_informer ns resync_period indexers none

-- The group, the version and the
-- informer of a type all carry the factory with its namespace and its tweak.
pub record Group {P : Platform} (O : Options P) : Type 0 where
  pub namespace : String
  pub tweak_list_options : Option (O.ListOptions → O.ListOptions)

abbrev pub cassandra_type : String
cassandra_type = "v1alpha1.Cassandra"

module _ {P : Platform} {O : Options P} where
  unfoldable pub core : SharedInformerFactory O → Group O
  core f = record { namespace = f.namespace; tweak_list_options = f.tweak_list_options }

  unfoldable pub v1alpha1 : Group O → Group O
  v1alpha1 g = record { namespace = g.namespace; tweak_list_options = g.tweak_list_options }

  unfoldable pub cassandras : Group O → Group O
  cassandras v = record { namespace = v.namespace; tweak_list_options = v.tweak_list_options }

  unfoldable pub default_informer : Group O → ℤ → Informer O
  unfolding new_filtered_cassandra_informer
  default_informer f resync_period =
      new_filtered_cassandra_informer f.namespace resync_period (namespace_index ∷ [])
        f.tweak_list_options

  unfoldable pub informer : Group O → Process O → ℕ × Process O
  unfolding informer_for default_informer
  informer f p = informer_for cassandra_type (default_informer f) p

  -- generic.go: the informer of a resource that is named at run time.
  unfoldable pub for_resource :
      GroupVersionResource → Process O → Result GroupVersionResource ℕ × Process O
  unfolding informer core v1alpha1 cassandras
  for_resource resource p =
      if resource.group == "core.sky.uk"
        && resource.version == "v1alpha1"
        && resource.resource == "cassandras"
      then (let (address, p') = informer (cassandras (v1alpha1 (core p.factory))) p in
          (ok address, p'))
      else (err resource, p)
