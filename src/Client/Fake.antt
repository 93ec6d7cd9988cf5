-- ===== src/Client/Fake.antt =====
-- cassandra-operator/pkg/client/clientset/versioned/typed/cassandra/v1alpha1/fake/fake_cassandra.go:
-- the client's double for tests, which asks an object tracker of client-go, a parameter, to act.
use cassandra_operator.Base.{String, Option, none, some, List, [], ◌∷◌, if◌then◌else◌}
use cassandra_operator.Platform.{Platform}
use cassandra_operator.Api.{Cassandra}
use cassandra_operator.Client.Rest.{Options, CassandraList}

pub record GroupVersionResource : Type 0 where
  pub group : String
  pub version : String
  pub resource : String

abbrev pub cassandras_resource : GroupVersionResource
cassandras_resource = record {
  group = "core.sky.uk";
  version = "v1alpha1";
  resource = "cassandras";
}

-- The actions of client-go's testing package, with the arguments that they are made from.
pub data Action {P : Platform} (O : Options P) : Type 0 where
  get_action : GroupVersionResource → String → String → Action O
  list_action : GroupVersionResource → String → O.ListOptions → Action O
  watch_action : GroupVersionResource → String → O.ListOptions → Action O
  create_action : GroupVersionResource → String → Cassandra P → Action O
  update_action : GroupVersionResource → String → Cassandra P → Action O
  update_subresource_action : GroupVersionResource → String → String → Cassandra P → Action O
  delete_action : GroupVersionResource → String → String → Action O
  delete_collection_action : GroupVersionResource → String → O.ListOptions → Action O
  patch_subresource_action :
      GroupVersionResource → String → String → String → List String → Action O

-- Fake.Invokes, by the type of its answer, and Fake.InvokesWatch; a nil object is `none`.
pub record Tracker {P : Platform} (O : Options P) : Type 1 where
  pub State : Type 0
  pub Error : Type 0
  pub Stream : Type 0
  pub invoke : Action O → State → (Option (Cassandra P) × Option Error) × State
  pub invoke_list : Action O → State → (Option (CassandraList O) × Option Error) × State
  pub invoke_watch : Action O → State → (Option Stream × Option Error) × State

module _ {P : Platform} (O : Options P) where
  -- The loop of List: the items that the selector matches.
  unfoldable pub matching_items : O.Selector → List (Cassandra P) → List (Cassandra P)
  matching_items label [] = []
  matching_items label (item ∷ items) =
      let rest = matching_items label items in if O.selects label item then item ∷ rest else rest

  unfoldable pub selector_of : O.ListOptions → O.Selector
  selector_of opts = elim (O.label_of opts) [ none ↦ O.everything | some label ↦ label ]

  unfoldable pub filtered : O.ListOptions → CassandraList O → CassandraList O
  unfolding matching_items selector_of
  filtered opts list = record list { items = matching_items (selector_of opts) list.items }

module _ {P : Platform} {O : Options P} (T : Tracker O) (ns : String) where
  abbrev Returns : Type 0 → Type 0
  Returns A = T.State → (Option A × Option T.Error) × T.State

  unfoldable pub fake_get : String → O.GetOptions → Returns (Cassandra P)
  fake_get name options s = T.invoke (get_action cassandras_resource ns name) s

  -- A nil list is returned as it is, any other without the items that are not selected.
  unfoldable pub fake_list : O.ListOptions → Returns (CassandraList O)
  unfolding filtered
  fake_list opts s =
      let ((found, error), s') = T.invoke_list (list_action cassandras_resource ns opts) s in
      ((elim found [ none ↦ none | some list ↦ some (filtered O opts list) ], error), s')

  unfoldable pub fake_watch : O.ListOptions → Returns T.Stream
  fake_watch opts s = T.invoke_watch (watch_action cassandras_resource ns opts) s

  unfoldable pub fake_create : Cassandra P → Returns (Cassandra P)
  fake_create cassandra s = T.invoke (create_action cassandras_resource ns cassandra) s

  unfoldable pub fake_update : Cassandra P → Returns (Cassandra P)
  fake_update cassandra s = T.invoke (update_action cassandras_resource ns cassandra) s

  unfoldable pub fake_update_status : Cassandra P → Returns (Cassandra P)
  fake_update_status cassandra s =
      T.invoke (update_subresource_action cassandras_resource "status" ns cassandra) s

  unfoldable pub fake_delete : String → O.DeleteOptions → T.State → Option T.Error × T.State
  fake_delete name options s =
      let ((found, error), s') = T.invoke (delete_action cassandras_resource ns name) s in
      (error, s')

  unfoldable pub fake_delete_collection :
      O.DeleteOptions → O.ListOptions → T.State → Option T.Error × T.State
  fake_delete_collection options list_options s =
      let ((found, error), s') =
        T.invoke_list (delete_collection_action cassandras_resource ns list_options) s in
      (error, s')

  unfoldable pub fake_patch : String → String → String → List String → Returns (Cassandra P)
  fake_patch name pt contents sub_resources s =
      T.invoke (patch_subresource_action cassandras_resource ns name contents sub_resources) s
