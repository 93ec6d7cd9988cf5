-- ===== src/Client/Cassandras.antt =====
-- cassandra-operator/pkg/client/clientset/versioned/typed/cassandra/v1alpha1/cassandra.go: the request
-- that each method sends, by the namespace that the client was made for, and the method itself.
use cassandra_operator.Base.{String, Option, none, some, List, [], ◌∷◌}
use cassandra_operator.Platform.{Platform}
use cassandra_operator.Api.{Cassandra}
use cassandra_operator.Client.Rest.{
  Options, get, post, put, delete, patch, no_params, get_params, list_params, no_body,
  resource_body, options_body, patch_body, RestRequest, CassandraList, Server,
}

abbrev pub cassandras : String
cassandras = "cassandras"

module _ {P : Platform} {O : Options P} where
  unfoldable pub get_request : String → String → O.GetOptions → RestRequest O
  get_request ns name options = record {
    verb = get;
    namespace = ns;
    resource = cassandras;
    name = some name;
    sub_resources = [];
    params = get_params options;
    body = no_body;
  }

  unfoldable pub list_request : String → O.ListOptions → RestRequest O
  list_request ns opts = record {
    verb = get;
    namespace = ns;
    resource = cassandras;
    name = none;
    sub_resources = [];
    params = list_params opts;
    body = no_body;
  }

  unfoldable pub watch_request : String → O.ListOptions → RestRequest O
  watch_request ns opts = record {
    verb = get;
    namespace = ns;
    resource = cassandras;
    name = none;
    sub_resources = [];
    params = list_params (O.watching opts);
    body = no_body;
  }

  unfoldable pub create_request : String → Cassandra P → RestRequest O
  create_request ns cassandra = record {
    verb = post;
    namespace = ns;
    resource = cassandras;
    name = none;
    sub_resources = [];
    params = no_params;
    body = resource_body cassandra;
  }

  unfoldable pub update_request : String → Cassandra P → RestRequest O
  update_request ns cassandra = record {
    verb = put;
    namespace = ns;
    resource = cassandras;
    name = some cassandra.name;
    sub_resources = [];
    params = no_params;
    body = resource_body cassandra;
  }

  unfoldable pub update_status_request : String → Cassandra P → RestRequest O
  update_status_request ns cassandra = record {
    verb = put;
    namespace = ns;
    resource = cassandras;
    name = some cassandra.name;
    sub_resources = "status" ∷ [];
    params = no_params;
    body = resource_body cassandra;
  }

  unfoldable pub delete_request : String → String → O.DeleteOptions → RestRequest O
  delete_request ns name options = record {
    verb = delete;
    namespace = ns;
    resource = cassandras;
    name = some name;
    sub_resources = [];
    params = no_params;
    body = options_body options;
  }

  unfoldable pub delete_collection_request :
      String → O.DeleteOptions → O.ListOptions → RestRequest O
  delete_collection_request ns options list_options = record {
    verb = delete;
    namespace = ns;
    resource = cassandras;
    name = none;
    sub_resources = [];
    params = list_params list_options;
    body = options_body options;
  }

  unfoldable pub patch_request : String → String → String → String → List String → RestRequest O
  patch_request ns name pt contents sub_resources = record {
    verb = patch pt;
    namespace = ns;
    resource = cassandras;
    name = some name;
    sub_resources = sub_resources;
    params = no_params;
    body = patch_body contents;
  }

-- The methods of cassandraInterface, on a `cassandras` of the namespace `ns`.
module _ {P : Platform} {O : Options P} (S : Server O) (ns : String) where
  abbrev Returns : Type 0 → Type 0
  Returns A = S.State → (A × Option S.Error) × S.State

  unfoldable pub get_cassandra : String → O.GetOptions → Returns (Cassandra P)
  unfolding get_request
  get_cassandra name options s = S.send_resource (get_request ns name options) s

  unfoldable pub list_cassandras : O.ListOptions → Returns (CassandraList O)
  unfolding list_request
  list_cassandras opts s = S.send_list (list_request ns opts) s

  unfoldable pub watch_cassandras : O.ListOptions → Returns (Option S.Stream)
  unfolding watch_request
  watch_cassandras opts s = S.open_stream (watch_request ns opts) s

  unfoldable pub create_cassandra : Cassandra P → Returns (Cassandra P)
  unfolding create_request
  create_cassandra cassandra s = S.send_resource (create_request ns cassandra) s

  unfoldable pub update_cassandra : Cassandra P → Returns (Cassandra P)
  unfolding update_request
  update_cassandra cassandra s = S.send_resource (update_request ns cassandra) s

  unfoldable pub update_status : Cassandra P → Returns (Cassandra P)
  unfolding update_status_request
  update_status cassandra s = S.send_resource (update_status_request ns cassandra) s

  unfoldable pub delete_cassandra : String → O.DeleteOptions → S.State → Option S.Error × S.State
  unfolding delete_request
  delete_cassandra name options s = S.send (delete_request ns name options) s

  unfoldable pub delete_collection :
      O.DeleteOptions → O.ListOptions → S.State → Option S.Error × S.State
  unfolding delete_collection_request
  delete_collection options list_options s =
      S.send (delete_collection_request ns options list_options) s

  unfoldable pub patch_cassandra : String → String → String → List String → Returns (Cassandra P)
  unfolding patch_request
  patch_cassandra name pt contents sub_resources s =
      S.send_resource (patch_request ns name pt contents sub_resources) s
