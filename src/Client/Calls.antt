-- ===== src/Client/Calls.antt =====
-- The methods that the client and its double for tests have in common, what their requests and actions
-- are about, and logs of them.
use cassandra_operator.Base.{String, Option, none, some, List, [], ◌∷◌, ◌++◌, ◌≡◌}
use cassandra_operator.Platform.{Platform}
use cassandra_operator.Api.{Cassandra}
use cassandra_operator.Client.Rest.{
  Options, Verb, get, post, put, delete, patch, Params, no_params, get_params, list_params, Body,
  no_body, resource_body, options_body, patch_body, RestRequest, Server,
}
use cassandra_operator.Client.Cassandras.{
  get_cassandra, list_cassandras, watch_cassandras, create_cassandra, update_cassandra,
  update_status, delete_cassandra, delete_collection, patch_cassandra,
}
use cassandra_operator.Client.Fake.{
  GroupVersionResource, Action, get_action, list_action, watch_action, create_action, update_action,
  update_subresource_action, delete_action, delete_collection_action, patch_subresource_action,
  Tracker, fake_get, fake_list, fake_watch, fake_create, fake_update, fake_update_status,
  fake_delete, fake_delete_collection, fake_patch,
}

-- The methods that both clients have, with their arguments.
pub data Call {P : Platform} (O : Options P) : Type 0 where
  get_call : String → O.GetOptions → Call O
  list_call : O.ListOptions → Call O
  watch_call : O.ListOptions → Call O
  create_call : Cassandra P → Call O
  update_call : Cassandra P → Call O
  update_status_call : Cassandra P → Call O
  delete_call : String → O.DeleteOptions → Call O
  delete_collection_call : O.DeleteOptions → O.ListOptions → Call O
  patch_call : String → String → String → List String → Call O

-- What a request or an action is about: all but the options of a read or a deletion, the type of a
-- patch, and the difference between a list and a watch.
pub record Target {P : Platform} (O : Options P) : Type 0 where
  pub verb : String
  pub namespace : String
  pub resource : String
  pub name : Option String
  pub sub_resources : List String
  pub listed : Option O.ListOptions
  pub object : Option (Cassandra P)
  pub patched : Option String

abbrev verb_text : Verb → String
verb_text get = "get"
verb_text post = "create"
verb_text put = "update"
verb_text delete = "delete"
verb_text (patch pt) = "patch"

module _ {P : Platform} {O : Options P} where
  abbrev listed_by : Params O → Option O.ListOptions
  listed_by no_params = none
  listed_by (get_params options) = none
  listed_by (list_params opts) = some opts

  abbrev object_in : Body O → Option (Cassandra P)
  object_in (resource_body cassandra) = some cassandra
  object_in no_body = none
  object_in (options_body options) = none
  object_in (patch_body contents) = none

  abbrev patch_in : Body O → Option String
  patch_in (patch_body contents) = some contents
  patch_in no_body = none
  patch_in (options_body options) = none
  patch_in (resource_body cassandra) = none

  abbrev pub request_target : RestRequest O → Target O
  request_target r = record {
    verb = verb_text r.verb;
    namespace = r.namespace;
    resource = r.resource;
    name = r.name;
    sub_resources = r.sub_resources;
    listed = listed_by r.params;
    object = object_in r.body;
    patched = patch_in r.body;
  }

  abbrev target_at : String → String → GroupVersionResource → Option String → Target O
  target_at verb ns gvr name = record {
    verb = verb;
    namespace = ns;
    resource = gvr.resource;
    name = name;
    sub_resources = [];
    listed = none;
    object = none;
    patched = none;
  }

  -- The HTTP request that an action stands for: the double lists, watches and deletes collections by
  -- verbs of its own, which are GET and DELETE here, and a watch sets Watch in its options.
  abbrev pub action_target : Action O → Target O
  action_target (get_action gvr ns name) = target_at "get" ns gvr (some name)
  action_target (list_action gvr ns opts) = record (target_at "get" ns gvr none) {
    listed = some opts;
  }
  action_target (watch_action gvr ns opts) = record (target_at "get" ns gvr none) {
    listed = some (O.watching opts);
  }
  action_target (create_action gvr ns cassandra) = record (target_at "create" ns gvr none) {
    object = some cassandra;
  }
  action_target (update_action gvr ns cassandra) =
      record (target_at "update" ns gvr (some cassandra.name)) { object = some cassandra }
  action_target (update_subresource_action gvr sub ns cassandra) =
      record (target_at "update" ns gvr (some cassandra.name)) {
        object = some cassandra;
        sub_resources = sub ∷ [];
      }
  action_target (delete_action gvr ns name) = target_at "delete" ns gvr (some name)
  action_target (delete_collection_action gvr ns opts) = record (target_at "delete" ns gvr none) {
    listed = some opts;
  }
  action_target (patch_subresource_action gvr ns name contents subs) =
      record (target_at "patch" ns gvr (some name)) {
        sub_resources = subs;
        patched = some contents;
      }

  -- A log of the requests that a server has been sent, and of the actions that a tracker was asked for
  -- (Fake.Actions).
  pub record ServerLog (S : Server O) : Type 0 where
    pub log : S.State → List (RestRequest O)
    pub resources :
        (r : RestRequest O) (s : S.State) → log (S.send_resource r s).1 ≡ log s ++ (r ∷ [])
    pub lists : (r : RestRequest O) (s : S.State) → log (S.send_list r s).1 ≡ log s ++ (r ∷ [])
    pub others : (r : RestRequest O) (s : S.State) → log (S.send r s).1 ≡ log s ++ (r ∷ [])
    pub streams : (r : RestRequest O) (s : S.State) → log (S.open_stream r s).1 ≡ log s ++ (r ∷ [])

  pub record TrackerLog (T : Tracker O) : Type 0 where
    pub log : T.State → List (Action O)
    pub invocations : (a : Action O) (s : T.State) → log (T.invoke a s).1 ≡ log s ++ (a ∷ [])
    pub lists : (a : Action O) (s : T.State) → log (T.invoke_list a s).1 ≡ log s ++ (a ∷ [])
    pub watches : (a : Action O) (s : T.State) → log (T.invoke_watch a s).1 ≡ log s ++ (a ∷ [])

  -- The state that a call on the real client leaves, and one on the double.
  unfoldable pub perform : (S : Server O) → String → Call O → S.State → S.State
  unfolding get_cassandra list_cassandras watch_cassandras create_cassandra update_cassandra
      update_status delete_cassandra delete_collection patch_cassandra
  perform S ns (get_call name options) s = (get_cassandra S ns name options s).1
  perform S ns (list_call opts) s = (list_cassandras S ns opts s).1
  perform S ns (watch_call opts) s = (watch_cassandras S ns opts s).1
  perform S ns (create_call c) s = (create_cassandra S ns c s).1
  perform S ns (update_call c) s = (update_cassandra S ns c s).1
  perform S ns (update_status_call c) s = (update_status S ns c s).1
  perform S ns (delete_call name options) s = (delete_cassandra S ns name options s).1
  perform S ns (delete_collection_call options opts) s = (delete_collection S ns options opts s).1
  perform S ns (patch_call name pt contents subs) s =
      (patch_cassandra S ns name pt contents subs s).1

  unfoldable pub fake_perform : (T : Tracker O) → String → Call O → T.State → T.State
  unfolding fake_get fake_list fake_watch fake_create fake_update fake_update_status fake_delete
      fake_delete_collection fake_patch
  fake_perform T ns (get_call name options) s = (fake_get T ns name options s).1
  fake_perform T ns (list_call opts) s = (fake_list T ns opts s).1
  fake_perform T ns (watch_call opts) s = (fake_watch T ns opts s).1
  fake_perform T ns (create_call c) s = (fake_create T ns c s).1
  fake_perform T ns (update_call c) s = (fake_update T ns c s).1
  fake_perform T ns (update_status_call c) s = (fake_update_status T ns c s).1
  fake_perform T ns (delete_call name options) s = (fake_delete T ns name options s).1
  fake_perform T ns (delete_collection_call options opts) s =
      (fake_delete_collection T ns options opts s).1
  fake_perform T ns (patch_call name pt contents subs) s =
      (fake_patch T ns name pt contents subs s).1

  abbrev pub perform_all : (S : Server O) → String → List (Call O) → S.State → S.State
  perform_all S ns [] s = s
  perform_all S ns (call ∷ calls) s = perform_all S ns calls (perform S ns call s)

  abbrev pub fake_perform_all : (T : Tracker O) → String → List (Call O) → T.State → T.State
  fake_perform_all T ns [] s = s
  fake_perform_all T ns (call ∷ calls) s = fake_perform_all T ns calls (fake_perform T ns call s)
