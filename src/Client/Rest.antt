-- ===== src/Client/Rest.antt =====
-- What the generated client uses of client-go: the options of Kubernetes' calls, which it passes on,
-- and the requests that rest.Interface sends.
use cassandra_operator.Base.{String, Bool, Option, List}
use cassandra_operator.Platform.{Platform}
use cassandra_operator.Api.{Cassandra}

-- The option types of apimachinery; `watching` is opts.Watch = true. A selector of labels is what a
-- ListOptions holds; `selects` is labels.Selector.Matches at the labels of a resource.
pub record Options (P : Platform) : Type 1 where
  pub ListOptions : Type 0
  pub GetOptions : Type 0
  pub DeleteOptions : Type 0
  pub ListMeta : Type 0
  pub watching : ListOptions → ListOptions
  pub Selector : Type 0
  pub everything : Selector
  pub label_of : ListOptions → Option Selector
  pub selects : Selector → Cassandra P → Bool

pub data Verb : Type 0 where
  get post put delete : Verb
  patch : String → Verb

pub data Params {P : Platform} (O : Options P) : Type 0 where
  no_params : Params O
  get_params : O.GetOptions → Params O
  list_params : O.ListOptions → Params O

pub data Body {P : Platform} (O : Options P) : Type 0 where
  no_body : Body O
  resource_body : Cassandra P → Body O
  options_body : O.DeleteOptions → Body O
  patch_body : String → Body O

-- A request as the calls of Namespace, Resource, Name, SubResource, VersionedParams and Body leave it.
pub record RestRequest {P : Platform} (O : Options P) : Type 0 where
  pub verb : Verb
  pub namespace : String
  pub resource : String
  pub name : Option String
  pub sub_resources : List String
  pub params : Params O
  pub body : Body O

pub record CassandraList {P : Platform} (O : Options P) : Type 0 where
  pub metadata : O.ListMeta
  pub items : List (Cassandra P)

-- Request.Do and Request.Watch. Into leaves in the result what the answer holds, and gives an error.
pub record Server {P : Platform} (O : Options P) : Type 1 where
  pub State : Type 0
  pub Error : Type 0
  pub Stream : Type 0
  pub send_resource : RestRequest O → State → (Cassandra P × Option Error) × State
  pub send_list : RestRequest O → State → (CassandraList O × Option Error) × State
  pub send : RestRequest O → State → Option Error × State
  pub open_stream : RestRequest O → State → (Option Stream × Option Error) × State
