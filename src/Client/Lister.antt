-- ===== src/Client/Lister.antt =====
-- cassandra-operator/pkg/client/listers/cassandra/v1alpha1/cassandra.go: reads of an informer's cache.
-- The indexer is client-go's and a parameter.
use cassandra_operator.Base.{String, ◌<>◌, Option, none, some, List, Result, ok, err}
use cassandra_operator.Platform.{Platform}
use cassandra_operator.Api.{Cassandra}
use cassandra_operator.Client.Rest.{Options}

-- cache.Indexer with ListAll and ListAllByNamespace, which give the resources that their callback was
-- called with and an error, if there was one.
pub record Indexer {P : Platform} (O : Options P) : Type 1 where
  pub Error : Type 0
  pub get_by_key : String → Result Error (Option (Cassandra P))
  pub list_all : O.Selector → List (Cassandra P) × Option Error
  pub list_all_by_namespace : String → O.Selector → List (Cassandra P) × Option Error

-- The errors of Get: the indexer's, or errors.NewNotFound with a resource and a name.
pub data GetError (E : Type 0) : Type 0 where
  failed : E → GetError E
  not_found : String → String → GetError E

module _ {P : Platform} {O : Options P} (I : Indexer O) where
  unfoldable pub list : O.Selector → List (Cassandra P) × Option I.Error
  list selector = I.list_all selector

  unfoldable pub list_in : String → O.Selector → List (Cassandra P) × Option I.Error
  list_in ns selector = I.list_all_by_namespace ns selector

  found_or_error :
      String → Result I.Error (Option (Cassandra P)) → Result (GetError I.Error) (Cassandra P)
  found_or_error name (err e) = err (failed e)
  found_or_error name (ok none) = err (not_found "cassandra" name)
  found_or_error name (ok (some c)) = ok c

  unfoldable pub get_in : String → String → Result (GetError I.Error) (Cassandra P)
  unfolding found_or_error
  get_in ns name = found_or_error name (I.get_by_key (ns <> ("/" <> name)))
