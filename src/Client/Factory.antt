-- ===== src/Client/Factory.antt =====
-- cassandra-operator/pkg/client/informers/externalversions: the factory of shared informers. Informers
-- are shared by pointer, so they are named by their address; a reflect.Type is named by its text. The
-- mutex makes each method one step.
pub mod Entries
pub mod Started
pub mod Once
pub mod Kept
use cassandra_operator.Base.{
  ℕ, String, Bool, true, false, not, Option, none, some, List, [], ◌∷◌, ◌++◌, length, get_elem?,
  set, if◌then◌else◌,
}
use cassandra_operator.Base.Int.{ℤ}
use cassandra_operator.Base.Assoc.{Assoc, lookup, insert}
use cassandra_operator.Platform.{Platform}
use cassandra_operator.Client.Rest.{Options, RestRequest}

-- cache.NewSharedIndexInformer at a ListWatch: the requests that it makes, how often it resyncs and
-- the names of its indexers.
pub record Informer {P : Platform} (O : Options P) : Type 0 where
  pub list_func : O.ListOptions → RestRequest O
  pub watch_func : O.ListOptions → RestRequest O
  pub resync_period : ℤ
  pub indexers : List String

pub record SharedInformerFactory {P : Platform} (O : Options P) : Type 0 where
  pub namespace : String
  pub tweak_list_options : Option (O.ListOptions → O.ListOptions)
  pub default_resync : ℤ
  pub custom_resync : Assoc ℤ
  pub informers : Assoc ℕ
  pub started_informers : Assoc Bool

-- The factory with the informers that there are and those that `go informer.Run` has been called on.
pub record Process {P : Platform} (O : Options P) : Type 0 where
  pub factory : SharedInformerFactory O
  pub created : List (Informer O)
  pub running : List ℕ

abbrev pub namespace_all : String
namespace_all = ""

-- A read of a map of booleans, which gives false for a missing key.
abbrev pub flag : Option Bool → Bool
flag none = false
flag (some b) = b

unfoldable pub set_all : List (String × ℤ) → Assoc ℤ → Assoc ℤ
unfolding insert
set_all [] table = table
set_all (entry ∷ entries) table = set_all entries (insert entry.0 entry.1 table)

-- The copy of the started informers that WaitForCacheSync takes, and what it then waits for;
-- `synced` tells how cache.WaitForCacheSync ends at each informer.
unfoldable pub started_of : Assoc ℕ → Assoc Bool → Assoc ℕ
unfolding lookup insert
started_of [] started = []
started_of (entry ∷ entries) started =
    let rest = started_of entries started in
    if flag (lookup entry.0 started) then entry ∷ rest else rest

unfoldable pub sync_each : (ℕ → Bool) → Assoc ℕ → Assoc Bool
sync_each synced [] = []
sync_each synced (entry ∷ entries) = (entry.0, synced entry.1) ∷ sync_each synced entries

abbrev pub SharedInformerOption : {P : Platform} → Options P → Type 0
SharedInformerOption O = SharedInformerFactory O → SharedInformerFactory O

module _ {P : Platform} {O : Options P} where
  unfoldable pub with_custom_resync_config : Assoc ℤ → SharedInformerOption O
  unfolding set_all
  with_custom_resync_config resync_config factory = record factory {
    custom_resync = set_all resync_config factory.custom_resync;
  }

  unfoldable pub with_tweak_list_options :
      Option (O.ListOptions → O.ListOptions) → SharedInformerOption O
  with_tweak_list_options tweak factory = record factory { tweak_list_options = tweak }

  unfoldable pub with_namespace : String → SharedInformerOption O
  with_namespace ns factory = record factory { namespace = ns }

  unfoldable pub apply_options : List (SharedInformerOption O) → SharedInformerOption O
  apply_options [] factory = factory
  apply_options (opt ∷ options) factory = apply_options options (opt factory)

  unfoldable pub new_shared_informer_factory_with_options :
      ℤ → List (SharedInformerOption O) → SharedInformerFactory O
  unfolding apply_options
  new_shared_informer_factory_with_options default_resync options = apply_options options (record {
    namespace = namespace_all;
    tweak_list_options = none;
    default_resync = default_resync;
    custom_resync = [];
    informers = [];
    started_informers = [];
  })

  unfoldable pub new_shared_informer_factory : ℤ → SharedInformerFactory O
  unfolding new_shared_informer_factory_with_options
  new_shared_informer_factory default_resync =
      new_shared_informer_factory_with_options default_resync []

  unfoldable pub new_filtered_shared_informer_factory :
      ℤ → String → Option (O.ListOptions → O.ListOptions) → SharedInformerFactory O
  unfolding new_shared_informer_factory_with_options with_namespace with_tweak_list_options
  new_filtered_shared_informer_factory default_resync ns tweak =
      new_shared_informer_factory_with_options default_resync
        (with_namespace ns ∷ with_tweak_list_options tweak ∷ [])

  -- The body of Start's loop, and the loop.
  unfoldable pub start_one : String × ℕ → Process O → Process O
  unfolding lookup insert
  start_one entry p = if flag (lookup entry.0 p.factory.started_informers) then p else record p {
    factory = record p.factory {
      started_informers = insert entry.0 true p.factory.started_informers;
    };
    running = p.running ++ (entry.1 ∷ []);
  }

  unfoldable pub start_each : Assoc ℕ → Process O → Process O
  unfolding start_one
  start_each [] p = p
  start_each (entry ∷ entries) p = start_each entries (start_one entry p)

  unfoldable pub start : Process O → Process O
  unfolding start_each
  start p = start_each p.factory.informers p

  unfoldable pub wait_for_cache_sync : (ℕ → Bool) → Process O → Assoc Bool
  unfolding started_of sync_each
  wait_for_cache_sync synced p =
      sync_each synced (started_of p.factory.informers p.factory.started_informers)

  unfoldable pub resync_period_for : String → SharedInformerFactory O → ℤ
  unfolding lookup
  resync_period_for informer_type f = elim (lookup informer_type f.custom_resync) [
    | none ↦ f.default_resync
    | some period ↦ period
  ]

  unfoldable pub informer_for : String → (ℤ → Informer O) → Process O → ℕ × Process O
  unfolding lookup insert resync_period_for
  informer_for informer_type new_func p = elim (lookup informer_type p.factory.informers) [
    | some informer ↦ (informer, p)
    | none ↦ (
      length p.created,
      record p {
        factory = record p.factory {
          informers = insert informer_type (length p.created) p.factory.informers;
        };
        created = p.created ++ (new_func (resync_period_for informer_type p.factory) ∷ []);
      },
    )
  ]
