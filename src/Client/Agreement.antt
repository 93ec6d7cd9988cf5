-- ===== src/Client/Agreement.antt =====
-- The client for tests asks for what the real client asks for, call by call.
use mathlib.Core.List.{map-append}
use cassandra_operator.Base.{String, List, [], ◌∷◌, ◌++◌, map, ◌≡◌, refl, arith}
use cassandra_operator.Platform.{Platform}
use cassandra_operator.Client.Rest.{Options, RestRequest, Server}
use cassandra_operator.Client.Fake.{Action, Tracker}
use cassandra_operator.Client.Calls.{
  Call, get_call, list_call, watch_call, create_call, update_call, update_status_call, delete_call,
  delete_collection_call, patch_call, request_target, action_target, ServerLog, TrackerLog, perform,
  fake_perform, perform_all, fake_perform_all,
}

module _ {P : Platform} {O : Options P} where
  both_append :
      (rs rs' : List (RestRequest O)) (actions actions' : List (Action O)) (r : RestRequest O)
      (action : Action O)
      → rs' ≡ rs ++ (r ∷ [])
      → actions' ≡ actions ++ (action ∷ [])
      → request_target r ≡ action_target action
      → map request_target rs ≡ map action_target actions
      → map request_target rs' ≡ map action_target actions'
  both_append rs rs' actions actions' r action p q same e = ground (
    arith,
    p,
    q,
    map-append request_target rs (r ∷ []),
    map-append action_target actions (action ∷ []),
  )

  module _ {S : Server O} {T : Tracker O} (L : ServerLog S) (F : TrackerLog T) (ns : String) where
    abbrev pub Agree : S.State → T.State → Type 0
    Agree s t = map request_target (L.log s) ≡ map action_target (F.log t)

    perform-Agree :
        (call : Call O) (s : S.State) (t : T.State)
        → Agree s t
        → Agree (perform S ns call s) (fake_perform T ns call t)
    unfolding perform fake_perform
    perform-Agree (get_call name options) s t e =
        both_append _ _ _ _ _ _ (L.resources _ s) (F.invocations _ t) refl e
    perform-Agree (list_call opts) s t e =
        both_append _ _ _ _ _ _ (L.lists _ s) (F.lists _ t) refl e
    perform-Agree (watch_call opts) s t e =
        both_append _ _ _ _ _ _ (L.streams _ s) (F.watches _ t) refl e
    perform-Agree (create_call c) s t e =
        both_append _ _ _ _ _ _ (L.resources _ s) (F.invocations _ t) refl e
    perform-Agree (update_call c) s t e =
        both_append _ _ _ _ _ _ (L.resources _ s) (F.invocations _ t) refl e
    perform-Agree (update_status_call c) s t e =
        both_append _ _ _ _ _ _ (L.resources _ s) (F.invocations _ t) refl e
    perform-Agree (delete_call name options) s t e =
        both_append _ _ _ _ _ _ (L.others _ s) (F.invocations _ t) refl e
    perform-Agree (delete_collection_call options opts) s t e =
        both_append _ _ _ _ _ _ (L.others _ s) (F.lists _ t) refl e
    perform-Agree (patch_call name pt contents subs) s t e =
        both_append _ _ _ _ _ _ (L.resources _ s) (F.invocations _ t) refl e

    -- Whatever is called, in whatever order, the requests that the real client has sent and the actions
    -- that its double has asked for have the same verbs, resources, namespaces, names, subresources,
    -- list options, objects and patches, in the same order, if they had before.
    pub perform_all-Agree :
        (calls : List (Call O)) (s : S.State) (t : T.State)
        → Agree s t
        → Agree (perform_all S ns calls s) (fake_perform_all T ns calls t)
    perform_all-Agree [] s t e = e
    perform_all-Agree (call ∷ calls) s t e =
        perform_all-Agree calls (perform S ns call s) (fake_perform T ns call t)
          (perform-Agree call s t e)
