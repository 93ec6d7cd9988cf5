-- ===== src/Accessor/StatefulSets.antt =====
-- cassandra-operator/pkg/operator/operations/statefulset_accessor.go: creating, updating and patching
-- the stateful sets of racks, each followed by a wait.
use cassandra_operator.Base.{String, Option, List, [], ◌∷◌, Result, ok, err}
use cassandra_operator.Platform.{Platform}
use cassandra_operator.Api.{Rack}
use cassandra_operator.Kube.{StatefulSet, ConfigMap}
use cassandra_operator.Cluster.{Cluster}
use cassandra_operator.World.{Environment, AppliedSet, M, ◌>>=◌, ◌>>◌, pure}
use cassandra_operator.Accessor.{
  wait_until_rack_change_applied, create_stateful_set_for_rack, patch_rack,
  get_stateful_set_for_rack, update_set,
}

module _ {P : Platform} {K : Environment P} where
  -- A failed wait is only logged: the next stateful sets are still created.
  unfoldable pub set_created :
      Cluster P → Result String (AppliedSet P) → M K (Result String (Unit {0}))
  unfolding wait_until_rack_change_applied
  set_created c (err e) = pure (err e)
  set_created c (ok sts) = do wait_until_rack_change_applied c sts; pure (ok tt)

  unfoldable pub register_stateful_set :
      Cluster P → Rack → Option ConfigMap → M K (Result String (Unit {0}))
  unfolding create_stateful_set_for_rack set_created
  register_stateful_set c rack cm = do r ← create_stateful_set_for_rack c rack cm; set_created c r

  -- An action on each rack in turn, until one fails.
  unfoldable pub for_each_rack :
      List Rack → (Rack → M K (Result String (Unit {0}))) → M K (Result String (Unit {0}))
  for_each_rack [] action w = pure (ok tt) w
  for_each_rack (rack ∷ racks) action w =
      let rest = for_each_rack racks action in
      (do r ← action rack; elim r [ ok _ ↦ rest | err e ↦ pure (err e) ]) w

  unfoldable pub register_stateful_sets :
      Cluster P → Option ConfigMap → M K (Result String (Unit {0}))
  unfolding register_stateful_set for_each_rack
  register_stateful_sets c cm =
      for_each_rack c.definition.spec.racks (λ rack. register_stateful_set c rack cm)

  unfoldable pub waited : Cluster P → Result String (AppliedSet P) → M K (Result String (Unit {0}))
  unfolding wait_until_rack_change_applied
  waited c (err e) = pure (err e)
  waited c (ok sts) = wait_until_rack_change_applied c sts

  -- The two actions, which add and remove a custom config, do not fail.
  update_found :
      Cluster P
      → (StatefulSet P → StatefulSet P)
      → Result String (AppliedSet P)
      → M K (Result String (Unit {0}))
  unfolding update_set waited
  update_found c action (err e) = pure (err e)
  update_found c action (ok sts) = do
    r ← update_set c (record sts { object = action sts.object })
    waited c r

  unfoldable pub update_stateful_set :
      Cluster P → Rack → (StatefulSet P → StatefulSet P) → M K (Result String (Unit {0}))
  unfolding get_stateful_set_for_rack update_found
  update_stateful_set c rack action = do
    r ← get_stateful_set_for_rack c rack
    update_found c action r

  unfoldable pub patch_stateful_set : Cluster P → Rack → String → M K (Result String (Unit {0}))
  unfolding patch_rack waited
  patch_stateful_set c rack patch = do r ← patch_rack c rack patch; waited c r
