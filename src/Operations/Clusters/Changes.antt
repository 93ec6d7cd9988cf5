-- ===== src/Operations/Clusters/Changes.antt =====
-- What performing the changes of an update sends, when Kubernetes accepts it.
use cassandra_operator.Base.{
  ℕ, String, ◌<>◌, ◌≡◌, refl, ap, sym, true, Option, some, List, [], ◌∷◌, ◌++◌, arith, get_elem?,
  Result, ok, err,
}
use mathlib.Core.List.{append_assoc, append-nil}
use cassandra_operator.Platform.{Platform}
use cassandra_operator.Api.{Rack, Probe, rack_name}
use cassandra_operator.Kube.{ConfigMap}
use cassandra_operator.Cluster.{Cluster}
use cassandra_operator.Adjuster.{
  ClusterChange, ClusterChangeType, delete_rack, add_rack, update_rack, scale_down_rack,
}
use cassandra_operator.World.{
  Environment, World, done, Request, AppliedSet, invalid_change, stateful_set_patched,
}
use cassandra_operator.Accessor.{patch_rack, find_custom_config_map, to_option}
use cassandra_operator.Accessor.StatefulSets.{patch_stateful_set, waited}
use cassandra_operator.Accessor.Accepting.{
  Accepting, Sent, IsOk, applies, observed_of, applies-ends_wait, wait-Sent, register-Sent,
  set_request,
}
use cassandra_operator.Operations.Clusters.{perform_changes, perform, goes_on}

-- A Kubernetes that accepts every patch, and in which the change of a stateful set that has been patched
-- is applied.
pub record Applying {P : Platform} (K : Environment P) : Type 0 where
  pub patches :
      (namespace name patch : String) (k : K.State)
      → IsOk (K.patch_stateful_set namespace name patch k).0
  pub applied :
      (namespace name patch : String) (k : K.State) (sts : AppliedSet P)
      → (K.patch_stateful_set namespace name patch k).0 ≡ ok sts
      → applies (observed_of K sts (K.patch_stateful_set namespace name patch k).1) sts.generation
        ≡ true

module _ {P : Platform} where
  -- The request for one change: none for a change that the operator only reports.
  pub requests_for :
      Cluster P → Option ConfigMap → ClusterChangeType → ClusterChange → List (Request P)
  requests_for c cm update_rack change =
      stateful_set_patched c.definition.namespace (rack_name c.definition change.rack) change.patch
      ∷ []
  requests_for c cm add_rack change = set_request c cm change.rack ∷ []
  requests_for c cm delete_rack change = []
  requests_for c cm scale_down_rack change = []

  pub all_requests_for : Cluster P → Option ConfigMap → List ClusterChange → List (Request P)
  all_requests_for c cm [] = []
  all_requests_for c cm (change ∷ changes) =
      requests_for c cm change.change_type change ++ all_requests_for c cm changes

module _ {P : Platform} {K : Environment P} (accepting : Accepting K) (applying : Applying K)
    (c : Cluster P) (probe : Probe)
    (ready : c.definition.spec.pod.readiness_probe ≡ some probe) where
  waited-Sent :
      (r : Result String (AppliedSet P)) (w : World K)
      → IsOk r
      → ((sts : AppliedSet P)
          → r ≡ ok sts
          → applies (observed_of K sts w.kube) sts.generation ≡ true)
      → Sent w [] (λ r. r ≡ ok tt) (waited c r w)
  unfolding waited
  waited-Sent (err e) w h a = absurd h
  waited-Sent (ok sts) w h a =
      let rest =
        wait-Sent c probe ready sts w
          (applies-ends_wait (observed_of K sts w.kube) sts.generation (a sts refl)) in
      record {
        kube = rest.kube;
        log = rest.log;
        result = rest.result;
        run = rest.run;
        good = rest.good (a sts refl);
      }

  patch-Sent :
      (rack : Rack) (patch : String) (w : World K)
      → Sent w
          (stateful_set_patched c.definition.namespace (rack_name c.definition rack) patch ∷ [])
          (λ r. r ≡ ok tt)
          (patch_stateful_set c rack patch w)
  unfolding patch_stateful_set patch_rack
  patch-Sent rack patch w =
      let name = rack_name c.definition rack in
      let answer = K.patch_stateful_set c.definition.namespace name patch w.kube in
      let w1 : World K = record w {
        kube = answer.1;
        requests = w.requests ++ stateful_set_patched c.definition.namespace name patch ∷ [];
      } in
      let rest =
        waited-Sent answer.0 w1 (applying.patches c.definition.namespace name patch w.kube)
          (applying.applied c.definition.namespace name patch w.kube) in
      record {
        kube = rest.kube;
        log = rest.log;
        result = rest.result;
        good = rest.good;
        run = ground (arith, rest.run, append-nil w1.requests);
      }

  -- The custom config map is the same whenever it is looked for.
  module _ (cm : Option ConfigMap) (a : ℕ)
      (config : (k : K.State)
        → to_option (K.get_config_map c.definition.namespace (c.definition.name <> "-config") k).0
          ≡ cm) where
    perform-Sent :
        (t : ClusterChangeType) (change : ClusterChange) (w : World K)
        → get_elem? w.stored_clusters a ≡ some c
        → Sent w (requests_for c cm t change) (λ more. more ≡ true) (perform a change t w)
    unfolding perform goes_on requests_for find_custom_config_map
    perform-Sent update_rack change w at =
        let r = patch-Sent change.rack change.patch w in
        record {
          kube = r.kube;
          log = r.log;
          result = true;
          good = refl;
          run = ground (arith, at, r.run, r.good);
        }
    perform-Sent add_rack change w at =
        let w1 : World K = record w {
          kube =
              (K.get_config_map c.definition.namespace (c.definition.name <> "-config") w.kube).1;
        } in
        let r = register-Sent accepting c probe ready change.rack cm w1 in
        record {
          kube = r.kube;
          log = r.log;
          result = true;
          good = refl;
          run = ground (arith, at, config w.kube, r.run, r.good);
        }
    perform-Sent delete_rack change w at = record {
      kube = w.kube;
      log = w.events ++ invalid_change ∷ [];
      result = true;
      good = refl;
      run =
          ap (λ l. done true (record w { events = w.events ++ invalid_change ∷ []; requests = l }))
            (sym (append-nil w.requests));
    }
    perform-Sent scale_down_rack change w at = record {
      kube = w.kube;
      log = w.events ++ invalid_change ∷ [];
      result = true;
      good = refl;
      run =
          ap (λ l. done true (record w { events = w.events ++ invalid_change ∷ []; requests = l }))
            (sym (append-nil w.requests));
    }

    pub perform_changes-Sent :
        (changes : List ClusterChange) (w : World K)
        → get_elem? w.stored_clusters a ≡ some c
        → Sent w (all_requests_for c cm changes) (λ r. Unit {0}) (perform_changes a changes w)
    unfolding perform_changes all_requests_for
    perform_changes-Sent [] w at = record {
      kube = w.kube;
      log = w.events;
      result = tt;
      good = tt;
      run = ap (λ l. done tt (record w { requests = l })) (sym (append-nil w.requests));
    }
    perform_changes-Sent (change ∷ changes) w at =
        let one = perform-Sent change.change_type change w at in
        let sent = requests_for c cm change.change_type change in
        let w1 : World K = record w {
          kube = one.kube;
          events = one.log;
          requests = w.requests ++ sent;
        } in
        let rest = perform_changes-Sent changes w1 at in
        record {
          kube = rest.kube;
          log = rest.log;
          result = tt;
          good = tt;
          run = ground (
            arith,
            one.run,
            one.good,
            rest.run,
            append_assoc w.requests sent (all_requests_for c cm changes),
          );
        }
