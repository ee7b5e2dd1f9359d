-- ===== src/Controller/Bounds.antt =====
-- How many requests a reconciliation of src/controller.rs sends at most.
use sinker.Prelude.{String, not, ◌||◌, Option, none, some, ℕ, suc, ◌+◌, ◌≤◌, length}
use sinker.Result.{Result, ok, err, panic, is_err}
use sinker.Error.{Error, kube_error}
use sinker.Kube.{KubeError, api, other, DynamicObject, Action}
use sinker.Kube.Libraries.{Libraries}
use sinker.Resources.{ResourceSync, ResourceSyncStatus, ClusterRef, ClusterResourceRef}
use sinker.Server.{Server, World, NamespacedApi, ParentApi, get_status, patch_status}
use sinker.Exec.{lift, clock, ◌>>=◌, ◌>>◌}
use sinker.Controller.{reconcile_status}
use sinker.Exec.Bounded.{
  Bounded, Bounded-pure, Bounded-if, Bounded-bind, Bounded-after, Bounded-lift, Bounded-try,
  Bounded-send, Bounded-convert, bounded_rules,
}
use sinker.ResourceExtensions.{
  Connections, has_been_deleted, parent_api, start_remote_watches_if_not_watching,
  stop_remote_watches_if_watching,
}
use sinker.ResourceExtensions.Api.{connect, cluster_client, api_for}
use sinker.Controller.Reconcile.{
  stop_watches_and_remove_resource_sync_finalizers, delete_target, reconcile_deleted_resource,
  add_target_finalizer, reconcile_normally, source_and_target_apis, reconcile_with,
  reconcile_helper, live_status, reconcile, write_status,
}

module _ {C K G : Type 0} (lib : Libraries) (net : Connections C K G) (server : Server C) where
  connect-Bounded :
      (r : ClusterRef) (ns : String) (sec : _) → Bounded 1 (connect lib net server r ns sec)
  unfolding connect
  connect-Bounded r ns sec = search bounded_rules depth 30

  cluster_client-Bounded :
      (r : Option ClusterRef) (ns : String) (c : C)
      → Bounded 2 (cluster_client lib net server r ns c)
  unfolding cluster_client
  cluster_client-Bounded none ns c = search bounded_rules
  cluster_client-Bounded (some r) ns c = search (bounded_rules, connect-Bounded) depth 30

  api_for-Bounded :
      (r : ClusterResourceRef) (ns : String) (c : C) → Bounded 3 (api_for lib net server r ns c)
  unfolding api_for
  api_for-Bounded r ns c =
      Bounded-bind 2 1 _ _ (cluster_client-Bounded r.cluster ns c)
        (λ _. search bounded_rules depth 30)

  module _ (sync : ResourceSync) where
    apis-Bounded :
        (c : C) (ns : String) → Bounded 6 (source_and_target_apis lib net server sync c ns)
    unfolding source_and_target_apis
    apis-Bounded c ns =
        Bounded-bind 3 3 _ _ (api_for-Bounded sync.spec.target ns c)
          (λ _. Bounded-bind 3 0 _ _ (api_for-Bounded sync.spec.source ns c) (λ _. Bounded-pure _))

    start-Bounded :
        {E : Type 0} → Bounded {C = C} 0 (start_remote_watches_if_not_watching lib {E = E} sync)
    unfolding start_remote_watches_if_not_watching
    start-Bounded = search bounded_rules

    stop-Bounded :
        {E : Type 0} → Bounded {C = C} 0 (stop_remote_watches_if_watching lib {E = E} sync)
    unfolding stop_remote_watches_if_watching
    stop-Bounded = search bounded_rules

    release-Bounded :
        {n : ℕ} (name : String) (parent : ParentApi C)
        → Bounded
            (suc n)
            (stop_watches_and_remove_resource_sync_finalizers lib net server sync name parent)
    unfolding stop_watches_and_remove_resource_sync_finalizers
    release-Bounded name parent = search (bounded_rules, stop-Bounded) depth 30

    delete_target-Bounded :
        (name : String) (target : NamespacedApi C) (parent : ParentApi C)
        (found : Result KubeError DynamicObject)
        → Bounded 1 (delete_target lib net server sync name target parent found)
    unfolding delete_target
    delete_target-Bounded name target parent (ok found) =
        search (bounded_rules, start-Bounded) depth 30
    delete_target-Bounded name target parent (err (api code text)) =
        search (bounded_rules, release-Bounded) depth 30
    delete_target-Bounded name target parent (err (other text)) = search bounded_rules
    delete_target-Bounded name target parent panic = search bounded_rules

    deleted-Bounded :
        (name : String) (target : NamespacedApi C) (parent : ParentApi C)
        → Bounded 2 (reconcile_deleted_resource lib net server sync name target parent)
    unfolding reconcile_deleted_resource
    deleted-Bounded name target parent =
        search (bounded_rules, release-Bounded, delete_target-Bounded) depth 30

    guard-Bounded :
        (name : String) (parent : ParentApi C)
        → Bounded 2 (add_target_finalizer lib net server sync name parent)
    unfolding add_target_finalizer
    guard-Bounded name parent = search bounded_rules depth 30

    normally-Bounded :
        (name : String) (source target : NamespacedApi C)
        → Bounded 2 (reconcile_normally lib net server sync name source target)
    unfolding reconcile_normally
    normally-Bounded name source target = search (bounded_rules, start-Bounded) depth 30

    reconcile_with-Bounded :
        (name : String) (parent : ParentApi C)
        (apis : Result Error (NamespacedApi C × NamespacedApi C))
        → Bounded 2 (reconcile_with lib net server sync name parent apis)
    unfolding reconcile_with
    reconcile_with-Bounded name parent (ok (source, target)) =
        search (bounded_rules, deleted-Bounded, guard-Bounded, normally-Bounded) depth 30
    reconcile_with-Bounded name parent (err e) = search (bounded_rules, release-Bounded) depth 30
    reconcile_with-Bounded name parent panic = search bounded_rules

    helper-Bounded :
        (c : C) (name : String) (parent : ParentApi C)
        → Bounded 8 (reconcile_helper lib net server sync c name parent)
    unfolding reconcile_helper
    helper-Bounded c name parent = Bounded-after _ _ (Bounded-lift _) (λ ns.
        Bounded-bind 6 2 _ _ (Bounded-try _ (apis-Bounded c ns))
          (λ apis. reconcile_with-Bounded name parent apis))

    live_status-Bounded :
        (name : String) (parent : ParentApi C) (result : Result Error Action)
        → Bounded 1 (live_status lib net server sync name parent result)
    unfolding live_status
    live_status-Bounded name parent result =
        Bounded-if (is_err result || not (has_been_deleted sync)) _ _
          (Bounded-convert kube_error _ (Bounded-send server (get_status parent name)))
          (Bounded-pure none)

    write_status-Bounded :
        (name : String) (parent : ParentApi C) (status : Option ResourceSyncStatus)
        → Bounded 1 (write_status lib net server parent name status)
    write_status-Bounded name parent none = search bounded_rules
    write_status-Bounded name parent (some status) =
        Bounded-convert kube_error _ (Bounded-send server (patch_status parent name status))

    ending-Bounded :
        (name : String) (parent : ParentApi C) (result : Result Error Action)
        → Bounded 2 (do
          live ← live_status lib net server sync name parent result
          now ← clock server
          write_status lib net server parent name (reconcile_status lib now sync live result)
          lift result)
    ending-Bounded name parent result =
        search (bounded_rules, live_status-Bounded, write_status-Bounded) depth 30

    -- Whatever the servers answer, a reconciliation ends, and sends at most ten requests.
    pub reconcile-Bounded :
        (c : C) (w : World C)
        → length (reconcile lib net server sync c w).1.history ≤ length w.history + 10
    unfolding reconcile
    reconcile-Bounded c w = bounded.at w
      where
        bounded : Bounded 10 (reconcile lib net server sync c)
        bounded = Bounded-after _ _ (Bounded-lift _) (λ name.
            Bounded-bind 8 2 _ _ (Bounded-try _ (helper-Bounded c name (parent_api sync c)))
              (λ result. ending-Bounded name (parent_api sync c) result))
