-- ===== src/Controller/Overlap.antt =====
-- A reconciliation of src/controller.rs does not look at the watches: it returns and sends the same
-- whatever the watcher manager is, so reconciliations that overlap meet there alone.
pub mod Shuffled
use sinker.Prelude.{◌≡◌, refl, String, not, ◌||◌, Option, none, some, List}
use sinker.Result.{Result, ok, err, panic, is_err}
use sinker.Error.{Error, kube_error}
use sinker.Kube.{KubeError, api, other, DynamicObject, Action, ObjectRef}
use sinker.Kube.Libraries.{Libraries}
use sinker.Resources.{ResourceSync, ResourceSyncStatus, ClusterRef, ClusterResourceRef}
use sinker.RemoteWatcherManager.{RemoteWatcherManager, add_if_not_exists, stop_and_remove_if_exists}
use sinker.RemoteWatcherManager.Interleaved.{Call, calls, AllOf}
use sinker.Server.{Request, Server, World, NamespacedApi, ParentApi, get_status, patch_status}
use sinker.Exec.{manage}
use sinker.Exec.Oblivious.{
  Oblivious, Effect, world, Oblivious-start, Oblivious-stop, Oblivious-if, Oblivious-pure,
  Oblivious-convert, Oblivious-send, oblivious_rules,
}
use sinker.ResourceExtensions.{
  Connections, remote_watcher_key, has_been_deleted, parent_api,
  start_remote_watches_if_not_watching, stop_remote_watches_if_watching,
}
use sinker.ResourceExtensions.Api.{connect, cluster_client, api_for}
use sinker.Controller.Reconcile.{
  stop_watches_and_remove_resource_sync_finalizers, delete_target, reconcile_deleted_resource,
  add_target_finalizer, reconcile_normally, source_and_target_apis, reconcile_with,
  reconcile_helper, live_status, reconcile, write_status,
}

module _ {C K G : Type 0} (lib : Libraries) (net : Connections C K G) (server : Server C)
    (sync : ResourceSync) where
  abbrev pub ref : ObjectRef
  ref = lib.object_ref sync.metadata

  connect-Oblivious :
      (r : ClusterRef) (ns : String) (sec : _) → Oblivious ref (connect lib net server r ns sec)
  unfolding connect
  connect-Oblivious r ns sec = search oblivious_rules depth 30

  cluster_client-Oblivious :
      (r : Option ClusterRef) (ns : String) (c : C)
      → Oblivious ref (cluster_client lib net server r ns c)
  unfolding cluster_client
  cluster_client-Oblivious none ns c = search oblivious_rules
  cluster_client-Oblivious (some r) ns c = search (oblivious_rules, connect-Oblivious) depth 30

  api_for-Oblivious :
      (r : ClusterResourceRef) (ns : String) (c : C) → Oblivious ref (api_for lib net server r ns c)
  unfolding api_for
  api_for-Oblivious r ns c = search (oblivious_rules, cluster_client-Oblivious) depth 30

  apis-Oblivious :
      (c : C) (ns : String) → Oblivious ref (source_and_target_apis lib net server sync c ns)
  unfolding source_and_target_apis
  apis-Oblivious c ns = search (oblivious_rules, api_for-Oblivious) depth 30

  own_start :
      {E : Type 0} (r : ClusterResourceRef)
      → Oblivious {C = C} {E = E} ref (manage (add_if_not_exists (remote_watcher_key lib r sync)))
  unfolding remote_watcher_key
  own_start r = Oblivious-start (remote_watcher_key lib r sync) refl

  own_stop :
      {E : Type 0} (r : ClusterResourceRef)
      → Oblivious {C = C} {E = E} ref
          (manage (stop_and_remove_if_exists (remote_watcher_key lib r sync)))
  unfolding remote_watcher_key
  own_stop r = Oblivious-stop (remote_watcher_key lib r sync) refl

  starts :
      {E : Type 0} → Oblivious {C = C} ref (start_remote_watches_if_not_watching lib {E = E} sync)
  unfolding start_remote_watches_if_not_watching
  starts = search (oblivious_rules, own_start)

  stops : {E : Type 0} → Oblivious {C = C} ref (stop_remote_watches_if_watching lib {E = E} sync)
  unfolding stop_remote_watches_if_watching
  stops = search (oblivious_rules, own_stop)

  release-Oblivious :
      (name : String) (parent : ParentApi C)
      → Oblivious ref
          (stop_watches_and_remove_resource_sync_finalizers lib net server sync name parent)
  unfolding stop_watches_and_remove_resource_sync_finalizers
  release-Oblivious name parent = search (oblivious_rules, stops) depth 30

  delete_target-Oblivious :
      (name : String) (target : NamespacedApi C) (parent : ParentApi C)
      (found : Result KubeError DynamicObject)
      → Oblivious ref (delete_target lib net server sync name target parent found)
  unfolding delete_target
  delete_target-Oblivious name target parent (ok found) = search (oblivious_rules, starts) depth 30
  delete_target-Oblivious name target parent (err (api code text)) =
      search (oblivious_rules, release-Oblivious) depth 30
  delete_target-Oblivious name target parent (err (other text)) = search oblivious_rules
  delete_target-Oblivious name target parent panic = search oblivious_rules

  deleted-Oblivious :
      (name : String) (target : NamespacedApi C) (parent : ParentApi C)
      → Oblivious ref (reconcile_deleted_resource lib net server sync name target parent)
  unfolding reconcile_deleted_resource
  deleted-Oblivious name target parent =
      search (oblivious_rules, release-Oblivious, delete_target-Oblivious) depth 30

  guard-Oblivious :
      (name : String) (parent : ParentApi C)
      → Oblivious ref (add_target_finalizer lib net server sync name parent)
  unfolding add_target_finalizer
  guard-Oblivious name parent = search oblivious_rules depth 30

  normally-Oblivious :
      (name : String) (source target : NamespacedApi C)
      → Oblivious ref (reconcile_normally lib net server sync name source target)
  unfolding reconcile_normally
  normally-Oblivious name source target = search (oblivious_rules, starts) depth 30

  reconcile_with-Oblivious :
      (name : String) (parent : ParentApi C)
      (apis : Result Error (NamespacedApi C × NamespacedApi C))
      → Oblivious ref (reconcile_with lib net server sync name parent apis)
  unfolding reconcile_with
  reconcile_with-Oblivious name parent (ok (source, target)) =
      search (oblivious_rules, deleted-Oblivious, guard-Oblivious, normally-Oblivious) depth 30
  reconcile_with-Oblivious name parent (err e) =
      search (oblivious_rules, release-Oblivious) depth 30
  reconcile_with-Oblivious name parent panic = search oblivious_rules

  helper-Oblivious :
      (c : C) (name : String) (parent : ParentApi C)
      → Oblivious ref (reconcile_helper lib net server sync c name parent)
  unfolding reconcile_helper
  helper-Oblivious c name parent =
      search (oblivious_rules, apis-Oblivious, reconcile_with-Oblivious) depth 30

  live_status-Oblivious :
      (name : String) (parent : ParentApi C) (result : Result Error Action)
      → Oblivious ref (live_status lib net server sync name parent result)
  unfolding live_status
  live_status-Oblivious name parent result =
      Oblivious-if (is_err result || not (has_been_deleted sync)) _ _
        (Oblivious-convert kube_error _ (Oblivious-send server (get_status parent name)))
        (Oblivious-pure none)

  write_status-Oblivious :
      (name : String) (parent : ParentApi C) (status : Option ResourceSyncStatus)
      → Oblivious ref (write_status lib net server parent name status)
  write_status-Oblivious name parent none = search oblivious_rules
  write_status-Oblivious name parent (some status) =
      Oblivious-convert kube_error _ (Oblivious-send server (patch_status parent name status))

  -- Whatever the servers answer, the result and the requests of a reconciliation do not depend on the
  -- watcher manager, and what it does to the manager are calls for its own ResourceSync, which do not
  -- depend on it either.
  pub reconcile-Oblivious : (c : C) → Oblivious ref (reconcile lib net server sync c)
  unfolding reconcile
  reconcile-Oblivious c =
      search (oblivious_rules, helper-Oblivious, live_status-Oblivious, write_status-Oblivious)
        depth 40
