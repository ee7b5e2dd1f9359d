-- ===== src/Controller/Managing.antt =====
-- What holds of the watcher manager through a reconciliation of src/controller.rs, whatever is sent.
use sinker.Prelude.{String, ◌≡◌, refl}
use sinker.Result.{Result, ok, err, panic}
use sinker.Kube.{KubeError, api, other, DynamicObject}
use sinker.Kube.Libraries.{Libraries}
use sinker.Resources.{ResourceSync, ClusterResourceRef}
use sinker.RemoteWatcherManager.{
  RemoteWatcherKey, RemoteWatcherManager, add_if_not_exists, stop_and_remove_if_exists,
}
use sinker.Server.{
  Request, get_secret, apiserver_version, pinned_kind, get, get_status, patch_status, Server, World,
  NamespacedApi, ParentApi,
}
use sinker.Exec.{send, manage}
use sinker.Exec.Keeps.{Keeps, keeps_rules}
use sinker.ResourceExtensions.{
  Connections, remote_watcher_key, start_remote_watches_if_not_watching,
  stop_remote_watches_if_watching,
}
use sinker.Controller.Reconcile.{
  stop_watches_and_remove_resource_sync_finalizers, delete_target, reconcile_deleted_resource,
  add_target_finalizer, reconcile_normally, reconcile,
}
use sinker.Controller.Rules.{Ordinary, reconcile-Keeps}

-- A property of the manager, as one of the world.
pub record Manages (Q : RemoteWatcherManager → Type 0) {C : Type 0} (w : World C) : Type 0 where
  pub managed : Q w.manager

-- The property is kept by a start and by a stop of any watch of a ResourceSync.
pub record Kept (lib : Libraries) (sync : ResourceSync) (Q : RemoteWatcherManager → Type 0)
    : Type 0 where
  pub started :
      (key : RemoteWatcherKey) (m : RemoteWatcherManager)
      → key.resource_sync ≡ lib.object_ref sync.metadata
      → Q m
      → Q (add_if_not_exists key m)
  pub stopped :
      (key : RemoteWatcherKey) (m : RemoteWatcherManager)
      → key.resource_sync ≡ lib.object_ref sync.metadata
      → Q m
      → Q (stop_and_remove_if_exists key m)

module _ {C K G : Type 0} (lib : Libraries) (net : Connections C K G) (server : Server C)
    (sync : ResourceSync) {Q : RemoteWatcherManager → Type 0} (kept : Kept lib sync Q) where
  sends : (r : Request C) → Keeps (Manages Q) (send server r)
  unfolding send
  sends r = record { at = λ w h. record { managed = h.managed } }

  own_start :
      {E : Type 0} (r : ClusterResourceRef)
      → Keeps
          (Manages Q {C = C})
          (manage {E = E} (add_if_not_exists (remote_watcher_key lib r sync)))
  unfolding manage remote_watcher_key
  own_start r = record {
    at = λ w h. record {
      managed = kept.started (remote_watcher_key lib r sync) w.manager refl h.managed;
    };
  }

  own_stop :
      {E : Type 0} (r : ClusterResourceRef)
      → Keeps
          (Manages Q {C = C})
          (manage {E = E} (stop_and_remove_if_exists (remote_watcher_key lib r sync)))
  unfolding manage remote_watcher_key
  own_stop r = record {
    at = λ w h. record {
      managed = kept.stopped (remote_watcher_key lib r sync) w.manager refl h.managed;
    };
  }

  starts :
      {E : Type 0}
      → Keeps (Manages Q {C = C}) (start_remote_watches_if_not_watching lib {E = E} sync)
  unfolding start_remote_watches_if_not_watching
  starts = search (keeps_rules, own_start)

  stops :
      {E : Type 0} → Keeps (Manages Q {C = C}) (stop_remote_watches_if_watching lib {E = E} sync)
  unfolding stop_remote_watches_if_watching
  stops = search (keeps_rules, own_stop)

  ordinary : Ordinary lib server sync (Manages Q)
  ordinary = record {
    secrets = λ c ns n. sends (get_secret c ns n);
    versions = λ c. sends (apiserver_version c);
    kinds = λ c gvk. sends (pinned_kind c gvk);
    gets = λ a n. sends (get a n);
    statuses = λ a n. sends (get_status a n);
    reports = λ a n s. sends (patch_status a n s);
    starts = starts;
    stops = stops;
  }

  release :
      (name : String) (parent : ParentApi C)
      → Keeps
          (Manages Q)
          (stop_watches_and_remove_resource_sync_finalizers lib net server sync name parent)
  unfolding stop_watches_and_remove_resource_sync_finalizers
  release name parent = search (keeps_rules, sends, stops) depth 30

  delete :
      (name : String) (target : NamespacedApi C) (parent : ParentApi C)
      (found : Result KubeError DynamicObject)
      → Keeps (Manages Q) (delete_target lib net server sync name target parent found)
  unfolding delete_target
  delete name target parent (ok found) = search (keeps_rules, sends, starts) depth 30
  delete name target parent (err (api code text)) = search (keeps_rules, release) depth 30
  delete name target parent (err (other text)) = search keeps_rules
  delete name target parent panic = search keeps_rules

  reconcile_deleted :
      (name : String) (target : NamespacedApi C) (parent : ParentApi C)
      → Keeps (Manages Q) (reconcile_deleted_resource lib net server sync name target parent)
  unfolding reconcile_deleted_resource
  reconcile_deleted name target parent = search (keeps_rules, sends, release, delete) depth 30

  guard :
      (name : String) (parent : ParentApi C)
      → Keeps (Manages Q) (add_target_finalizer lib net server sync name parent)
  unfolding add_target_finalizer
  guard name parent = search (keeps_rules, sends) depth 30

  normally :
      (name : String) (source target : NamespacedApi C)
      → Keeps (Manages Q) (reconcile_normally lib net server sync name source target)
  unfolding reconcile_normally
  normally name source target = search (keeps_rules, sends, starts) depth 30

  -- A reconciliation keeps what its own starts and stops keep.
  pub reconcile-Manages : (c : C) → Keeps (Manages Q) (reconcile lib net server sync c)
  reconcile-Manages c =
      reconcile-Keeps lib net server sync ordinary (λ _. reconcile_deleted) (λ _ _. release)
        (λ _. guard) (λ _ _. normally) c
