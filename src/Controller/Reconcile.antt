-- ===== src/Controller/Reconcile.antt =====
-- The handlers of src/controller.rs, each as a sequence of requests and watcher changes.
use mathlib.Core.Option
use sinker.Prelude.{
  String, true, false, not, ◌||◌, Option, none, some, List, [], ◌∷◌, ◌++◌, nat_eq, ◌==◌,
  if◌then◌else◌, ◌&&◌,
}
use sinker.Result.{Result, ok, err, panic, ok_or, is_err}
use sinker.Error.{
  Error, kube_error, name_required, uid_required, namespace_required, resource_not_found_error,
}
use sinker.Kube.{DynamicObject, OwnerReference, KubeError, api, Action, await_change, ApiResource}
use sinker.Kube.Libraries.{Libraries}
use sinker.Resources.{
  ResourceSync, ResourceSyncStatus, ClusterRef, Mapping, Gvkn, has_force_delete_option_enabled,
  has_disable_target_deletion_option_enabled,
}
use sinker.Util.{with_item_removed, with_push, requeue_after}
use sinker.Mapping.{clone_resource, apply_mappings}
use sinker.Server.{
  NamespacedApi, ParentApi, Propagation, background, foreground, Server, get, delete, apply,
  patch_finalizers, get_status, patch_status,
}
use sinker.Exec.{Exec, pure, raise, lift, try, convert, send, clock, ◌>>=◌, ◌>>◌}
use sinker.ResourceExtensions.{
  Connections, finalizer, is_some, has_been_deleted, has_target_finalizer,
  finalizers_clone_or_empty, parent_api, start_remote_watches_if_not_watching,
  stop_remote_watches_if_watching,
}
use sinker.ResourceExtensions.Api.{api_for}
use sinker.Controller.{sync_group, sync_api_version, sync_kind, reconcile_status}

-- A target that has finalizers is deleted in the background, any other in the foreground.
unfoldable pub delete_type : Option (List String) → Propagation
delete_type (some (f ∷ fs)) = background
delete_type _ = foreground

-- `owner_references_mut().push(...)`
unfoldable pub push_owner_reference : OwnerReference → DynamicObject → DynamicObject
push_owner_reference owner target = record target {
  metadata = record target.metadata {
    owner_references = some (Option.get_or target.metadata.owner_references [] ++ owner ∷ []);
  };
}

unfoldable pub owner_reference : String → String → OwnerReference
owner_reference name uid = record {
  api_version = sync_api_version;
  kind = sync_kind;
  name = name;
  uid = uid;
  controller = some false;
  block_owner_deletion = some true;
}

-- A target without a cluster reference is owned by the ResourceSync, whose uid is then required.
unfoldable pub own_local_target :
    ResourceSync → String → Option ClusterRef → DynamicObject → Result Error DynamicObject
unfolding push_owner_reference owner_reference
own_local_target sync name (some _) target = ok target
own_local_target sync name none target = elim (ok_or {E = Error} sync.metadata.uid uid_required) [
  | ok uid ↦ ok (push_owner_reference (owner_reference name uid) target)
  | err e ↦ err e
  | panic ↦ panic
]

module _ (lib : Libraries) where
  -- The copy of the source, or what the mappings make of it.
  abbrev pub copy_source :
      DynamicObject
      → Gvkn
      → Option String
      → ApiResource
      → ResourceSync
      → List Mapping
      → Result Error DynamicObject
  copy_source source target_ref ns ar sync [] = clone_resource lib source target_ref ns ar
  copy_source source target_ref ns ar sync (_ ∷ _) = apply_mappings lib source target_ref ns ar sync

  unfoldable pub target_for :
      {C : Type 0} → ResourceSync → NamespacedApi C → DynamicObject → Result Error DynamicObject
  target_for sync target_api source =
      copy_source source sync.spec.target.resource_ref target_api.namespace target_api.ar sync
        sync.spec.mappings

module _ {C K G : Type 0} (lib : Libraries) (net : Connections C K G) (server : Server C) where
  unfoldable pub stop_watches_and_remove_resource_sync_finalizers :
      ResourceSync → String → ParentApi C → Exec C Error Action
  stop_watches_and_remove_resource_sync_finalizers sync name parent = do
    stop_remote_watches_if_watching lib sync
    let patched_finalizers =
        with_item_removed (λ a b. a == b) finalizer (finalizers_clone_or_empty sync)
    convert kube_error (send server (patch_finalizers parent name patched_finalizers))
    pure await_change

  -- The `match` on the target that `reconcile_deleted_resource` reads.
  unfoldable pub delete_target :
      ResourceSync
      → String
      → NamespacedApi C
      → ParentApi C
      → Result KubeError DynamicObject
      → Exec C Error Action
  delete_target sync name target_api parent (ok target) =
      if is_some target.metadata.deletion_timestamp
      then (do start_remote_watches_if_not_watching lib sync; pure await_change)
      else do
        convert kube_error (
            send server (
              delete target_api sync.spec.target.resource_ref.name
                (delete_type target.metadata.finalizers)))
        start_remote_watches_if_not_watching lib sync
        pure await_change
  delete_target sync name target_api parent (err (api code text)) =
      if nat_eq code 404
      then stop_watches_and_remove_resource_sync_finalizers sync name parent
      else raise (kube_error (api code text))
  delete_target sync name target_api parent (err e) = raise (kube_error e)
  delete_target sync name target_api parent panic = lift panic

  unfoldable pub reconcile_deleted_resource :
      ResourceSync → String → NamespacedApi C → ParentApi C → Exec C Error Action
  reconcile_deleted_resource sync name target_api parent =
      if not (has_target_finalizer sync)
      then pure await_change
      else if has_disable_target_deletion_option_enabled sync
      then stop_watches_and_remove_resource_sync_finalizers sync name parent
      else do
        found ← try (send server (get target_api sync.spec.target.resource_ref.name))
        delete_target sync name target_api parent found

  unfoldable pub add_target_finalizer : ResourceSync → String → ParentApi C → Exec C Error Action
  add_target_finalizer sync name parent = do
    let patched_finalizers = with_push (finalizers_clone_or_empty sync) finalizer
    convert kube_error (send server (patch_finalizers parent name patched_finalizers))
    lift (requeue_after 500)

  unfoldable pub reconcile_normally :
      ResourceSync → String → NamespacedApi C → NamespacedApi C → Exec C Error Action
  reconcile_normally sync name source_api target_api = do
    let source_name = sync.spec.source.resource_ref.name
    source ←
        convert (resource_not_found_error source_name source_api.ar.kind)
          (send server (get source_api source_name))
    copied ← lift (target_for lib sync target_api source)
    target ← lift (own_local_target sync name sync.spec.target.cluster copied)
    convert kube_error
        (send server (apply target_api sync.spec.target.resource_ref.name sync_group true target))
    start_remote_watches_if_not_watching lib sync
    pure await_change

  -- The target's API comes first, then the source's.
  unfoldable pub source_and_target_apis :
      ResourceSync → C → String → Exec C Error (NamespacedApi C × NamespacedApi C)
  source_and_target_apis sync client local_ns = do
    target_api ← api_for lib net server sync.spec.target local_ns client
    source_api ← api_for lib net server sync.spec.source local_ns client
    pure (source_api, target_api)

  -- The two `match`es of `reconcile_helper`.
  unfoldable pub reconcile_with :
      ResourceSync
      → String
      → ParentApi C
      → Result Error (NamespacedApi C × NamespacedApi C)
      → Exec C Error Action
  reconcile_with sync name parent (ok (source_api, target_api)) =
      if has_been_deleted sync
      then reconcile_deleted_resource sync name target_api parent
      else if not (has_target_finalizer sync)
      then add_target_finalizer sync name parent
      else reconcile_normally sync name source_api target_api
  reconcile_with sync name parent (err e) =
      if has_force_delete_option_enabled sync && has_been_deleted sync
      then stop_watches_and_remove_resource_sync_finalizers sync name parent
      else raise e
  reconcile_with sync name parent panic = lift panic

  unfoldable pub reconcile_helper : ResourceSync → C → String → ParentApi C → Exec C Error Action
  reconcile_helper sync client name parent = do
    local_ns ← lift (ok_or sync.metadata.namespace namespace_required)
    apis ← try (source_and_target_apis sync client local_ns)
    reconcile_with sync name parent apis

  -- The live status, read only where a status will be written.
  unfoldable pub live_status :
      ResourceSync
      → String
      → ParentApi C
      → Result Error Action
      → Exec C Error (Option ResourceSyncStatus)
  live_status sync name parent result =
      if is_err result || not (has_been_deleted sync)
      then convert kube_error (send server (get_status parent name))
      else pure none

  abbrev pub write_status :
      ParentApi C → String → Option ResourceSyncStatus → Exec C Error (Unit {0})
  write_status parent name none = pure tt
  write_status parent name (some status) =
      convert kube_error (send server (patch_status parent name status))

  unfoldable pub reconcile : ResourceSync → C → Exec C Error Action
  reconcile sync client = do
    name ← lift (ok_or sync.metadata.name name_required)
    let parent = parent_api sync client
    result ← try (reconcile_helper sync client name parent)
    live ← live_status sync name parent result
    now ← clock server
    write_status parent name (reconcile_status lib now sync live result)
    lift result
