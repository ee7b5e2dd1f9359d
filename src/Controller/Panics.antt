-- ===== src/Controller/Panics.antt =====
-- Where a reconciliation of src/controller.rs cannot panic: the panics of the program are in the
-- conversion of an inner resource's metadata and in the use of a Secret without data.
use sinker.Prelude.{
  ◌≡◌, refl, String, true, not, ◌||◌, Option, none, some, List, [], ◌∷◌, Option-cases, inl, inr,
}
use sinker.Result.{Result, ok, err, panic, is_err}
use sinker.Error.{Error, kube_error}
use sinker.Kube.{KubeError, api, other, DynamicObject, Action, TypeMeta}
use sinker.Kube.Libraries.{Libraries}
use sinker.Resources.{
  ResourceSync, ResourceSyncStatus, ClusterRef, ClusterResourceRef, Mapping, group_version_kind,
}
use sinker.Mapping.{clone_resource}
use sinker.Server.{Server, NamespacedApi, ParentApi, get_status, patch_status}
use sinker.Exec.Calm.{
  returns, Calm, IsCalm, Calm-bind, Calm-pure, Calm-if, Calm-convert, Calm-send, Calm-lift,
  returns-map_err, calm_rules,
}
use sinker.ResourceExtensions.{
  Connections, has_been_deleted, start_remote_watches_if_not_watching,
  stop_remote_watches_if_watching,
}
use sinker.ResourceExtensions.Api.{cluster_client, api_for}
use sinker.Controller.Reconcile.{
  stop_watches_and_remove_resource_sync_finalizers, delete_target, reconcile_deleted_resource,
  add_target_finalizer, reconcile_normally, source_and_target_apis, reconcile_with, copy_source,
  target_for, own_local_target, reconcile_helper, live_status, reconcile, write_status,
}

module _ {C K G : Type 0} (lib : Libraries) (net : Connections C K G) (server : Server C)
    (answers : IsCalm server) (parses : (t : TypeMeta) → returns (lib.parse_gvk t) ≡ true) where
  cluster_client-Calm :
      (r : Option ClusterRef) (ns : String) (c : C)
      → r ≡ none
      → Calm (cluster_client lib net server r ns c)
  unfolding cluster_client
  cluster_client-Calm none ns c e = Calm-pure c
  cluster_client-Calm (some r) ns c e = cc e

  api_for-Calm :
      (r : ClusterResourceRef) (ns : String) (c : C)
      → r.cluster ≡ none
      → Calm (api_for lib net server r ns c)
  unfolding api_for group_version_kind
  api_for-Calm r ns c here = Calm-bind _ _ (cluster_client-Calm r.cluster ns c here) (λ client.
      Calm-bind _ _ (Calm-lift _ (returns-map_err _ _ (parses _)))
        (λ gvk. search (calm_rules, answers) depth 30))

  module _ (sync : ResourceSync) where
    start-Calm : {E : Type 0} → Calm {C = C} (start_remote_watches_if_not_watching lib {E = E} sync)
    unfolding start_remote_watches_if_not_watching
    start-Calm = search calm_rules

    stop-Calm : {E : Type 0} → Calm {C = C} (stop_remote_watches_if_watching lib {E = E} sync)
    unfolding stop_remote_watches_if_watching
    stop-Calm = search calm_rules

    release-Calm :
        (name : String) (parent : ParentApi C)
        → Calm (stop_watches_and_remove_resource_sync_finalizers lib net server sync name parent)
    unfolding stop_watches_and_remove_resource_sync_finalizers
    release-Calm name parent = search (calm_rules, stop-Calm, answers) depth 30

    -- The answer to the read of the target is no panic.
    delete_target-Calm :
        (name : String) (target : NamespacedApi C) (parent : ParentApi C)
        (found : Result KubeError DynamicObject)
        → returns found ≡ true
        → Calm (delete_target lib net server sync name target parent found)
    unfolding delete_target
    delete_target-Calm name target parent (ok found) h =
        search (calm_rules, start-Calm, answers) depth 30
    delete_target-Calm name target parent (err (api code text)) h =
        search (calm_rules, release-Calm) depth 30
    delete_target-Calm name target parent (err (other text)) h = search calm_rules
    delete_target-Calm name target parent panic h = cc

    deleted-Calm :
        (name : String) (target : NamespacedApi C) (parent : ParentApi C)
        → Calm (reconcile_deleted_resource lib net server sync name target parent)
    unfolding reconcile_deleted_resource
    deleted-Calm name target parent =
        search (calm_rules, release-Calm, delete_target-Calm, answers) depth 30

    guard-Calm :
        (name : String) (parent : ParentApi C)
        → Calm (add_target_finalizer lib net server sync name parent)
    unfolding add_target_finalizer
    guard-Calm name parent = search (calm_rules, answers) depth 30

    copy_source-returns :
        (target : NamespacedApi C) (source : DynamicObject) (ms : List Mapping)
        → ms ≡ []
        → returns (
            copy_source lib source sync.spec.target.resource_ref target.namespace target.ar sync ms)
          ≡ true
    unfolding clone_resource
    copy_source-returns target source [] e = refl
    copy_source-returns target source (m ∷ ms) e = cc e

    target_for-returns :
        (target : NamespacedApi C) (source : DynamicObject)
        → sync.spec.mappings ≡ []
        → returns (target_for lib sync target source) ≡ true
    unfolding target_for
    target_for-returns target source = copy_source-returns target source sync.spec.mappings

    own_local_target-returns :
        (name : String) (r : Option ClusterRef) (target : DynamicObject)
        → returns (own_local_target sync name r target) ≡ true
    unfolding own_local_target
    own_local_target-returns name (some r) target = refl
    own_local_target-returns name none target = elim (Option-cases sync.metadata.uid) [
      | inl missing ↦ rw (missing, own_local_target) refl
      | inr (uid, known) ↦ rw (known, own_local_target) refl
    ]

    normally-Calm :
        (name : String) (source target : NamespacedApi C)
        → sync.spec.mappings ≡ []
        → Calm (reconcile_normally lib net server sync name source target)
    unfolding reconcile_normally
    normally-Calm name source target plain =
        search (calm_rules, start-Calm, answers, own_local_target-returns, target_for-returns) depth
          30

    module _ (plain : sync.spec.mappings ≡ []) (near : sync.spec.source.cluster ≡ none)
        (here : sync.spec.target.cluster ≡ none) where
      apis-Calm : (c : C) (ns : String) → Calm (source_and_target_apis lib net server sync c ns)
      unfolding source_and_target_apis
      apis-Calm c ns =
          Calm-bind _ _ (api_for-Calm sync.spec.target ns c here)
            (λ _. Calm-bind _ _ (api_for-Calm sync.spec.source ns c near) (λ _. Calm-pure _))

      reconcile_with-Calm :
          (name : String) (parent : ParentApi C)
          (apis : Result Error (NamespacedApi C × NamespacedApi C))
          → returns apis ≡ true
          → Calm (reconcile_with lib net server sync name parent apis)
      unfolding reconcile_with
      reconcile_with-Calm name parent (ok (source, target)) h =
          search (calm_rules, deleted-Calm, guard-Calm, normally-Calm) depth 30
      reconcile_with-Calm name parent (err e) h = search (calm_rules, release-Calm) depth 30
      reconcile_with-Calm name parent panic h = cc

      helper-Calm :
          (c : C) (name : String) (parent : ParentApi C)
          → Calm (reconcile_helper lib net server sync c name parent)
      unfolding reconcile_helper
      helper-Calm c name parent = search (calm_rules, apis-Calm, reconcile_with-Calm) depth 30

      live_status-Calm :
          (name : String) (parent : ParentApi C) (result : Result Error Action)
          → Calm (live_status lib net server sync name parent result)
      unfolding live_status
      live_status-Calm name parent result =
          Calm-if (is_err result || not (has_been_deleted sync)) _ _
            (Calm-convert kube_error _ (Calm-send server (get_status parent name) answers))
            (Calm-pure none)

      write_status-Calm :
          (parent : ParentApi C) (name : String) (status : Option ResourceSyncStatus)
          → Calm (write_status lib net server parent name status)
      write_status-Calm parent name none = Calm-pure tt
      write_status-Calm parent name (some status) =
          Calm-convert kube_error _ (Calm-send server (patch_status parent name status) answers)

      -- Where neither the servers nor the parsing of a type panic, a reconciliation of a sync without
      -- mappings whose ends are both in the local cluster does not panic.
      pub reconcile-Calm : (c : C) → Calm (reconcile lib net server sync c)
      unfolding reconcile
      reconcile-Calm c =
          search (calm_rules, helper-Calm, live_status-Calm, write_status-Calm) depth 40
