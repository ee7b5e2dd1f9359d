-- ===== src/Controller/Rules.antt =====
-- What an invariant of the world needs of the parts of a reconciliation of src/controller.rs to be kept
-- by all of it.
use mathlib.Core.Bool.{and-eq-true_iff}
use sinker.Prelude.{◌≡◌, refl, String, Bool, true, false, not, ◌&&◌, ◌||◌, Option, none, some}
use sinker.Result.{Result, ok, err, panic, is_err}
use sinker.Error.{Error, kube_error, namespace_required}
use sinker.Kube.{Action}
use sinker.Kube.Libraries.{Libraries}
use sinker.Resources.{
  ResourceSync, ResourceSyncStatus, ClusterRef, ClusterResourceRef, has_force_delete_option_enabled,
}
use sinker.Server.{
  get_secret, apiserver_version, pinned_kind, get, get_status, patch_status, Server, World,
  NamespacedApi, ParentApi,
}
use sinker.Exec.{send}
use sinker.Exec.Keeps.{Keeps, Keeps-if, Keeps-pure, Keeps-convert, keeps_rules}
use sinker.Exec.Ensures.{
  Ensures, Any, Yields, Yields-ok_or, Ensures-lift, Ensures-bind, Ensures-try, Ensures-Keeps,
  Ensures-value, Keeps-Ensures,
}
use sinker.ResourceExtensions.{
  Connections, has_been_deleted, has_target_finalizer, start_remote_watches_if_not_watching,
  stop_remote_watches_if_watching,
}
use sinker.ResourceExtensions.Api.{connect, cluster_client, api_for}
use sinker.Controller.Reconcile.{
  stop_watches_and_remove_resource_sync_finalizers, reconcile_deleted_resource,
  add_target_finalizer, reconcile_normally, source_and_target_apis, reconcile_with,
  reconcile_helper, live_status, reconcile, write_status,
}

-- The reads, the writes of the status, and the changes of the watches keep the invariant.
pub record Ordinary {C : Type 0} (lib : Libraries) (server : Server C) (sync : ResourceSync)
    (P : World C → Type 0) : Type 0 where
  pub secrets : (c : C) (ns name : String) → Keeps P (send server (get_secret c ns name))
  pub versions : (c : C) → Keeps P (send server (apiserver_version c))
  pub kinds : (c : C) (gvk : _) → Keeps P (send server (pinned_kind c gvk))
  pub gets : (a : NamespacedApi C) (name : String) → Keeps P (send server (get a name))
  pub statuses :
      (parent : ParentApi C) (name : String) → Keeps P (send server (get_status parent name))
  pub reports :
      (parent : ParentApi C) (name : String) (status : ResourceSyncStatus)
      → Keeps P (send server (patch_status parent name status))
  pub starts : Keeps P (start_remote_watches_if_not_watching lib {E = Error} sync)
  pub stops : Keeps P (stop_remote_watches_if_watching lib {E = Error} sync)

module _ {C K G : Type 0} (lib : Libraries) (net : Connections C K G) (server : Server C)
    (sync : ResourceSync) {P : World C → Type 0} (ordinary : Ordinary lib server sync P) where
  connect-Keeps :
      (r : ClusterRef) (ns : String) (sec : _) → Keeps P (connect lib net server r ns sec)
  unfolding connect
  connect-Keeps r ns sec = search (keeps_rules, ordinary.versions) depth 30

  cluster_client-Keeps :
      (r : Option ClusterRef) (ns : String) (c : C) → Keeps P (cluster_client lib net server r ns c)
  unfolding cluster_client
  cluster_client-Keeps none ns c = search keeps_rules
  cluster_client-Keeps (some r) ns c =
      search (keeps_rules, ordinary.secrets, connect-Keeps) depth 30

  api_for-Keeps :
      (r : ClusterResourceRef) (ns : String) (c : C) → Keeps P (api_for lib net server r ns c)
  unfolding api_for
  api_for-Keeps r ns c = search (keeps_rules, ordinary.kinds, cluster_client-Keeps) depth 30

  pub apis-Keeps : (c : C) (ns : String) → Keeps P (source_and_target_apis lib net server sync c ns)
  unfolding source_and_target_apis
  apis-Keeps c ns = search (keeps_rules, api_for-Keeps) depth 30

  pub live_status-Keeps :
      (name : String) (parent : ParentApi C) (result : Result Error Action)
      → Keeps P (live_status lib net server sync name parent result)
  unfolding live_status
  live_status-Keeps name parent result =
      Keeps-if (is_err result || not (has_been_deleted sync)) _ _
        (λ _. Keeps-convert kube_error _ (ordinary.statuses parent name)) (λ _. Keeps-pure none)

  pub write_status-Keeps :
      (parent : ParentApi C) (name : String) (status : Option ResourceSyncStatus)
      → Keeps P (write_status lib net server parent name status)
  write_status-Keeps parent name none = search keeps_rules
  write_status-Keeps parent name (some status) =
      Keeps-convert kube_error _ (ordinary.reports parent name status)

  -- A reconciliation keeps the invariant if each handler does where it is called, with APIs to which the
  -- two references lead.
  module _ (R : NamespacedApi C × NamespacedApi C → Type 0) (c : C)
      (resolves : (ns : String)
        → sync.metadata.namespace ≡ some ns
        → Ensures (λ _. Unit {0}) R (source_and_target_apis lib net server sync c ns))
      (deletes : has_been_deleted sync ≡ true
        → (name : String) (source target : NamespacedApi C) (parent : ParentApi C)
        → R (source, target)
        → Keeps P (reconcile_deleted_resource lib net server sync name target parent))
      (releases : has_been_deleted sync ≡ true
        → has_force_delete_option_enabled sync ≡ true
        → (name : String) (parent : ParentApi C)
        → Keeps P
            (stop_watches_and_remove_resource_sync_finalizers lib net server sync name parent))
      (guards : has_been_deleted sync ≡ false
        → (name : String) (parent : ParentApi C)
        → Keeps P (add_target_finalizer lib net server sync name parent))
      (applies : has_been_deleted sync ≡ false
        → has_target_finalizer sync ≡ true
        → (name : String) (source target : NamespacedApi C) → R (source, target)
        → Keeps P (reconcile_normally lib net server sync name source target)) where
    reconcile_with-Keeps :
        (name : String) (parent : ParentApi C)
        (apis : Result Error (NamespacedApi C × NamespacedApi C))
        → Yields R apis
        → Keeps P (reconcile_with lib net server sync name parent apis)
    unfolding reconcile_with
    reconcile_with-Keeps name parent (ok (source, target)) led =
        Keeps-if (has_been_deleted sync) _ _ (λ d. deletes d name source target parent led)
          (λ d.
            Keeps-if (not (has_target_finalizer sync)) _ _ (λ _. guards d name parent)
              (λ f. applies d (not_false f) name source target led))
      where
        not_false : {b : Bool} → not b ≡ false → b ≡ true
        not_false {b = true} e = refl
        not_false {b = false} e = cc
    reconcile_with-Keeps name parent (err e) led =
        Keeps-if (has_force_delete_option_enabled sync && has_been_deleted sync) _ _
          (λ both.
            let (f, d) =
              (and-eq-true_iff (has_force_delete_option_enabled sync) (has_been_deleted sync)).0
                both in
            releases d f name parent)
          (λ _. search keeps_rules)
    reconcile_with-Keeps name parent panic led = search keeps_rules

    helper-Keeps :
        (name : String) (parent : ParentApi C)
        → Keeps P (reconcile_helper lib net server sync c name parent)
    unfolding reconcile_helper
    helper-Keeps name parent = Ensures-Keeps _ (
        Ensures-bind (λ ns. sync.metadata.namespace ≡ some ns) _ _
          (Ensures-lift _ (Yields-ok_or sync.metadata.namespace namespace_required))
          λ ns here.
            Ensures-bind (Yields R) _ _
              (Ensures-try _ (Ensures-value _ (apis-Keeps c ns) (resolves ns here)))
              λ apis led. Keeps-Ensures _ (reconcile_with-Keeps name parent apis led))

    pub reconcile-Led : Keeps P (reconcile lib net server sync c)
    unfolding reconcile
    reconcile-Led =
        search (keeps_rules, helper-Keeps, live_status-Keeps, write_status-Keeps) depth 40

  -- The same, with any APIs.
  module _
      (deletes : has_been_deleted sync ≡ true
        → (name : String) (target : NamespacedApi C) (parent : ParentApi C)
        → Keeps P (reconcile_deleted_resource lib net server sync name target parent))
      (releases : has_been_deleted sync ≡ true
        → has_force_delete_option_enabled sync ≡ true
        → (name : String) (parent : ParentApi C)
        → Keeps P
            (stop_watches_and_remove_resource_sync_finalizers lib net server sync name parent))
      (guards : has_been_deleted sync ≡ false
        → (name : String) (parent : ParentApi C)
        → Keeps P (add_target_finalizer lib net server sync name parent))
      (applies : has_been_deleted sync ≡ false
        → has_target_finalizer sync ≡ true
        → (name : String) (source target : NamespacedApi C)
        → Keeps P (reconcile_normally lib net server sync name source target)) where
    pub reconcile-Keeps : (c : C) → Keeps P (reconcile lib net server sync c)
    reconcile-Keeps c =
        reconcile-Led Any c (λ ns here. Keeps-Ensures _ (record { at = λ w h. tt }))
          (λ d name source target parent led. deletes d name target parent) releases guards
          (λ d f name source target led. applies d f name source target)
