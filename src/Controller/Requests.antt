-- ===== src/Controller/Requests.antt =====
-- Which requests a reconciliation of src/controller.rs sends, whatever the servers answer.

use sinker.Prelude.{◌≡◌, refl, String, Bool, true, false, not}
use sinker.Result.{Result, ok, err, panic}
use sinker.Kube.{KubeError, api, other, DynamicObject}
use sinker.Kube.Libraries.{Libraries}
use sinker.Resources.{ResourceSync}
use sinker.Server.{
  get, Request, get_secret, apiserver_version, pinned_kind, delete, apply, patch_finalizers,
  get_status, patch_status, Server, NamespacedApi, ParentApi,
}
use sinker.Exec.Sends.{Sends, Sent, Sends-send, sends_rules}
use sinker.ResourceExtensions.{
  Connections, finalizer, contains, has_been_deleted, has_target_finalizer,
  start_remote_watches_if_not_watching, stop_remote_watches_if_watching,
}
use sinker.Controller.Reconcile.{
  stop_watches_and_remove_resource_sync_finalizers, delete_target, reconcile_deleted_resource,
  add_target_finalizer, reconcile_normally, reconcile,
}
use sinker.ResourceExtensions.Finalizers.{without_ours, with_ours, removed, pushed}
use sinker.Controller.Rules.{Ordinary, reconcile-Keeps}

-- What may be sent for a sync that is not being deleted: no deletion of a target, and a list of
-- finalizers only with ours in it.
abbrev pub while_active : {C : Type 0} → Request C → Bool
while_active (delete _ _ _) = false
while_active (patch_finalizers _ _ finalizers) = contains finalizer finalizers
while_active _ = true

-- What may be sent for a sync that is being deleted: no write of a target's content, and a list of
-- finalizers only without ours.
abbrev pub while_deleting : {C : Type 0} → Request C → Bool
while_deleting (apply _ _ _ _ _) = false
while_deleting (patch_finalizers _ _ finalizers) = not (contains finalizer finalizers)
while_deleting _ = true

-- What may be sent where our finalizer is missing: no write and no deletion of a target.
abbrev pub leaves_targets : {C : Type 0} → Request C → Bool
leaves_targets (apply _ _ _ _ _) = false
leaves_targets (delete _ _ _) = false
leaves_targets _ = true

module _ {C K G : Type 0} (lib : Libraries) (net : Connections C K G) (server : Server C) where
  module _ (p : Request C → Bool) (sync : ResourceSync) where
    start-Sends :
        {E : Type 0} → Sends p (start_remote_watches_if_not_watching lib {C = C} {E = E} sync)
    unfolding start_remote_watches_if_not_watching
    start-Sends = search sends_rules

    stop-Sends : {E : Type 0} → Sends p (stop_remote_watches_if_watching lib {C = C} {E = E} sync)
    unfolding stop_remote_watches_if_watching
    stop-Sends = search sends_rules

  -- The two tests, and any other that tells only deletions, applications and finalizers apart, pass the
  -- other requests.
  abbrev pub Tells : (Request C → Bool) → Type 0
  Tells p =
      ((c : C) (ns n : String) → p (get_secret c ns n) ≡ true)
      × ((c : C) → p (apiserver_version c) ≡ true)
      × ((c : C) (gvk : _) → p (pinned_kind c gvk) ≡ true)
      × ((a : NamespacedApi C) (n : String) → p (get a n) ≡ true)
      × ((a : ParentApi C) (n : String) → p (get_status a n) ≡ true)
      × ((a : ParentApi C) (n : String) (s : _) → p (patch_status a n s) ≡ true)

  pub ordinary :
      (p : Request C → Bool) (sync : ResourceSync) → Tells p → Ordinary lib server sync (Sent p)
  ordinary p sync (secrets, versions, kinds, gets, statuses, reports) = record {
    secrets = λ c ns n. Sends-send server (get_secret c ns n) (secrets c ns n);
    versions = λ c. Sends-send server (apiserver_version c) (versions c);
    kinds = λ c gvk. Sends-send server (pinned_kind c gvk) (kinds c gvk);
    gets = λ a n. Sends-send server (get a n) (gets a n);
    statuses = λ a n. Sends-send server (get_status a n) (statuses a n);
    reports = λ a n s. Sends-send server (patch_status a n s) (reports a n s);
    starts = start-Sends p sync;
    stops = stop-Sends p sync;
  }

  module _ (sync : ResourceSync) where
    stop_and_remove-Sends :
        (p : Request C → Bool)
        → ((a : ParentApi C) (n : String) → p (patch_finalizers a n (without_ours sync)) ≡ true)
        → (name : String) (parent : ParentApi C)
        → Sends p (stop_watches_and_remove_resource_sync_finalizers lib net server sync name parent)
    unfolding stop_watches_and_remove_resource_sync_finalizers
    stop_and_remove-Sends p patches name parent =
        search (sends_rules, stop-Sends p sync, patches) depth 30

    stop_and_remove-deleting :
        (name : String) (parent : ParentApi C)
        → Sends while_deleting
            (stop_watches_and_remove_resource_sync_finalizers lib net server sync name parent)
    stop_and_remove-deleting = stop_and_remove-Sends while_deleting (λ _ _. removed sync)

    delete_target-deleting :
        (name : String) (target : NamespacedApi C) (parent : ParentApi C)
        (found : Result KubeError DynamicObject)
        → Sends while_deleting (delete_target lib net server sync name target parent found)
    unfolding delete_target
    delete_target-deleting name target parent (ok found) =
        search (sends_rules, start-Sends while_deleting sync) depth 30
    delete_target-deleting name target parent (err (api code text)) =
        search (sends_rules, stop_and_remove-deleting) depth 30
    delete_target-deleting name target parent (err (other text)) = search sends_rules
    delete_target-deleting name target parent panic = search sends_rules

    reconcile_deleted-deleting :
        (name : String) (target : NamespacedApi C) (parent : ParentApi C)
        → Sends while_deleting (reconcile_deleted_resource lib net server sync name target parent)
    unfolding reconcile_deleted_resource
    reconcile_deleted-deleting name target parent =
        search (sends_rules, stop_and_remove-deleting, delete_target-deleting) depth 30

    add_target_finalizer-Sends :
        (p : Request C → Bool)
        → ((a : ParentApi C) (n : String) → p (patch_finalizers a n (with_ours sync)) ≡ true)
        → (name : String) (parent : ParentApi C)
        → Sends p (add_target_finalizer lib net server sync name parent)
    unfolding add_target_finalizer
    add_target_finalizer-Sends p patches name parent = search (sends_rules, patches) depth 30

    reconcile_normally-Sends :
        (p : Request C → Bool)
        → ((a : NamespacedApi C) (n m : String) (f : Bool) (o : DynamicObject)
            → p (apply a n m f o) ≡ true)
        → ((a : NamespacedApi C) (n : String) → p (get a n) ≡ true)
        → (name : String) (source target : NamespacedApi C)
        → Sends p (reconcile_normally lib net server sync name source target)
    unfolding reconcile_normally
    reconcile_normally-Sends p applies gets name source target =
        search (sends_rules, applies, gets, start-Sends p sync) depth 30

    -- Whatever the servers answer, reconciling a sync that is not being deleted adds no deletion of a
    -- target to the requests, and no list of finalizers without ours.
    pub reconcile-active :
        (c : C)
        → has_been_deleted sync ≡ false
        → Sends while_active (reconcile lib net server sync c)
    reconcile-active c d =
        reconcile-Keeps lib net server sync (ordinary while_active sync passes) (λ e. cc (d, e))
          (λ e. cc (d, e)) (λ _. add_target_finalizer-Sends while_active (λ _ _. pushed sync))
          (λ _ _. reconcile_normally-Sends while_active (λ _ _ _ _ _. refl) (λ _ _. refl)) c
      where
        passes : Tells while_active
        passes = (λ _ _ _. refl, λ _. refl, λ _ _. refl, λ _ _. refl, λ _ _. refl, λ _ _ _. refl)

    -- Whatever the servers answer, reconciling a sync that is being deleted adds no write of a
    -- target's content to the requests, and no list of finalizers with ours.
    pub reconcile-deleting :
        (c : C)
        → has_been_deleted sync ≡ true
        → Sends while_deleting (reconcile lib net server sync c)
    reconcile-deleting c d =
        reconcile-Keeps lib net server sync (ordinary while_deleting sync passes)
          (λ _. reconcile_deleted-deleting) (λ _ _. stop_and_remove-deleting) (λ e. cc (d, e))
          (λ e. cc (d, e)) c
      where
        passes : Tells while_deleting
        passes = (λ _ _ _. refl, λ _. refl, λ _ _. refl, λ _ _. refl, λ _ _. refl, λ _ _ _. refl)

    -- Whatever the servers answer, reconciling a sync without our finalizer adds no write of a target
    -- to the requests, and no deletion of one.
    pub reconcile-unguarded :
        (c : C)
        → has_target_finalizer sync ≡ false
        → Sends leaves_targets (reconcile lib net server sync c)
    unfolding reconcile_deleted_resource
    reconcile-unguarded c f =
        reconcile-Keeps lib net server sync (ordinary leaves_targets sync passes)
          (λ _. reconcile_deleted-unguarded)
          (λ _ _. stop_and_remove-Sends leaves_targets (λ _ _. refl))
          (λ _. add_target_finalizer-Sends leaves_targets (λ _ _. refl)) (λ _ e. cc (f, e)) c
      where
        passes : Tells leaves_targets
        passes = (λ _ _ _. refl, λ _. refl, λ _ _. refl, λ _ _. refl, λ _ _. refl, λ _ _ _. refl)

        reconcile_deleted-unguarded :
            (name : String) (target : NamespacedApi C) (parent : ParentApi C)
            → Sends leaves_targets
                (reconcile_deleted_resource lib net server sync name target parent)
        reconcile_deleted-unguarded name target parent =
            rw (f, reconcile_deleted_resource) (search sends_rules)
