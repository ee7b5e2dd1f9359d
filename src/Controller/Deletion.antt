-- ===== src/Controller/Deletion.antt =====
-- The deletion of a target in src/controller.rs: when our finalizer is given up.

use sinker.Prelude.{
  ◌≡◌, refl, String, Bool, true, false, List, ◌∷◌, all, nat_eq, Bool-cases, inl, inr,
}
use sinker.Result.{Result, ok, err, panic, is_ok, is_error, is_panic, Result-cases}
use sinker.Error.{Error, kube_error}
use sinker.Kube.{KubeError, api, other, DynamicObject, Action, await_change}
use sinker.Kube.Libraries.{Libraries}
use sinker.Resources.{ResourceSync, has_disable_target_deletion_option_enabled}
use sinker.Server.{Request, get, patch_finalizers, Server, World, NamespacedApi, ParentApi}
use sinker.Exec.{try, convert, send, ◌>>=◌, ◌>>◌}
use sinker.Exec.Sends.{Sends, sends_rules}
use sinker.ResourceExtensions.{
  Connections, has_target_finalizer, start_remote_watches_if_not_watching,
}
use sinker.ResourceExtensions.Finalizers.{without_ours}
use sinker.ResourceExtensions.Watches.{stopped, stop_lem}
use sinker.Controller.Reconcile.{
  stop_watches_and_remove_resource_sync_finalizers, delete_target, reconcile_deleted_resource,
}

-- The answer that says that the target does not exist.
abbrev pub is_absent : Result KubeError DynamicObject → Bool
is_absent (err (api code _)) = nat_eq code 404
is_absent _ = false

-- Any request but a patch of the finalizers.
abbrev pub keeps_finalizers : {C : Type 0} → Request C → Bool
keeps_finalizers (patch_finalizers _ _ _) = false
keeps_finalizers _ = true

abbrev pub await_or_fail : Result KubeError (Unit {0}) → Result Error Action
await_or_fail (ok _) = ok await_change
await_or_fail (err e) = err (kube_error e)
await_or_fail panic = panic

start-keeps :
    {C E : Type 0} (lib : Libraries) (sync : ResourceSync)
    → Sends keeps_finalizers (start_remote_watches_if_not_watching lib {C = C} {E = E} sync)
unfolding start_remote_watches_if_not_watching
start-keeps lib sync = search sends_rules

module _ {C K G : Type 0} (lib : Libraries) (net : Connections C K G) (server : Server C)
    (sync : ResourceSync) (name : String) (parent : ParentApi C) where
  -- The finalizers are patched without ours, after the watches of both ends have been stopped.
  pub release_lem :
      (w : World C)
      → let request = patch_finalizers parent name (without_ours sync) in
        stop_watches_and_remove_resource_sync_finalizers lib net server sync name parent w ≡ (
          await_or_fail (server.answer w.history request),
          record { history = request ∷ w.history; manager = stopped lib sync w.manager },
        )
  unfolding stop_watches_and_remove_resource_sync_finalizers ◌>>=◌ ◌>>◌ convert send
  release_lem w =
      rw stop_lem
        (elim (Result-cases
          (server.answer w.history (patch_finalizers parent name (without_ours sync)))) [
            | is_ok u e ↦ rw e
            | is_error x e ↦ rw e
            | is_panic e ↦ rw e
          ])

module _ {C K G : Type 0} (lib : Libraries) (net : Connections C K G) (server : Server C)
    (sync : ResourceSync) (name : String) (target : NamespacedApi C) (parent : ParentApi C) where
  -- The target's name, and the requests that read it and give up our finalizer.
  abbrev pub target_name : String
  target_name = sync.spec.target.resource_ref.name

  delete_target-keeps :
      (found : Result KubeError DynamicObject)
      → is_absent found ≡ false
      → Sends keeps_finalizers (delete_target lib net server sync name target parent found)
  unfolding delete_target
  delete_target-keeps (ok found) h = search (sends_rules, start-keeps) depth 30
  delete_target-keeps (err (api code text)) h = rw (h, delete_target) (search sends_rules)
  delete_target-keeps (err (other text)) h = search sends_rules
  delete_target-keeps panic h = search sends_rules

  -- Where deleting targets is not disabled, the read of the target does not answer that it is
  -- absent, and no list of finalizers has been written before, the handler of a deleted sync
  -- writes none: our finalizer stays.
  pub reconcile_deleted_waits :
      (w : World C)
      → has_disable_target_deletion_option_enabled sync ≡ false
      → is_absent (server.answer w.history (get target target_name)) ≡ false
      → all keeps_finalizers w.history ≡ true
      → all keeps_finalizers
          (reconcile_deleted_resource lib net server sync name target parent w).1.history
        ≡ true
  unfolding reconcile_deleted_resource ◌>>=◌ try send
  reconcile_deleted_waits w enabled present kept = elim (Bool-cases (has_target_finalizer sync)) [
    | inr gone ↦ rw (gone, reconcile_deleted_resource) kept
    | inl ours ↦ elim (Result-cases (server.answer w.history (get target target_name))) [
      | is_ok a e ↦
          rw (ours, enabled, e, reconcile_deleted_resource)
            (((delete_target-keeps (ok a) refl).at (record w { history = read })
              (record { passed = kept })).passed)
      | is_error x e ↦
          rw (ours, enabled, e, reconcile_deleted_resource)
            (((delete_target-keeps (err x) (rw e at present)).at (record w { history = read })
              (record { passed = kept })).passed)
      | is_panic e ↦ rw (ours, enabled, e, reconcile_deleted_resource) kept
    ]
  ]
    where
      read : List (Request C)
      read = get target target_name ∷ w.history

  -- Where our finalizer is there, deleting targets is not disabled and the read of the target
  -- answers that it is absent, the handler of a deleted sync stops its watches and patches its
  -- finalizers to those without ours, and sends nothing else.
  pub reconcile_deleted_releases :
      (w : World C) (text : String)
      → has_target_finalizer sync ≡ true
      → has_disable_target_deletion_option_enabled sync ≡ false
      → server.answer w.history (get target target_name) ≡ err (api 404 text)
      → let read = get target target_name ∷ w.history in
        let request = patch_finalizers parent name (without_ours sync) in
        reconcile_deleted_resource lib net server sync name target parent w ≡ (
          await_or_fail (server.answer read request),
          record { history = request ∷ read; manager = stopped lib sync w.manager },
        )
  unfolding reconcile_deleted_resource delete_target ◌>>=◌ try send
  reconcile_deleted_releases w text ours enabled absent =
      rw (ours, enabled, absent, reconcile_deleted_resource)
        (release_lem lib net server sync name parent
          (record w { history = get target target_name ∷ w.history }))
