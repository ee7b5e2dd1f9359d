-- ===== src/Controller/Rounds.antt =====
-- The handler of a deleted ResourceSync in src/controller.rs, called again and again as the watches and
-- the retries do: our finalizer is given up once the target stays absent.
use sinker.Prelude.{◌≡◌, ℕ, zero, suc, ◌+◌, ◌≤◌, length, String, true, false, List, ◌∷◌, arith}
use sinker.Result.{Result, ok, err, panic, Result-cases, is_ok, is_error, is_panic}
use sinker.Kube.{KubeError, api, other, DynamicObject}
use sinker.Kube.Libraries.{Libraries}
use sinker.Resources.{ResourceSync, has_disable_target_deletion_option_enabled}
use sinker.RemoteWatcherManager.{RemoteWatcherManager}
use sinker.Server.{Request, get, patch_finalizers, Server, World, NamespacedApi, ParentApi}
use sinker.Exec.{send, manage, try, ◌>>=◌}
use sinker.Exec.Keeps.{Keeps, keeps_rules}
use sinker.ResourceExtensions.{
  Connections, has_target_finalizer, start_remote_watches_if_not_watching,
  stop_remote_watches_if_watching,
}
use sinker.ResourceExtensions.Finalizers.{without_ours}
use sinker.ResourceExtensions.Watches.{stopped}
use sinker.Controller.Reconcile.{
  stop_watches_and_remove_resource_sync_finalizers, delete_target, reconcile_deleted_resource,
}
use sinker.Controller.Deletion.{await_or_fail, reconcile_deleted_releases}

-- At least `k` requests have been sent.
record Longer {C : Type 0} (k : ℕ) (w : World C) : Type 0 where
  pub long : k ≤ length w.history

Longer-send :
    {C : Type 0} {k : ℕ} (server : Server C) (r : Request C) → Keeps (Longer k) (send server r)
unfolding send
Longer-send server r = record { at = λ w h. record { long = omega (arith, h.long) } }

Longer-manage :
    {C E : Type 0} {k : ℕ} (f : RemoteWatcherManager → RemoteWatcherManager)
    → Keeps {C = C} {E = E} (Longer k) (manage f)
unfolding manage
Longer-manage f = record { at = λ w h. record { long = h.long } }

module _ {C K G : Type 0} (lib : Libraries) (net : Connections C K G) (server : Server C)
    (sync : ResourceSync) (name : String) (target : NamespacedApi C) (parent : ParentApi C) where
  -- The world after as many calls of the handler.
  abbrev pub rounds : ℕ → World C → World C
  rounds zero w = w
  rounds (suc n) w =
      rounds n (reconcile_deleted_resource lib net server sync name target parent w).1

  start-Longer :
      {E : Type 0} {k : ℕ}
      → Keeps {C = C} {E = E} (Longer k) (start_remote_watches_if_not_watching lib sync)
  unfolding start_remote_watches_if_not_watching
  start-Longer = search (keeps_rules, Longer-manage)

  stop-Longer :
      {E : Type 0} {k : ℕ}
      → Keeps {C = C} {E = E} (Longer k) (stop_remote_watches_if_watching lib sync)
  unfolding stop_remote_watches_if_watching
  stop-Longer = search (keeps_rules, Longer-manage)

  release-Longer :
      {k : ℕ}
      → Keeps
          (Longer k)
          (stop_watches_and_remove_resource_sync_finalizers lib net server sync name parent)
  unfolding stop_watches_and_remove_resource_sync_finalizers
  release-Longer = search (keeps_rules, stop-Longer, Longer-send) depth 30

  delete_target-Longer :
      {k : ℕ} (found : Result KubeError DynamicObject)
      → Keeps (Longer k) (delete_target lib net server sync name target parent found)
  unfolding delete_target
  delete_target-Longer (ok found) = search (keeps_rules, start-Longer, Longer-send) depth 30
  delete_target-Longer (err (api code text)) = search (keeps_rules, release-Longer) depth 30
  delete_target-Longer (err (other text)) = search keeps_rules
  delete_target-Longer panic = search keeps_rules

  module _ (ours : has_target_finalizer sync ≡ true)
      (enabled : has_disable_target_deletion_option_enabled sync ≡ false) where
    -- Each call reads the target, so it sends a request at least.
    round-Longer :
        (k : ℕ) (w : World C)
        → Longer k w
        → Longer (suc k) (reconcile_deleted_resource lib net server sync name target parent w).1
    unfolding reconcile_deleted_resource ◌>>=◌ try send
    round-Longer k w h = elim (Result-cases (server.answer w.history read)) [
      | is_ok a e ↦
          rw (ours, enabled, e, reconcile_deleted_resource)
            ((delete_target-Longer (ok a)).at _ grown)
      | is_error x e ↦
          rw (ours, enabled, e, reconcile_deleted_resource)
            ((delete_target-Longer (err x)).at _ grown)
      | is_panic e ↦ rw (ours, enabled, e, reconcile_deleted_resource) grown
    ]
      where
        read : Request C
        read = get target sync.spec.target.resource_ref.name

        grown : Longer (suc k) (record w { history = read ∷ w.history })
        grown = record { long = omega (arith, h.long) }

    rounds-Longer : (n k : ℕ) (w : World C) → Longer k w → Longer (k + n) (rounds n w)
    rounds-Longer zero k w h = record { long = omega (arith, h.long) }
    rounds-Longer (suc n) k w h = record {
      long = omega (arith, (rounds-Longer n (suc k) _ (round-Longer k w h)).long);
    }

    -- If a read of the target answers that it is absent wherever at least `limit` requests were sent
    -- before, then whatever the servers answer otherwise, the call after `limit` others reads the
    -- target, stops the watches and gives up our finalizer.
    pub reconcile_deleted-ends :
        (limit : ℕ) (text : String)
        → ((history : List (Request C))
            → limit ≤ length history
            → server.answer history (get target sync.spec.target.resource_ref.name)
              ≡ err (api 404 text))
        → (w : World C)
        → let last = rounds limit w in
          let read = get target sync.spec.target.resource_ref.name ∷ last.history in
          let request = patch_finalizers parent name (without_ours sync) in
          reconcile_deleted_resource lib net server sync name target parent last ≡ (
            await_or_fail (server.answer read request),
            record { history = request ∷ read; manager = stopped lib sync last.manager },
          )
    reconcile_deleted-ends limit text absent w =
        reconcile_deleted_releases lib net server sync name target parent (rounds limit w) text ours
          enabled
          (absent _ (omega (arith, (rounds-Longer limit 0 w (record { long = omega arith })).long)))
