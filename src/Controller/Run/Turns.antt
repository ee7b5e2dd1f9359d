-- ===== src/Controller/Run/Turns.antt =====
-- What holds of every world of a run of src/controller.rs holds where it ends.
use sinker.Prelude.{◌≡◌, refl, true, false, List, [], ◌∷◌, all}
use sinker.Result.{Result, ok, err, panic}
use sinker.Error.{Error}
use sinker.Kube.{KubeError, Action}
use sinker.Kube.Libraries.{Libraries}
use sinker.Resources.{ResourceSync}
use sinker.Server.{list_syncs, Server, World}
use sinker.Exec.Keeps.{Keeps}
use sinker.Exec.Sends.{Sent}
use sinker.ResourceExtensions.{Connections, has_been_deleted}
use sinker.Metrics.{ControllerMetrics}
use sinker.Controller.Reconcile.{reconcile}
use sinker.Controller.Metered.{reconcile_with_metrics}
use sinker.Controller.Requests.{while_active, reconcile-active}
use sinker.Controller.Run.{
  Ended, exited, returned, panicked, Controlled, every_sync, next_action, then_reconcile,
  reconcile_each, shut_down, once_listed, run_with_metrics,
}

-- Each of the ResourceSyncs has the property.
abbrev pub Each : (ResourceSync → Type 0) → List ResourceSync → Type 0
Each P [] = Unit {0}
Each P (sync ∷ syncs) = P sync × Each P syncs

pub each :
    {P : ResourceSync → Type 0} (syncs : List ResourceSync)
    → ((s : ResourceSync) → P s)
    → Each P syncs
each [] h = tt
each (sync ∷ syncs) h = (h sync, each syncs h)

pub Each-map :
    {P Q : ResourceSync → Type 0} (syncs : List ResourceSync)
    → ((s : ResourceSync) → P s → Q s)
    → Each P syncs
    → Each Q syncs
Each-map [] f h = tt
Each-map (sync ∷ syncs) f (here, there) = (f sync here, Each-map syncs f there)

module _ {C : Type 0} (P : World C → Type 0) where
  then_reconcile-holds :
      (next : Result Error Action) (later : Ended × Controlled C) (now : Controlled C)
      → P later.1.world
      → P now.world
      → P (then_reconcile next later now).1.world
  then_reconcile-holds (ok action) (returned actions, last) now hl hn = hl
  then_reconcile-holds (ok action) (exited n, last) now hl hn = hl
  then_reconcile-holds (ok action) (panicked, last) now hl hn = hl
  then_reconcile-holds (err e) later now hl hn = hn
  then_reconcile-holds panic later now hl hn = hn

module _ {C K G : Type 0} (lib : Libraries) (net : Connections C K G) (server : Server C) where
  pub reconcile_each-Keeps :
      (P : World C → Type 0) (syncs : List ResourceSync) (client : C) (s : Controlled C)
      → Each (λ sync. Keeps P (reconcile lib net server sync client)) syncs
      → P s.world
      → P (reconcile_each lib net server syncs client s).1.world
  unfolding reconcile_each reconcile_with_metrics
  reconcile_each-Keeps P [] client s keeps h = h
  reconcile_each-Keeps P (sync ∷ syncs) client s (here, there) h =
      let kept = here.at s.world h in
      then_reconcile-holds P (next_action sync (reconcile lib net server sync client s.world).0) _ _
        (reconcile_each-Keeps P syncs client _ there kept) kept

  shut_down-history : (r : Ended × Controlled C) → (shut_down r).1.world.history ≡ r.1.world.history
  shut_down-history (returned actions, s) = refl
  shut_down-history (exited n, s) = refl
  shut_down-history (panicked, s) = refl

  once_listed-active :
      (listed : Result KubeError (Unit {0})) (syncs : List ResourceSync) (client : C)
      (s : Controlled C)
      → Each (λ sync. has_been_deleted sync ≡ false) syncs
      → all while_active s.world.history ≡ true
      → all while_active (once_listed lib net server listed syncs client s).1.world.history ≡ true
  once_listed-active (ok _) syncs client s active h = rw shut_down-history (
      (reconcile_each-Keeps (Sent while_active) syncs client s
        (Each-map syncs (λ sync. reconcile-active lib net server sync client) active)
        (record { passed = h })).passed)
  once_listed-active (err e) syncs client s active h = h
  once_listed-active panic syncs client s active h = h

  -- However the servers answer and however a run ends, if none of the ResourceSyncs handed over is being
  -- deleted, the run deletes no target and writes no list of finalizers without ours.
  pub run_with_metrics-active :
      (syncs : List ResourceSync) (client : C) (m : ControllerMetrics)
      → Each (λ sync. has_been_deleted sync ≡ false) syncs
      → all while_active (run_with_metrics lib net server syncs client [] m).1.world.history ≡ true
  unfolding run_with_metrics
  run_with_metrics-active syncs client m active =
      once_listed-active (server.answer [] (list_syncs (every_sync client) 1)) syncs client _ active
        refl
