-- ===== src/Controller/Run.antt =====
-- `run` and `run_with_metrics` of src/controller.rs. kube's `Controller` decides which ResourceSync is
-- reconciled when; it is the list of those that it has handed over until the shutdown, one after
-- another. What it does with the returned actions is its own.
pub mod Turns
pub mod Outcome
use sinker.Prelude.{
  ℕ, suc, ◌+◌, ◌≡◌, refl, ap, ◌∙◌, String, Bool, true, false, Option, some, List, [], ◌∷◌, length,
  arith,
}
use sinker.Result.{Result, ok, err, panic}
use sinker.Error.{Error}
use sinker.Kube.{KubeError, Action}
use sinker.Kube.Libraries.{Libraries}
use sinker.Resources.{ResourceSync}
use sinker.RemoteWatcherManager.{RemoteWatcherManager, new, stop_all}
use sinker.RemoteWatcherManager.WellFormed.{IsWellFormed, new-IsWellFormed}
use sinker.RemoteWatcherManager.Stopped.{stop_all_lem}
use sinker.Server.{Request, list_syncs, all as every_namespace, ParentApi, Server, World}
use sinker.ResourceExtensions.{Connections}
use sinker.Metrics.{ControllerMetrics, default_metrics, begin, complete, release}
use sinker.Controller.{error_policy}
use sinker.Controller.Reconcile.{reconcile}
use sinker.Controller.Metered.{reconcile_with_metrics}
use sinker.Controller.Managed.{Managed, reconcile-Managed}

-- How the process ends: by `exit` with a code, by returning, or by a panic that unwinds.
pub data Ended : Type 0 where
  exited : ℕ → Ended
  returned : List Action → Ended
  panicked : Ended

-- The state of the controller beside its end.
pub record Controlled (C : Type 0) : Type 0 where
  pub world : World C
  pub metrics : ControllerMetrics

-- `Api::<ResourceSync>::all`
abbrev pub every_sync : {C : Type 0} → C → ParentApi C
every_sync client = record { client = client; scope = every_namespace }

-- What kube does next with a ResourceSync: the action, or what `error_policy` makes of the error.
abbrev pub next_action : ResourceSync → Result Error Action → Result Error Action
next_action sync (ok action) = ok action
next_action sync (err e) = ok (error_policy sync e)
next_action sync panic = panic

module _ {C : Type 0} where
  abbrev pub then_reconcile :
      Result Error Action → Ended × Controlled C → Controlled C → Ended × Controlled C
  then_reconcile (ok action) (returned actions, last) now = (returned (action ∷ actions), last)
  then_reconcile (ok action) (ended, last) now = (ended, last)
  then_reconcile (err e) later now = (panicked, now)
  then_reconcile panic later now = (panicked, now)

  abbrev pub shut_down : Ended × Controlled C → Ended × Controlled C
  shut_down (returned actions, s) =
      (returned actions, record s { world = record s.world { manager = stop_all s.world.manager } })
  shut_down (ended, s) = (ended, s)

module _ {C K G : Type 0} (lib : Libraries) (net : Connections C K G) (server : Server C) where
  -- The reconciliations of the ResourceSyncs that are handed over, until there are no more.
  unfoldable pub reconcile_each : List ResourceSync → C → Controlled C → Ended × Controlled C
  unfolding reconcile_with_metrics
  reconcile_each [] client s = (returned [], s)
  reconcile_each (sync ∷ syncs) client s =
      let ((result, world), metrics) =
        reconcile_with_metrics lib net server sync client s.world s.metrics in
      let now : Controlled C = record { world = world; metrics = metrics } in
      then_reconcile (next_action sync result) (reconcile_each syncs client now) now

  abbrev pub once_listed :
      Result KubeError (Unit {0}) → List ResourceSync → C → Controlled C → Ended × Controlled C
  once_listed (ok _) syncs client s = shut_down (reconcile_each syncs client s)
  once_listed (err e) syncs client s = (exited 1, s)
  once_listed panic syncs client s = (panicked, s)

  unfoldable pub run_with_metrics :
      List ResourceSync → C → List (Request C) → ControllerMetrics → Ended × Controlled C
  unfolding reconcile_each
  run_with_metrics syncs client history metrics =
      let request = list_syncs (every_sync client) 1 in
      once_listed (server.answer history request) syncs client (record {
        world = record { history = request ∷ history; manager = new };
        metrics = metrics;
      })

  unfoldable pub run : List ResourceSync → C → List (Request C) → Ended × Controlled C
  unfolding run_with_metrics
  run syncs client history = run_with_metrics syncs client history default_metrics
