-- ===== src/Controller/Metered.antt =====
-- `reconcile_with_metrics` of src/controller.rs: a reconciliation under the collectors of
-- src/metrics.rs.

use sinker.Prelude.{◌+◌, String, ◌≡◌, refl, some, length, ◌==◌, if◌then◌else◌, arith}
use sinker.Result.{Result}
use sinker.Error.{Error}
use sinker.Kube.{Action}
use sinker.Kube.Libraries.{Libraries}
use sinker.Resources.{ResourceSync}
use sinker.Server.{Server, World}
use sinker.ResourceExtensions.{Connections}
use sinker.Metrics.{ControllerMetrics, outcome, begin, release, complete}
use sinker.Metrics.Balance.{counted, counted-complete}
use sinker.Controller.Reconcile.{reconcile}

module _ {C K G : Type 0} (lib : Libraries) (net : Connections C K G) (server : Server C) where
  unfoldable pub reconcile_with_metrics :
      ResourceSync
      → C
      → World C
      → ControllerMetrics
      → (Result Error Action × World C) × ControllerMetrics
  unfolding begin complete
  reconcile_with_metrics sync client w metrics =
      let (result, w') = reconcile lib net server sync client w in
      ((result, w'), complete result (server.now w.history) (server.now w'.history) (begin metrics))

  -- The collectors leave the reconciliation's result and effects as they are. When it has returned the
  -- gauge is what it was, one more time has been observed, and the outcome's counter is one more, every
  -- other what it was.
  pub reconcile_with_metrics_lem :
      (sync : ResourceSync) (client : C) (w : World C) (m : ControllerMetrics) (label : String)
      → outcome (reconcile lib net server sync client w).0 ≡ some label
      → let (ran, m') = reconcile_with_metrics sync client w m in
        (ran ≡ reconcile lib net server sync client w)
        × (m'.active_workers ≡ m.active_workers)
        × (length m'.reconcile_time.observed ≡ length m.reconcile_time.observed + 1)
        × ((other : String)
            → counted other m'.reconcile_total ≡ (
                if label == other
                then counted other m.reconcile_total + 1
                else counted other m.reconcile_total))
  unfolding reconcile_with_metrics begin complete release
  reconcile_with_metrics_lem sync client w m label e = (
    refl,
    omega arith,
    omega arith,
    λ other.
        counted-complete (reconcile lib net server sync client w).0 label other 0 0 (begin m) e,
  )
