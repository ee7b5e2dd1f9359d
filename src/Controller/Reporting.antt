-- ===== src/Controller/Reporting.antt =====
-- The status that a whole reconciliation of src/controller.rs reports.

use sinker.Prelude.{◌≡◌, ◌≢◌, refl, arith, String, true, false, not, ◌||◌, Option, some, List, ◌∷◌}
use sinker.Result.{Result, ok, err, panic, is_err, is_ok, is_error, is_panic, Result-cases}
use sinker.Error.{Error, kube_error}
use sinker.Kube.{Action, KubeError}
use sinker.Kube.Libraries.{Libraries}
use sinker.Resources.{ResourceSync, ResourceSyncStatus}
use sinker.Server.{Server, World, Request, ParentApi, get_status, patch_status}
use sinker.Exec.{◌>>=◌, ◌>>◌, try, lift, pure, convert, send, clock}
use sinker.ResourceExtensions.{Connections, has_been_deleted, parent_api}
use sinker.Controller.{reconcile_status}
use sinker.Controller.Reconcile.{reconcile, reconcile_helper, live_status, write_status}
use sinker.Controller.Status.{status_of, status_written}

-- The outcome, unless the patch of the status failed.
abbrev pub reported : Result KubeError (Unit {0}) → Result Error Action → Result Error Action
reported (ok _) result = result
reported (err e) result = err (kube_error e)
reported panic result = panic

module _ {C K G : Type 0} (lib : Libraries) (net : Connections C K G) (server : Server C)
    (sync : ResourceSync) (c : C) (name : String) where
  abbrev parent : ParentApi C
  parent = parent_api sync c

  -- What follows a handler's result: the live status is read, and the new one written.
  report_lem :
      (result : Result Error Action) (w : World C) (live : Option ResourceSyncStatus)
      → has_been_deleted sync ≡ false
      → server.answer w.history (get_status parent name) ≡ ok live
      → let read = get_status parent name ∷ w.history in
        let status = status_of lib (server.now read) sync live result in
        (do
          live' ← live_status lib net server sync name parent result
          now ← clock server
          write_status lib net server parent name (reconcile_status lib now sync live' result)
          lift result)
          w
        ≡ (
          reported (server.answer read (patch_status parent name status)) result,
          record { history = patch_status parent name status ∷ read; manager = w.manager },
        )
  unfolding live_status ◌>>=◌ ◌>>◌ lift pure convert send clock
  report_lem result w live d answered =
      let read : List (Request C) = get_status parent name ∷ w.history in
      let status = status_of lib (server.now read) sync live result in
      let written = status_written lib (server.now read) sync live result d in
      let gets : (is_err result || not (has_been_deleted sync)) ≡ true = ground (arith, d) in
      elim (Result-cases (server.answer read (patch_status parent name status))) [
        | is_ok u e ↦ rw (gets, answered, written, e) refl
        | is_error x e ↦ rw (gets, answered, written, e) refl
        | is_panic e ↦ rw (gets, answered, written, e) refl
      ]

  -- Reconciling a named sync that is not being deleted reports the outcome of its handler, where
  -- that does not panic and the live status can be read: after the handler's requests the live
  -- status is read, then the status of the outcome is written, and nothing more is sent. The
  -- outcome is returned, unless the write fails.
  pub reconcile_reports :
      (w : World C) (live : Option ResourceSyncStatus)
      → sync.metadata.name ≡ some name
      → has_been_deleted sync ≡ false
      → let (result, w') = reconcile_helper lib net server sync c name parent w in
        result ≢ panic
        → server.answer w'.history (get_status parent name) ≡ ok live
        → let read = get_status parent name ∷ w'.history in
          let status = status_of lib (server.now read) sync live result in
          reconcile lib net server sync c w ≡ (
            reported (server.answer read (patch_status parent name status)) result,
            record { history = patch_status parent name status ∷ read; manager = w'.manager },
          )
  unfolding reconcile ◌>>=◌ ◌>>◌ try lift
  reconcile_reports w live named d returned answered =
      let ran = reconcile_helper lib net server sync c name parent w in
      elim (Result-cases ran.0) [
        | is_ok a e ↦ simp (named, e) (report_lem (ok a) ran.1 live d answered)
        | is_error x e ↦ simp (named, e) (report_lem (err x) ran.1 live d answered)
        | is_panic e ↦ absurd (returned e)
      ]
