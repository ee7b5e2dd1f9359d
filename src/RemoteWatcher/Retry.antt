-- ===== src/RemoteWatcher/Retry.antt =====
-- The retries of src/remote_watcher.rs while nothing can be watched.
use sinker.Prelude.{◌+◌, suc, true, ◌≡◌, refl, ◌∙◌, ap, List, [], ◌∷◌, length, arith}
use sinker.Result.{err}
use sinker.Error.{Error}
use sinker.Kube.{ObjectRef}
use sinker.Kube.Libraries.{Libraries}
use sinker.RemoteWatcherManager.{RemoteWatcherKey}
use sinker.Server.{Server, World}
use sinker.ResourceExtensions.{Connections}
use sinker.RemoteWatcher.{
  Backoff, Progress, Connection, locate, start, run, send_reconcile, send_reconcile_on_fail,
}

-- One reconcile for each start.
abbrev pub one_each : ObjectRef → List (List Connection) → List ObjectRef → List ObjectRef
one_each ref [] before = before
one_each ref (_ ∷ later) before = one_each ref later (ref ∷ before)

module _ {C K G B : Type 0} (lib : Libraries) (net : Connections C K G) (server : Server C)
    (timing : Backoff B) (key : RemoteWatcherKey) (client : C)
    (unreachable : (w : World C)
      → (e : Error) × ((locate lib net server key client w).0 ≡ err e)) where
  -- While no start finds its object, each start over an open channel sends one reconcile and is
  -- followed by one pause.
  pub run_unreachable :
      (starts : List (List Connection)) (w : World C) (s : Progress B)
      → s.is_open ≡ true
      → let (s', _) = run lib net server key timing client starts w s in
        (s'.sent ≡ one_each key.resource_sync starts s.sent)
        × (length s'.slept ≡ length starts + length s.slept)
  unfolding run start send_reconcile_on_fail send_reconcile
  run_unreachable [] w s o = (refl, omega arith)
  run_unreachable (connections ∷ later) w s o =
      let (e, failed) = unreachable w in
      let (is_open, sent, slept) = paused in
      let (sent_after, slept_after) =
        run_unreachable later (locate lib net server key client w).1
          (send_reconcile_on_fail timing key s) is_open in
      rw failed (
        sent_after ∙ ap (one_each key.resource_sync later) sent,
        slept_after ∙ ap (λ n. length later + n) slept ∙ omega arith,
      )
    where
      paused :
          ((send_reconcile_on_fail timing key s).is_open ≡ true)
          × ((send_reconcile_on_fail timing key s).sent ≡ key.resource_sync ∷ s.sent)
          × (length (send_reconcile_on_fail timing key s).slept ≡ suc (length s.slept))
      paused = ground arith
