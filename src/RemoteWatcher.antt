-- ===== src/RemoteWatcher.antt =====
-- src/remote_watcher.rs: the watch of one end of a ResourceSync. A stream of watch events is the list
-- of what it yields. Logging is left out.
pub mod Listening
pub mod Reconnect
pub mod Retry
use mathlib.Core.Option
use sinker.Prelude.{
  ℕ, String, Bool, true, false, Option, none, some, List, [], ◌∷◌, ◌++◌, nat_eq, if◌then◌else◌,
}
use sinker.Result.{Result, ok, err, panic, ok_or, is_err}
use sinker.Error.{Error, kube_error, resource_version_required, namespace_required}
use sinker.Kube.{KubeError, DynamicObject, ObjectRef}
use sinker.Kube.Libraries.{Libraries}
use sinker.Filters.{was_last_modified_by}
use sinker.RemoteWatcherManager.{RemoteWatcherKey}
use sinker.Server.{Server, NamespacedApi, World, get}
use sinker.Exec.{Exec, pure, lift, convert, send, ◌>>=◌}
use sinker.ResourceExtensions.{Connections}
use sinker.ResourceExtensions.Api.{api_for}
use sinker.Controller.{sync_group}

-- `kube::core::WatchEvent`, an error with its code and text
pub data WatchEvent : Type 0 where
  added modified deleted : DynamicObject → WatchEvent
  bookmark : String → WatchEvent
  error : ℕ → String → WatchEvent

-- `DefaultBackoff`: its state's type, the next pause in milliseconds, and the reset.
pub record Backoff (B : Type 0) : Type 0 where
  pub next : B → Option ℕ × B
  pub reset : B → B

-- What a watcher changes: the backoff, the reconciles in the channel, newest first, and the pauses
-- slept, newest first. The receiver may have closed the channel; a message is then dropped.
pub record Progress (B : Type 0) : Type 0 where
  pub backoff : B
  pub is_open : Bool
  pub sent : List ObjectRef
  pub slept : List ℕ

-- The default of `send_reconcile_on_fail!`.
abbrev pub default_pause : ℕ
default_pause = 5000

-- `rv_for!`
unfoldable pub rv_for : DynamicObject → Result Error String
rv_for obj = ok_or obj.metadata.resource_version resource_version_required

-- A connection answers `api.watch` at a version, with a stream or an error.
abbrev pub Connection : Type 0
Connection = String → Result KubeError (List (Result KubeError WatchEvent))

module _ {B : Type 0} (timing : Backoff B) (key : RemoteWatcherKey) where
  unfoldable pub send_reconcile : Progress B → Progress B
  send_reconcile s = if s.is_open then record s { sent = key.resource_sync ∷ s.sent } else s

  unfoldable pub send_reconcile_on_success : Progress B → Progress B
  unfolding send_reconcile
  send_reconcile_on_success s = send_reconcile (record s { backoff = timing.reset s.backoff })

  unfoldable pub send_reconcile_on_fail : Progress B → Progress B
  unfolding send_reconcile
  send_reconcile_on_fail s =
      let s' = send_reconcile s in
      let (pause, backoff) = timing.next s'.backoff in
      record s' { backoff = backoff; slept = Option.get_or pause default_pause ∷ s'.slept }

  -- The arm for an added or modified object: our own changes are ignored.
  abbrev on_change : Option Bool → Progress B → Progress B
  on_change none s = send_reconcile_on_success s
  on_change (some false) s = send_reconcile_on_success s
  on_change (some true) s = s

  -- An event that carries an object, at the object's version.
  abbrev at_version :
      Result Error String
      → Progress B
      → (Progress B → Progress B)
      → Result Error String × Progress B
  at_version (ok rv) s effect = (ok rv, effect s)
  at_version (err e) s effect = (err e, s)
  at_version panic s effect = (panic, s)

  -- The `match` on an event: the version to go on from, or an error that ends the loop.
  unfoldable pub handle : WatchEvent → String → Progress B → Result Error String × Progress B
  unfolding send_reconcile_on_success send_reconcile_on_fail rv_for
  handle (deleted obj) rv s = at_version (rv_for obj) s send_reconcile_on_success
  handle (added obj) rv s =
      at_version (rv_for obj) s (on_change (was_last_modified_by obj.metadata sync_group))
  handle (modified obj) rv s =
      at_version (rv_for obj) s (on_change (was_last_modified_by obj.metadata sync_group))
  handle (bookmark version) rv s = (ok version, record s { backoff = timing.reset s.backoff })
  handle (error code text) rv s =
      if nat_eq code 410 then (ok "0", s) else (ok rv, send_reconcile_on_fail s)

  -- The rest of the loop, from where an event has left it.
  abbrev go_on :
      (String → Progress B → Result Error String × Progress B)
      → Result Error String × Progress B
      → Result Error String × Progress B
  go_on loop (ok rv, s) = loop rv s
  go_on loop (err e, s) = (err e, s)
  go_on loop (panic, s) = (panic, s)

  -- The loop over a stream, to its end or to its first error.
  unfoldable pub consume :
      List (Result KubeError WatchEvent) → String → Progress B → Result Error String × Progress B
  unfolding handle
  consume [] rv s = (ok rv, s)
  consume (ok event ∷ items) rv s = go_on (consume items) (handle event rv s)
  consume (err e ∷ items) rv s = (err (kube_error e), s)
  consume (panic ∷ items) rv s = (panic, s)

  abbrev of_answer :
      Result KubeError (List (Result KubeError WatchEvent))
      → String
      → Progress B
      → Result Error String × Progress B
  of_answer (ok stream) rv s = consume stream rv s
  of_answer (err e) rv s = (err (kube_error e), s)
  of_answer panic rv s = (panic, s)

  unfoldable pub listen : Connection → String → Progress B → Result Error String × Progress B
  unfolding consume
  listen connection rv s = of_answer (connection rv) rv s

  -- The loop of `watch` through the connections made so far: it goes on at the version of an `ok`, and
  -- has ended at anything else. It has no other end.
  unfoldable pub watch : List Connection → String → Progress B → Result Error String × Progress B
  unfolding listen
  watch [] rv s = (ok rv, s)
  watch (connection ∷ later) rv s = go_on (watch later) (listen connection rv s)

module _ {C K G : Type 0} (lib : Libraries) (net : Connections C K G) (server : Server C)
    (key : RemoteWatcherKey) where
  -- `start` up to its first reconcile: the API and the version to watch from.
  unfoldable pub locate : C → Exec C Error (NamespacedApi C × String)
  locate client = do
    local_ns ← lift (ok_or key.resource_sync.namespace namespace_required)
    api ← api_for lib net server key.object local_ns client
    object ← convert kube_error (send server (get api key.object.resource_ref.name))
    resource_version ← lift (ok_or object.metadata.resource_version resource_version_required)
    pure (api, resource_version)

  abbrev watch_from :
      {B : Type 0}
      → Backoff B
      → List Connection
      → Result Error (NamespacedApi C × String)
      → Progress B
      → Result Error String × Progress B
  watch_from timing connections (ok (api, rv)) s =
      watch timing key connections rv (send_reconcile_on_success timing key s)
  watch_from timing connections (err e) s = (err e, s)
  watch_from timing connections panic s = (panic, s)

  -- `start`, through the connections made so far: one reconcile, in case something changed before the
  -- version that is watched from, and then the watch.
  unfoldable pub start :
      {B : Type 0}
      → Backoff B
      → C
      → List Connection
      → World C
      → Progress B
      → (Result Error String × Progress B) × World C
  unfolding locate watch send_reconcile_on_success
  start timing client connections w s =
      let (located, w') = locate client w in (watch_from timing connections located s, w')

  -- `run`, through the starts made so far, each with its connections: a start that fails is followed by
  -- a pause and the next one. The cancellation ends it between two starts or while one still watches.
  unfoldable pub run :
      {B : Type 0}
      → Backoff B
      → C
      → List (List Connection)
      → World C
      → Progress B
      → Progress B × World C
  unfolding start send_reconcile_on_fail
  run timing client [] w s = (s, w)
  run timing client (connections ∷ later) w s =
      let ((result, s'), w') = start timing client connections w s in
      let again = run timing client later w' (send_reconcile_on_fail timing key s') in
      if is_err result then again else (s', w')
