-- ===== src/Tests/Cases/Starting.antt =====
-- The unit tests of src/remote_watcher.rs that start or run a watcher, and on channels and bodies that fail.

use sinker.Prelude.{
  ◌≡◌, refl, ℕ, String, Bool, true, false, Option, none, some, List, [], ◌∷◌, map, length, ◌==◌,
  if◌then◌else◌,
}
use sinker.Result.{Result, ok, err}
use sinker.Error.{Error, kube_error, namespace_required, resource_version_required}
use sinker.Json.{null}
use sinker.Kube.{KubeError, api, other, DynamicObject, default_meta, ObjectRef}
use sinker.Server.{Request, get}
use sinker.RemoteWatcherManager.{RemoteWatcherKey}
use sinker.ResourceExtensions.{remote_watcher_key}
use sinker.ResourceExtensions.Api.{api_for}
use sinker.RemoteWatcher.{
  WatchEvent, modified, Connection, listen, start, run, send_reconcile_on_success,
}
use sinker.Tests.Fixtures.{lib, net, target_api, initial}
use sinker.Tests.Script.{Scripted, api_error, found, discovered, mock_api, finish}
use sinker.Tests.Cases.Reconciling.{discovery}
use sinker.Tests.Cases.Watching.{key, timing, idle, external, object_event}

-- What a start has returned, how many reconciles it has sent, and its requests.
abbrev Started : Type 0
Started = Result Error String × (ℕ × Option (List (Request ℕ)))

abbrev start_with : List Scripted → List Connection → RemoteWatcherKey → Started
start_with script connections k =
    let ((result, s), w) = start lib net (mock_api script) k timing 0 connections initial idle in
    (result, (length s.sent, finish script w.history))

-- `start_propagates_api_errors_before_sending_reconcile`
abbrev start_denied : Bool → Started
start_denied is_discovered =
    start_with (if is_discovered then discovered ∷ api_error 403 ∷ [] else api_error 403 ∷ []) []
      key

abbrev source_read : Request ℕ
source_read = get target_api "source-config"

abbrev denied_start : Bool → Started
denied_start is_discovered = (
  err (kube_error (api 403 "scripted API failure")),
  (0, some (if is_discovered then discovery ∷ source_read ∷ [] else discovery ∷ [])),
)

start_denied_pass : map start_denied (false ∷ true ∷ []) ≡ map denied_start (false ∷ true ∷ [])
unfolding start sinker.Exec.◌>>=◌ remote_watcher_key sinker.ResourceExtensions.Api.api_for
    sinker.ResourceExtensions.Api.cluster_client sinker.Resources.group_version_kind
    sinker.Exec.convert sinker.Exec.send sinker.ResourceExtensions.Api.resolve_namespace
    sinker.ResourceExtensions.Api.api_scope
start_denied_pass = refl

-- `start_reconciles_then_reconnects_from_last_event_with_name_selector`: the first connection is made at
-- the object's version and the second, which is denied, at the event's.
abbrev at_version : String → Result KubeError (List (Result KubeError WatchEvent)) → Connection
at_version version answer = λ rv. if rv == version then answer else err (other "another version")

abbrev source_at : Option String → DynamicObject
source_at rv = record {
  types = some (record { api_version = "v1"; kind = "ConfigMap" });
  metadata = record default_meta { name = some "source-config"; resource_version = rv };
  payload = null;
}

abbrev reconnected : Started
reconnected =
    start_with (discovered ∷ found (source_at (some "10")) ∷ [])
      (at_version "10" (ok (ok (object_event modified external (some "11")) ∷ []))
        ∷ at_version "11" (err (api 403 "scripted API failure"))
        ∷ [])
      key

reconnected_pass :
    reconnected
    ≡ (err (kube_error (api 403 "scripted API failure")), (2, some (discovery ∷ source_read ∷ [])))
unfolding start sinker.Exec.◌>>=◌ remote_watcher_key sinker.ResourceExtensions.Api.api_for
    sinker.ResourceExtensions.Api.cluster_client sinker.Resources.group_version_kind
    sinker.Exec.convert sinker.Exec.send sinker.Filters.was_last_modified_by
    sinker.ResourceExtensions.Api.resolve_namespace sinker.ResourceExtensions.Api.api_scope
reconnected_pass = refl

-- `start_requires_namespace_before_api_access`
abbrev without_namespace : RemoteWatcherKey
without_namespace = record key { resource_sync = record key.resource_sync { namespace = none } }

abbrev nowhere : Started
nowhere = start_with [] [] without_namespace

nowhere_pass : nowhere ≡ (err namespace_required, (0, some []))
unfolding start sinker.Exec.◌>>=◌
nowhere_pass = refl

-- `start_requires_initial_resource_version_before_sending_reconcile`
abbrev unversioned_start : Started
unversioned_start = start_with (discovered ∷ found (source_at none) ∷ []) [] key

unversioned_start_pass :
    unversioned_start ≡ (err resource_version_required, (0, some (discovery ∷ source_read ∷ [])))
unfolding start sinker.Exec.◌>>=◌ remote_watcher_key sinker.ResourceExtensions.Api.api_for
    sinker.ResourceExtensions.Api.cluster_client sinker.Resources.group_version_kind
    sinker.Exec.convert sinker.Exec.send sinker.ResourceExtensions.Api.resolve_namespace
    sinker.ResourceExtensions.Api.api_scope
unversioned_start_pass = refl

-- `failed_start_requests_reconciliation_and_can_be_cancelled`: one start, and the cancellation
abbrev failed_start : List ObjectRef
failed_start = (run lib net (mock_api []) without_namespace timing 0 ([] ∷ []) initial idle).0.sent

failed_start_pass : failed_start ≡ without_namespace.resource_sync ∷ []
unfolding run sinker.Exec.◌>>=◌
failed_start_pass = refl

-- `sending_to_closed_reconcile_channel_is_nonfatal`
abbrev sent_to_closed : List ObjectRef
sent_to_closed = (send_reconcile_on_success timing key (record idle { is_open = false })).sent

sent_to_closed_pass : sent_to_closed ≡ []
unfolding send_reconcile_on_success
sent_to_closed_pass = refl

-- `invalid_watch_json_returns_a_decode_error`
abbrev undecodable : Connection
undecodable = λ version. ok (err (other "expected ident") ∷ [])

abbrev listen_undecodable : Result Error String × ℕ
listen_undecodable =
    let (result, s) = listen timing key undecodable "10" idle in (result, length s.sent)

listen_undecodable_pass : listen_undecodable ≡ (err (kube_error (other "expected ident")), 0)
unfolding listen
listen_undecodable_pass = refl
