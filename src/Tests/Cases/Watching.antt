-- ===== src/Tests/Cases/Watching.antt =====
-- The unit tests of src/remote_watcher.rs. A pause is as long as its number in the row, and a response to
-- a watch is the list of the events in its body.
use mathlib.Core.Option
use sinker.Prelude.{
  ◌≡◌, refl, ℕ, suc, String, Bool, true, false, Option, none, some, List, [], ◌∷◌, ◌++◌, map,
  length, if◌then◌else◌,
}
use sinker.Result.{Result, ok, err}
use sinker.Error.{Error, resource_version_required}
use sinker.Json.{null}
use sinker.Kube.{DynamicObject, default_meta, ManagedFieldsEntry}
use sinker.Server.{Request}
use sinker.RemoteWatcherManager.{RemoteWatcherKey}
use sinker.ResourceExtensions.{remote_watcher_key}
use sinker.ResourceExtensions.Api.{api_for}
use sinker.RemoteWatcher.{
  WatchEvent, added, modified, deleted, bookmark, error, Backoff, Progress, Connection, listen,
}
use sinker.Tests.Fixtures.{lib, net, initial}
use sinker.Tests.Script.{discovered, mock_api, finish, sync_fixture}
use sinker.Tests.Cases.Reconciling.{discovery}

-- `watcher`: the key, and a watcher that has done nothing yet
abbrev pub key : RemoteWatcherKey
key = remote_watcher_key lib sync_fixture.spec.source sync_fixture

abbrev pub timing : Backoff ℕ
timing = record { next = λ b. (some b, suc b); reset = λ b. 0 }

abbrev pub idle : Progress ℕ
idle = record { backoff = 0; is_open = true; sent = []; slept = [] }

-- `watch_response`
abbrev watch_response : List WatchEvent → Connection
watch_response events = λ version. ok (map ok events)

-- `object_event`, of the event's constructor
abbrev managed_by : String → List ManagedFieldsEntry
managed_by manager = record { manager = some manager; time = some 0 } ∷ []

abbrev pub object_event : (DynamicObject → WatchEvent) → Option String → Option String → WatchEvent
object_event event manager rv = event (record {
  types = some (record { api_version = "v1"; kind = "ConfigMap" });
  metadata = record default_meta {
    name = some "source-config";
    resource_version = rv;
    managed_fields = Option.map managed_by manager;
  };
  payload = null;
})

-- What a call has returned, and how many reconciles it has sent.
abbrev listen_to : List WatchEvent → Result Error String × ℕ
listen_to events =
    let (result, s) = listen timing key (watch_response events) "10" idle in (result, length s.sent)

abbrev pub ours : Option String
ours = some "sinker.influxdata.io"

abbrev pub external : Option String
external = some "external"

-- `watch_events_advance_versions_and_reconcile_when_needed`
abbrev event_cases : List (List WatchEvent)
event_cases =
    (object_event added external (some "11") ∷ [])
    ∷ (object_event added ours (some "11") ∷ [])
    ∷ (object_event modified external (some "12") ∷ [])
    ∷ (object_event modified ours (some "12") ∷ [])
    ∷ (object_event modified none (some "13") ∷ [])
    ∷ (object_event deleted ours (some "14") ∷ [])
    ∷ (bookmark "15" ∷ [])
    ∷ (error 410 "too old" ∷ [])
    ∷ (error 500 "retry" ∷ [])
    ∷ []

event_cases_pass :
    map listen_to event_cases
    ≡ (ok "11", 1)
      ∷ (ok "11", 0)
      ∷ (ok "12", 1)
      ∷ (ok "12", 0)
      ∷ (ok "13", 1)
      ∷ (ok "14", 1)
      ∷ (ok "15", 0)
      ∷ (ok "0", 0)
      ∷ (ok "10", 1)
      ∷ []
unfolding listen sinker.Filters.was_last_modified_by
event_cases_pass = refl

-- `object_events_require_resource_version`
abbrev unversioned_cases : List ((DynamicObject → WatchEvent) × Bool)
unversioned_cases =
    (added, false)
    ∷ (modified, false)
    ∷ (deleted, false)
    ∷ (added, true)
    ∷ (modified, true)
    ∷ (deleted, true)
    ∷ []

abbrev listen_unversioned : (DynamicObject → WatchEvent) × Bool → Result Error String × ℕ
listen_unversioned (event, earlier) =
    let earlier_events : List WatchEvent =
      if earlier
      then object_event added external (some "11") ∷ object_event modified none (some "12") ∷ []
      else [] in
    listen_to
      (earlier_events ++ object_event event none none ∷ object_event deleted none (some "14") ∷ [])

abbrev refused_after : ℕ → Result Error String × ℕ
refused_after reconciles = (err resource_version_required, reconciles)

unversioned_cases_pass :
    map listen_unversioned unversioned_cases ≡ map refused_after (0 ∷ 0 ∷ 0 ∷ 2 ∷ 2 ∷ 2 ∷ [])
unfolding listen sinker.Filters.was_last_modified_by
unversioned_cases_pass = refl

-- `watch_sequences_preserve_versions_and_reconcile_counts`
abbrev sequence_cases : List (List WatchEvent)
sequence_cases =
    []
    ∷ (object_event added external (some "11")
        ∷ object_event modified ours (some "12")
        ∷ object_event modified none (some "13")
        ∷ object_event deleted ours (some "14")
        ∷ object_event added ours (some "15")
        ∷ object_event modified external (some "16")
        ∷ object_event added none (some "17")
        ∷ object_event deleted none (some "18")
        ∷ object_event modified ours (some "19")
        ∷ [])
    ∷ (object_event modified none (some "11") ∷ bookmark "20" ∷ [])
    ∷ (object_event modified none (some "11") ∷ error 410 "too old" ∷ [])
    ∷ []

-- The test finds the API before it listens.
abbrev follow : List WatchEvent → (Result Error String × ℕ) × Option (List (Request ℕ))
follow events =
    let (_, w) = api_for lib net (mock_api (discovered ∷ [])) key.object "team-a" 0 initial in
    (listen_to events, finish (discovered ∷ []) w.history)

sequence_cases_pass :
    map follow sequence_cases
    ≡ ((ok "10", 0), some (discovery ∷ []))
      ∷ ((ok "19", 6), some (discovery ∷ []))
      ∷ ((ok "20", 1), some (discovery ∷ []))
      ∷ ((ok "0", 1), some (discovery ∷ []))
      ∷ []
unfolding listen sinker.Filters.was_last_modified_by sinker.Exec.◌>>=◌ remote_watcher_key
    sinker.ResourceExtensions.Api.api_for sinker.ResourceExtensions.Api.cluster_client
    sinker.Resources.group_version_kind sinker.Exec.convert sinker.Exec.send
    sinker.ResourceExtensions.Api.resolve_namespace sinker.ResourceExtensions.Api.api_scope
sequence_cases_pass = refl
