-- ===== src/Tests/Listening.antt =====
-- Watches of small streams, and the collectors of two attempts.
use sinker.Prelude.{
  String, ◌==◌, if◌then◌else◌, ℕ, ◌+◌, true, none, some, List, [], ◌∷◌, ◌++◌, length, ◌≡◌, refl,
}
use sinker.Result.{ok, err}
use sinker.Error.{Error, namespace_required, resource_version_required}
use sinker.Kube.{api, ObjectRef, await_change}
use sinker.RemoteWatcherManager.{RemoteWatcherKey}
use sinker.Server.{World}
use sinker.RemoteWatcher.{
  WatchEvent, added, deleted, bookmark, error, Backoff, Progress, Connection, consume, watch,
  locate, start as start_watch, run,
}
use sinker.RemoteWatcher.Listening.{yielded, consume_lem, consume_unversioned}
use sinker.RemoteWatcher.Reconnect.{watch-Resumes, start_lem}
use sinker.RemoteWatcher.Retry.{run_unreachable}
use sinker.ResourceExtensions.Watches.{source_key}
use sinker.Metrics.{
  Attempts, Reaches, nothing, polled, returned, dropped, idle, begin, release, complete,
}
use sinker.Metrics.Balance.{sum, Reaches-balanced}
use sinker.Tests.Fixtures.{lib, net, sync, initial, current, present, source_config, versioned}

-- A pause that grows by one, from the number of pauses since the reset.
abbrev growing : Backoff ℕ
growing = record { next = λ n. (some (n + 1), n + 1); reset = λ n. 0 }

abbrev key : RemoteWatcherKey
key = source_key lib sync

abbrev ref : ObjectRef
ref = key.resource_sync

abbrev fresh : Progress ℕ
fresh = record { backoff = 0; is_open = true; sent = []; slept = [] }

abbrev changes : List WatchEvent
changes = deleted (versioned "6") ∷ bookmark "7" ∷ error 410 "expired" ∷ added (versioned "8") ∷ []

consume_lem_example :
    ((consume growing key (yielded changes) "5" fresh).0 ≡ ok "8")
    × ((consume growing key (yielded changes) "5" fresh).1.is_open ≡ true)
    × ((consume growing key (yielded changes) "5" fresh).1.sent ≡ ref ∷ ref ∷ [])
unfolding sinker.Filters.was_last_modified_by
consume_lem_example = consume_lem growing key changes "5" fresh refl refl

consume_unversioned_example :
    ((consume growing key (yielded (changes ++ deleted source_config ∷ changes)) "5" fresh).0
      ≡ err resource_version_required)
    × ((consume growing key (yielded (changes ++ deleted source_config ∷ changes)) "5" fresh).1.sent
        ≡ ref ∷ ref ∷ [])
unfolding sinker.Filters.was_last_modified_by
consume_unversioned_example =
    consume_unversioned growing key changes (deleted source_config) changes "5" fresh refl refl refl

-- A server that opens a watch at one version alone, and connections of which the second starts where
-- the first ended.
abbrev opened_at : String → List WatchEvent → Connection
opened_at version es = λ rv. if rv == version then ok (yielded es) else err (api 410 "gone")

abbrev connections : List Connection
connections = opened_at "5" changes ∷ opened_at "8" changes ∷ []

watch-Resumes_example :
    watch growing key connections "5" fresh
    ≡ consume growing key (yielded (changes ++ changes)) "5" fresh
watch-Resumes_example =
    watch-Resumes growing key connections (changes ∷ changes ∷ []) "5" fresh (refl, (refl, tt)) refl
      refl

start_lem_example :
    ((start_watch lib net current key growing 0 connections initial fresh).0.0 ≡ ok "8")
    × ((start_watch lib net current key growing 0 connections initial fresh).0.1.sent
        ≡ ref ∷ ref ∷ ref ∷ ref ∷ ref ∷ [])
unfolding locate sinker.Exec.◌>>=◌ sinker.ResourceExtensions.remote_watcher_key
    sinker.ResourceExtensions.Api.api_for sinker.ResourceExtensions.Api.cluster_client
    sinker.Resources.group_version_kind sinker.Exec.convert sinker.Exec.send
    sinker.Filters.was_last_modified_by
start_lem_example =
    start_lem lib net current growing key 0 connections (changes ∷ changes ∷ []) initial fresh refl
      (refl, (refl, tt)) refl refl

-- A key whose ResourceSync has no namespace is never found.
abbrev homeless : RemoteWatcherKey
homeless = record key { resource_sync = record { name = "copy-config"; namespace = none } }

homeless_unreachable :
    (w : World ℕ) → (e : Error) × ((locate lib net present homeless 0 w).0 ≡ err e)
unfolding locate sinker.Exec.◌>>=◌
homeless_unreachable w = (namespace_required, refl)

run_unreachable_example :
    ((run lib net present homeless growing 0 ([] ∷ [] ∷ []) initial fresh).0.sent
      ≡ homeless.resource_sync ∷ homeless.resource_sync ∷ [])
    × (length (run lib net present homeless growing 0 ([] ∷ [] ∷ []) initial fresh).0.slept ≡ 2)
run_unreachable_example =
    run_unreachable lib net present growing homeless 0 homeless_unreachable ([] ∷ [] ∷ []) initial
      fresh refl

abbrev two_running : Attempts
two_running = record { metrics = begin (begin idle.metrics); running = 4 ∷ 1 ∷ [] }

abbrev one_returned : Attempts
one_returned = record {
  metrics = complete {E = Error} (ok await_change) 1 9 two_running.metrics;
  running = 4 ∷ [];
}

reaches : Reaches Error 1 0 one_returned
unfolding sinker.Metrics.outcome
reaches = returned (4 ∷ []) [] 1 9 (ok await_change) "success" refl (polled 4 (polled 1 nothing))

Reaches-balanced_example :
    (one_returned.metrics.active_workers ≡ 1)
    × (sum one_returned.metrics.reconcile_total ≡ 1)
    × (length one_returned.metrics.reconcile_time.observed ≡ 1)
Reaches-balanced_example = Reaches-balanced reaches
