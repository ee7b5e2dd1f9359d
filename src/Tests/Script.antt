-- ===== src/Tests/Script.antt =====
-- `MockApi` and its neighbours in `test_support` of src/lib.rs, with what the tests of src/controller.rs
-- share: servers that answer from a script. A response is what kube reads of the scripted body.
use mathlib.Core.Option
use mathlib.Core.List.{reverse}
use sinker.Prelude.{
  ℕ, zero, suc, String, Option, none, some, List, [], ◌∷◌, map, length, nat_eq, if◌then◌else◌,
}
use sinker.Prelude.StringMap
use sinker.Result.{Result, ok, err}
use sinker.Error.{Error}
use sinker.Kube.{
  KubeError, api, other, Secret, DynamicObject, ApiResource, Scope, namespaced, Action,
}
use sinker.Resources.{ResourceSync, ResourceSyncStatus}
use sinker.Server.{
  Request, Response, Server, World, get_secret, pinned_kind, get, delete, apply, patch_finalizers,
  get_status, patch_status,
}
use sinker.Metrics.{ControllerMetrics, default_metrics, results}
use sinker.Kube.Libraries.{Libraries}
use sinker.Exec.{Exec, ◌>>=◌}
use sinker.ResourceExtensions.Api.{api_for}
use sinker.Controller.Reconcile.{reconcile_helper, reconcile_deleted_resource, reconcile_normally}
use sinker.Controller.Metered.{reconcile_with_metrics}
use sinker.ResourceExtensions.{start_remote_watches_if_not_watching}
use sinker.Tests.Fixtures.{parent, lib, net, sync, configmaps, initial}

-- `response`, by what it is a response to, and `api_error` and `discovery_response`
pub data Scripted : Type 0 where
  api_error : ℕ → Scripted
  discovery_response : ApiResource → Scope → Scripted
  found : DynamicObject → Scripted
  live : Option ResourceSyncStatus → Scripted
  secret : Secret → Scripted
  accepted : Scripted

abbrev unexpected : {A : Type 0} → Result KubeError A
unexpected = err (other "unexpected API request")

abbrev reply : Scripted → (r : Request ℕ) → Result KubeError (Response r)
reply (api_error code) r = err (api code "scripted API failure")
reply (discovery_response resource scope) (pinned_kind _ _) = ok (resource, scope)
reply (found object) (get _ _) = ok object
reply (live status) (get_status _ _) = ok status
reply (secret s) (get_secret _ _ _) = ok s
reply accepted (delete _ _ _) = ok tt
reply accepted (apply _ _ _ _ _) = ok tt
reply accepted (patch_finalizers _ _ _) = ok tt
reply accepted (patch_status _ _ _) = ok tt
reply _ r = unexpected

-- `pop_front`, after as many requests
abbrev answer_from : List Scripted → ℕ → (r : Request ℕ) → Result KubeError (Response r)
answer_from [] n r = unexpected
answer_from (s ∷ script) zero r = reply s r
answer_from (s ∷ script) (suc n) r = answer_from script n r

-- `MockApi::new`, at the time 9
abbrev pub mock_api : List Scripted → Server ℕ
mock_api script = record {
  answer = λ history. answer_from script (length history);
  now = λ history. 9;
}

-- `MockApi::finish`: the requests, if each response was consumed.
abbrev pub finish : List Scripted → List (Request ℕ) → Option (List (Request ℕ))
finish script history =
    if nat_eq (length history) (length script) then some (reverse history) else none

-- `resource_sync` of `test_support`
abbrev pub sync_fixture : ResourceSync
sync_fixture = record sync { metadata = record sync.metadata { finalizers = none } }

-- `park_watchers`: a world in which both ends are watched.
abbrev pub parked : ResourceSync → World ℕ
parked s = (start_remote_watches_if_not_watching lib {E = Error} s initial).1

-- The outcome, the requests and the collectors of a reconciliation, as its tests read them: the gauge,
-- how many times were observed, and the counters of `assert_reconcile_metrics`.
pub record Reconciled : Type 0 where
  pub result : Result Error Action
  pub requests : Option (List (Request ℕ))
  pub active_workers : ℕ
  pub observed : ℕ
  pub totals : List ℕ

abbrev total_of : ControllerMetrics → String → ℕ
total_of m label = Option.get_or (StringMap.get label m.reconcile_total) 0

unfoldable pub reconciled_by : Libraries → List Scripted → ResourceSync → Reconciled
unfolding sinker.Controller.Metered.reconcile_with_metrics sinker.Controller.Reconcile.reconcile
    sinker.Controller.Reconcile.reconcile_helper sinker.Controller.Reconcile.source_and_target_apis
    sinker.Controller.Reconcile.reconcile_with
    sinker.Controller.Reconcile.reconcile_deleted_resource sinker.Controller.Reconcile.delete_target
    sinker.Controller.Reconcile.delete_type
    sinker.Controller.Reconcile.stop_watches_and_remove_resource_sync_finalizers
    sinker.Controller.Reconcile.add_target_finalizer sinker.Controller.Reconcile.reconcile_normally
    sinker.Controller.Reconcile.target_for sinker.Controller.Reconcile.own_local_target
    sinker.Controller.Reconcile.live_status sinker.Controller.reconcile_status sinker.Exec.◌>>=◌
    sinker.Exec.◌>>◌ sinker.Exec.try sinker.Exec.convert sinker.Exec.send sinker.Exec.clock
    sinker.Exec.manage sinker.Exec.pure sinker.Exec.raise sinker.Exec.lift
    sinker.ResourceExtensions.Api.api_for sinker.ResourceExtensions.Api.cluster_client
    sinker.ResourceExtensions.Api.resolve_namespace sinker.ResourceExtensions.Api.api_scope
    sinker.Resources.group_version_kind sinker.ResourceExtensions.has_been_deleted
    sinker.ResourceExtensions.has_target_finalizer
    sinker.ResourceExtensions.finalizers_clone_or_empty sinker.ResourceExtensions.parent_api
    sinker.ResourceExtensions.start_remote_watches_if_not_watching
    sinker.ResourceExtensions.stop_remote_watches_if_watching
    sinker.Resources.has_disable_target_deletion_option_enabled
    sinker.Resources.has_force_delete_option_enabled sinker.Util.with_push
    sinker.Util.with_item_removed sinker.Mapping.clone_resource sinker.Mapping.apply_mappings
    sinker.Mapping.apply_each sinker.Mapping.strip_prefix sinker.Mapping.FieldPath.split_once
    sinker.Prelude.Option-cases sinker.Json.get sinker.Json.insert sinker.Json.index
    sinker.Metrics.complete sinker.Metrics.begin mathlib.Core.Option.bind
    sinker.Prelude.StringMap.get sinker.Error.Message.to_string
reconciled_by crates script s =
    let ((result, w), m) =
      reconcile_with_metrics crates net (mock_api script) s 0 initial default_metrics in
    record {
      result = result;
      requests = finish script w.history;
      active_workers = m.active_workers;
      observed = length m.reconcile_time.observed;
      totals = map (total_of m) results;
    }

unfoldable pub reconciled : List Scripted → ResourceSync → Reconciled
unfolding reconciled_by
reconciled = reconciled_by lib

-- `discovery_response("ConfigMap", "configmaps", true)`
abbrev pub discovered : Scripted
discovered = discovery_response configmaps namespaced

-- What the tests that call a handler alone read: the outcome, the requests, those of resolving its APIs
-- included, and how many watchers are left.
pub record Handled : Type 0 where
  pub result : Result Error Action
  pub requests : Option (List (Request ℕ))
  pub watchers : ℕ

pub data Handler : Type 0 where
  helper deleting normally : Handler

-- The handler under test, after the APIs that its test resolves on the same `MockApi`.
abbrev calls : Libraries → Server ℕ → Handler → ResourceSync → Exec ℕ Error Action
calls crates server helper s = reconcile_helper crates net server s 0 "copy-config" parent
calls crates server deleting s = do
  target ← api_for crates net server sync_fixture.spec.target "team-a" 0
  reconcile_deleted_resource crates net server s "copy-config" target parent
calls crates server normally s = do
  source ← api_for crates net server sync_fixture.spec.source "team-a" 0
  target ← api_for crates net server sync_fixture.spec.target "team-a" 0
  reconcile_normally crates net server s "copy-config" source target

unfoldable pub handled : Libraries → World ℕ → Handler → List Scripted → ResourceSync → Handled
unfolding sinker.Controller.Reconcile.reconcile_helper
    sinker.Controller.Reconcile.source_and_target_apis sinker.Controller.Reconcile.reconcile_with
    sinker.Controller.Reconcile.reconcile_deleted_resource sinker.Controller.Reconcile.delete_target
    sinker.Controller.Reconcile.delete_type
    sinker.Controller.Reconcile.stop_watches_and_remove_resource_sync_finalizers
    sinker.Controller.Reconcile.add_target_finalizer sinker.Controller.Reconcile.reconcile_normally
    sinker.Controller.Reconcile.target_for sinker.Controller.Reconcile.own_local_target
    sinker.Exec.◌>>=◌ sinker.Exec.◌>>◌ sinker.Exec.try sinker.Exec.convert sinker.Exec.send
    sinker.Exec.manage sinker.Exec.pure sinker.Exec.raise sinker.Exec.lift
    sinker.ResourceExtensions.Api.api_for sinker.ResourceExtensions.Api.cluster_client
    sinker.ResourceExtensions.Api.resolve_namespace sinker.ResourceExtensions.Api.api_scope
    sinker.Resources.group_version_kind sinker.ResourceExtensions.has_been_deleted
    sinker.ResourceExtensions.has_target_finalizer
    sinker.ResourceExtensions.finalizers_clone_or_empty
    sinker.ResourceExtensions.start_remote_watches_if_not_watching
    sinker.ResourceExtensions.stop_remote_watches_if_watching
    sinker.Resources.has_disable_target_deletion_option_enabled
    sinker.Resources.has_force_delete_option_enabled sinker.Util.with_push
    sinker.Util.with_item_removed sinker.Mapping.clone_resource sinker.Mapping.apply_mappings
    sinker.Mapping.apply_each sinker.Mapping.strip_prefix sinker.Mapping.FieldPath.split_once
    sinker.Prelude.Option-cases sinker.Json.get sinker.Json.insert sinker.Json.index
    sinker.RemoteWatcherManager.add_if_not_exists
    sinker.RemoteWatcherManager.stop_and_remove_if_exists sinker.RemoteWatcherManager.Tasks.get
    sinker.RemoteWatcherManager.Tasks.remove sinker.RemoteWatcherManager.same_key
    sinker.Prelude.Bool-cases mathlib.Core.Option.bind sinker.Prelude.StringMap.get
handled crates world h script s =
    let (result, w) = calls crates (mock_api script) h s world in
    record {
      result = result;
      requests = finish script w.history;
      watchers = length w.manager.watchers;
    }
