-- ===== src/Tests/Controllers.antt =====
-- Reconciliations of a sync at concrete servers.
use sinker.Prelude.{
  List, length, ◌+◌, ◌==◌, if◌then◌else◌, ℕ, String, none, some, [], ◌∷◌, ◌≡◌, ◌≢◌, refl,
}
use sinker.Result.{panic, Result, ◌>>=◌ as ◌>>>=◌, ok, err}
use sinker.Prelude.StringMap
use mathlib.Core.Option
use sinker.Error.{Error, name_required}
use sinker.Kube.{Action, await_change}
use sinker.Server.{Request, get_status, patch_status, World, get_secret}
use sinker.Exec.Sends.{Sends}
use sinker.Metrics.{default_metrics}
use sinker.Metrics.Balance.{counted}
use sinker.Controller.Reporting.{reconcile_reports}
use sinker.Controller.Metered.{reconcile_with_metrics, reconcile_with_metrics_lem}
use sinker.Controller.Replica.{replica, target_for-own_local_target}
use sinker.Resources.{
  ResourceSyncStatus, force_delete_annotation, ClusterRef, ResourceSync, ClusterResourceRef,
}
use sinker.ResourceExtensions.{verify_kubeconfig_secret_access}
use sinker.ResourceExtensions.Api.{cluster_client, api_for}
use sinker.ResourceExtensions.Access.{
  Allows, verify_kubeconfig_secret_access_iff, cluster_client_denied,
}
use sinker.Controller.Reconcile.{
  target_for, own_local_target, reconcile_helper, reconcile, reconcile_deleted_resource,
  reconcile_normally,
}
use sinker.Controller.Requests.{
  while_active, while_deleting, leaves_targets, reconcile-active, reconcile-deleting,
  reconcile-unguarded,
}
use sinker.Controller.{reconcile_status}
use sinker.Controller.Status.{status_of, transition_time, transition_kept}
use sinker.Tests.Fixtures.{
  lib, lib-NewObject, source_config, net, sync, deleted_sync, target_api, parent, present, absent,
  initial, guarded,
}

reconcile-active_example : Sends while_active (reconcile lib net present sync 0)
unfolding sinker.ResourceExtensions.has_been_deleted
reconcile-active_example = reconcile-active lib net present sync 0 refl

reconcile-deleting_example : Sends while_deleting (reconcile lib net absent deleted_sync 0)
unfolding sinker.ResourceExtensions.has_been_deleted
reconcile-deleting_example = reconcile-deleting lib net absent deleted_sync 0 refl

-- A live sync that has no finalizers yet.
abbrev unfinalized : ResourceSync
unfinalized = record sync { metadata = record sync.metadata { finalizers = none } }

reconcile-unguarded_example : Sends leaves_targets (reconcile lib net present unfinalized 0)
unfolding sinker.ResourceExtensions.has_target_finalizer
reconcile-unguarded_example = reconcile-unguarded lib net present unfinalized 0 refl

-- A reference to a cluster through a Secret of another namespace.
abbrev elsewhere : ClusterRef
elsewhere = record {
  namespace = none;
  kube_config = record {
    secret_ref = record { name = "credentials"; namespace = some "vault"; key = "config" };
  };
}

guarded_denies : ¬ Allows lib "team-a" guarded
unfolding verify_kubeconfig_secret_access StringMap.get Option.bind
guarded_denies a = cc ((verify_kubeconfig_secret_access_iff lib "team-a" guarded).1 a)

vault_ne : ◌≢◌ {A = String} "vault" "team-a"
vault_ne e = cc e

cluster_client_denied_example :
    ((c : ℕ) → (cluster_client lib net present (some elsewhere) "team-a" 0 initial).0 ≢ ok c)
    × ((cluster_client lib net present (some elsewhere) "team-a" 0 initial).1.history
        ≡ get_secret 0 "vault" "credentials" ∷ [])
cluster_client_denied_example =
    cluster_client_denied lib net present elsewhere "team-a" 0 guarded initial refl vault_ne
      guarded_denies

transition_kept_example :
    transition_time (
      reconcile_status lib 30 sync
        (reconcile_status lib 20 sync none (err name_required))
        (err name_required))
    ≡ transition_time (reconcile_status lib 20 sync none (err name_required))
unfolding sinker.ResourceExtensions.has_been_deleted
transition_kept_example =
    transition_kept lib 20 30 sync sync none (err name_required) (err name_required) refl refl

target_for-own_local_target_example :
    (target_for lib sync target_api source_config
      >>>= own_local_target sync "copy-config" sync.spec.target.cluster)
    ≡ ok (replica sync "copy-config" "sync-uid" target_api source_config)
target_for-own_local_target_example =
    target_for-own_local_target lib lib-NewObject sync "copy-config" target_api source_config refl
      refl

-- A sync without a name fails before any request.
abbrev unnamed : ResourceSync
unnamed = record sync { metadata = record sync.metadata { name = none } }

reconcile_with_metrics_lem_example :
    ((reconcile_with_metrics lib net present unnamed 0 initial default_metrics).0
      ≡ reconcile lib net present unnamed 0 initial)
    × ((reconcile_with_metrics lib net present unnamed 0 initial default_metrics).1.active_workers
        ≡ 0)
    × (length
          (reconcile_with_metrics lib net present unnamed 0 initial
            default_metrics).1.reconcile_time.observed
        ≡ 1)
    × ((other : String)
        → counted other
            (reconcile_with_metrics lib net present unnamed 0 initial
              default_metrics).1.reconcile_total
          ≡ (if "error" == other
              then counted other default_metrics.reconcile_total + 1
              else counted other default_metrics.reconcile_total))
unfolding sinker.Metrics.outcome reconcile sinker.Exec.◌>>=◌
reconcile_with_metrics_lem_example =
    reconcile_with_metrics_lem lib net present unnamed 0 initial default_metrics "error" refl

-- The reconciliation of a live sync, whose status is none before.
abbrev ran : Result Error Action × World ℕ
ran = reconcile_helper lib net present sync 0 "copy-config" parent initial

abbrev status_read : List (Request ℕ)
status_read = get_status parent "copy-config" ∷ ran.1.history

abbrev status_now : ResourceSyncStatus
status_now = status_of lib 20 sync none ran.0

ran_ok : ran.0 ≡ ok await_change
unfolding reconcile_helper sinker.Exec.◌>>=◌ sinker.Exec.◌>>◌ sinker.Exec.try sinker.Exec.lift
    sinker.Exec.pure sinker.Exec.manage sinker.Controller.Reconcile.source_and_target_apis api_for
    cluster_client sinker.Resources.group_version_kind sinker.Exec.convert sinker.Exec.send
    sinker.Controller.Reconcile.reconcile_with sinker.ResourceExtensions.has_been_deleted
    sinker.ResourceExtensions.has_target_finalizer reconcile_normally target_for
    sinker.Mapping.clone_resource own_local_target
    sinker.ResourceExtensions.start_remote_watches_if_not_watching
ran_ok = refl

ran_returned : ran.0 ≢ panic
ran_returned e = cc (ran_ok, e)

reconcile_reports_example : reconcile lib net present sync 0 initial ≡ (
  ran.0,
  record {
    history = patch_status parent "copy-config" status_now ∷ status_read;
    manager = ran.1.manager;
  },
)
unfolding sinker.ResourceExtensions.has_been_deleted sinker.ResourceExtensions.parent_api
reconcile_reports_example =
    reconcile_reports lib net present sync 0 "copy-config" initial none refl refl ran_returned refl
