-- ===== src/Tests/Runs.antt =====
-- Repeated reconciliations and runs of the controller at concrete servers.
use sinker.Prelude.{
  all, true, ℕ, none, List, [], ◌∷◌, ◌≡◌, ◌≤◌, length, refl, leb, if◌then◌else◌, arith,
}
use sinker.Result.{ok, err}
use sinker.Kube.{await_change, requeue, api}
use sinker.Server.{
  get_secret, apiserver_version, pinned_kind, delete, apply, get_status, patch_status, list_syncs,
  Request, get, patch_finalizers, Server,
}
use sinker.Exec.Calm.{Calm, IsCalm}
use sinker.Controller.Panics.{reconcile-Calm}
use sinker.Exec.Keeps.{Keeps}
use sinker.Metrics.{default_metrics}
use sinker.Resources.{ResourceSync}
use sinker.ResourceExtensions.Watches.{stopped}
use sinker.Controller.Reconcile.{source_and_target_apis, reconcile, reconcile_deleted_resource}
use sinker.Controller.Justified.{Justified, reconcile-Justified}
use sinker.Controller.Managed.{Managed, reconcile-Managed}
use sinker.Controller.Bounds.{reconcile-Bounded}
use sinker.Controller.Rounds.{rounds, reconcile_deleted-ends}
use sinker.Controller.Run.{Ended, Controlled, returned, run_with_metrics}
use sinker.Controller.Run.Turns.{run_with_metrics-active}
use sinker.Controller.Requests.{while_active}
use sinker.ResourceExtensions.{has_target_finalizer}
use sinker.Controller.Run.Outcome.{Ran, listed_once, run_with_metrics_lem}
use sinker.Tests.Fixtures.{
  lib, net, sync, deleted_sync, target_api, parent, present, absent, initial, respond,
  source_config,
}

reconcile-Justified_example :
    Keeps (Justified lib net absent deleted_sync 0) (reconcile lib net absent deleted_sync 0)
unfolding sinker.Resources.has_disable_target_deletion_option_enabled
    sinker.Resources.has_force_delete_option_enabled
reconcile-Justified_example = reconcile-Justified lib net absent deleted_sync 0 refl refl

reconcile-Managed_example : Keeps Managed (reconcile lib net present sync 0)
reconcile-Managed_example = reconcile-Managed lib net present sync 0

reconcile-Bounded_example : length (reconcile lib net present sync 0 initial).1.history ≤ 10
reconcile-Bounded_example = reconcile-Bounded lib net present sync 0 initial

-- Servers on which the target is found until three requests were sent, and absent from then on.
abbrev leaving : Server ℕ
leaving = record {
  answer = λ history.
      respond (if leb 3 (length history) then err (api 404 "not found") else ok source_config);
  now = λ history. 20;
}

gone :
    (history : List (Request ℕ))
    → 3 ≤ length history
    → leaving.answer history (get target_api "target-config") ≡ err (api 404 "not found")
gone history long = ground arith

reconcile_deleted-ends_example :
    let last = rounds lib net leaving deleted_sync "copy-config" target_api parent 3 initial in
    let read = get target_api "target-config" ∷ last.history in
    reconcile_deleted_resource lib net leaving deleted_sync "copy-config" target_api parent last ≡ (
      ok await_change,
      record {
        history = patch_finalizers parent "copy-config" [] ∷ read;
        manager = stopped lib deleted_sync last.manager;
      },
    )
unfolding sinker.ResourceExtensions.has_target_finalizer
    sinker.Resources.has_disable_target_deletion_option_enabled sinker.Util.with_item_removed
    sinker.ResourceExtensions.finalizers_clone_or_empty
reconcile_deleted-ends_example =
    reconcile_deleted-ends lib net leaving deleted_sync "copy-config" target_api parent refl refl 3
      "not found" gone initial

-- A sync without a name, which fails before any request.
abbrev nameless : ResourceSync
nameless = record sync { metadata = record sync.metadata { name = none } }

-- Two ResourceSyncs are handed over, of which the second is applied.
abbrev handed_over : List ResourceSync
handed_over = nameless ∷ sync ∷ []

abbrev two_runs : Ended × Controlled ℕ
two_runs = run_with_metrics lib net present handed_over 0 [] default_metrics

present-IsCalm : IsCalm present
present-IsCalm history (get_secret _ _ _) = refl
present-IsCalm history (apiserver_version _) = refl
present-IsCalm history (pinned_kind _ _) = refl
present-IsCalm history (get _ _) = refl
present-IsCalm history (delete _ _ _) = refl
present-IsCalm history (apply _ _ _ _ _) = refl
present-IsCalm history (patch_finalizers _ _ _) = refl
present-IsCalm history (get_status _ _) = refl
present-IsCalm history (patch_status _ _ _) = refl
present-IsCalm history (list_syncs _ _) = refl

reconcile-Calm_example : Calm (reconcile lib net present sync 0)
reconcile-Calm_example =
    reconcile-Calm lib net present present-IsCalm (λ _. refl) sync refl refl refl 0

two_runs_returned : two_runs.0 ≡ returned (requeue 5000 ∷ await_change ∷ [])
unfolding run_with_metrics reconcile sinker.Exec.◌>>=◌ sinker.Exec.try
    sinker.Controller.Reconcile.reconcile_helper sinker.Controller.Reconcile.source_and_target_apis
    sinker.ResourceExtensions.Api.api_for sinker.ResourceExtensions.Api.cluster_client
    sinker.Resources.group_version_kind sinker.Exec.convert sinker.Exec.send
    sinker.Controller.Reconcile.reconcile_with sinker.ResourceExtensions.has_been_deleted
    sinker.ResourceExtensions.has_target_finalizer sinker.Controller.Reconcile.reconcile_normally
    sinker.Controller.Reconcile.target_for sinker.Mapping.clone_resource
    sinker.Controller.Reconcile.own_local_target sinker.Exec.◌>>◌
    sinker.ResourceExtensions.start_remote_watches_if_not_watching sinker.Exec.manage
    sinker.Controller.Reconcile.live_status sinker.Exec.clock sinker.Controller.reconcile_status
two_runs_returned = refl

run_with_metrics_lem_example :
    Ran lib net present handed_over 0
      (listed_once lib net present 0 [] default_metrics)
      two_runs.1
      (requeue 5000 ∷ await_change ∷ [])
    × (two_runs.1.world.manager.watchers ≡ [])
    × (two_runs.1.world.manager.running ≡ [])
run_with_metrics_lem_example =
    run_with_metrics_lem lib net present handed_over 0 [] default_metrics
      (requeue 5000 ∷ await_change ∷ []) two_runs_returned

run_with_metrics-active_example : all while_active two_runs.1.world.history ≡ true
unfolding sinker.ResourceExtensions.has_been_deleted
run_with_metrics-active_example =
    run_with_metrics-active lib net present handed_over 0 default_metrics (refl, (refl, tt))
