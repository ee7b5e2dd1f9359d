-- ===== src/Controller.antt =====
-- src/controller.rs: the reconciliation of a ResourceSync. Logging is left out.
pub mod Reconcile
mod Rules
pub mod Requests
pub mod Status
pub mod Deletion
pub mod Metered
pub mod Replica
pub mod Made
pub mod Justified
pub mod Managing
pub mod Managed
pub mod Apart
pub mod Overlap
pub mod Run
pub mod Bounds
pub mod Rounds
pub mod Panics
pub mod Moves
pub mod Lifecycle
pub mod Progress
pub mod Reporting
pub mod Confined
use mathlib.Core.Option
use sinker.Prelude.{
  ℕ, String, Bool, true, false, not, ◌||◌, Option, none, some, List, [], ◌∷◌, ◌++◌, find, nat_eq,
  ◌==◌, if◌then◌else◌, ◌&&◌,
}
use sinker.Result.{Result, ok, err, map_err, ok_or, unwrap, is_err}
use sinker.Error.{
  Error, kube_error, name_required, uid_required, namespace_required, resource_not_found_error,
}
use sinker.Error.Message.{to_string}
use sinker.Kube.{
  DynamicObject, ObjectMeta, OwnerReference, KubeError, api, Condition, Action, await_change,
  requeue, Time, ApiResource,
}
use sinker.Kube.Libraries.{Libraries}
use sinker.Resources.{
  ResourceSync, ResourceSyncStatus, ClusterRef, Mapping, has_force_delete_option_enabled,
  has_disable_target_deletion_option_enabled,
}
use sinker.Util.{with_item_removed, with_push, requeue_after}
use sinker.Mapping.{clone_resource, apply_mappings}
use sinker.Server.{
  NamespacedApi, ParentApi, Propagation, background, foreground, Server, get, delete, apply,
  patch_finalizers, get_status, patch_status,
}
use sinker.Exec.{Exec, pure, raise, lift, try, convert, send, clock, ◌>>=◌, ◌>>◌}
use sinker.ResourceExtensions.{
  Connections, finalizer, is_some, has_been_deleted, has_target_finalizer,
  finalizers_clone_or_empty, parent_api, start_remote_watches_if_not_watching,
  stop_remote_watches_if_watching,
}
use sinker.ResourceExtensions.Api.{api_for}

abbrev pub failing_condition : String
failing_condition = "ResourceSyncFailing"

abbrev pub succeeded_reason : String
succeeded_reason = "ResourceSyncSucceeded"

-- What the `kube` attribute of src/resources.rs gives ResourceSync.
abbrev pub sync_group : String
sync_group = "sinker.influxdata.io"

abbrev pub sync_api_version : String
sync_api_version = "sinker.influxdata.io/v1alpha1"

abbrev pub sync_kind : String
sync_kind = "ResourceSync"

-- The condition of the live status that the new one replaces, if its value is unchanged.
abbrev unchanged : String → Option Condition → Option Condition
unchanged new_status none = none
unchanged new_status (some c) = if c.status == new_status then some c else none

abbrev conditions_of : Option ResourceSyncStatus → Option (List Condition)
conditions_of none = none
conditions_of (some status) = status.conditions

-- The `now` that the source reads first is an argument.
unfoldable pub sync_failing_transition_time : Time → Option ResourceSyncStatus → String → Time
sync_failing_transition_time now status new_status =
    let previous = Option.bind (conditions_of status) (find (λ c. c.type_ == failing_condition)) in
    Option.get_or (Option.map (λ c. c.last_transition_time) (unchanged new_status previous)) now

unfoldable pub sync_failing_condition :
    Time → ResourceSync → Option ResourceSyncStatus → String → String → String → Condition
unfolding sync_failing_transition_time
sync_failing_condition now sync live_status status reason message = record {
  last_transition_time = sync_failing_transition_time now live_status status;
  message = message;
  observed_generation = sync.metadata.generation;
  reason = reason;
  status = status;
  type_ = failing_condition;
}

unfoldable pub reconcile_status :
    Libraries
    → Time
    → ResourceSync
    → Option ResourceSyncStatus
    → Result Error Action
    → Option ResourceSyncStatus
unfolding sync_failing_condition has_been_deleted
reconcile_status lib now sync live_status (err e) = some (record {
  conditions =
      some (
        sync_failing_condition now sync live_status "True" failing_condition (to_string lib e)
        ∷ []);
})
reconcile_status lib now sync live_status _ =
    if has_been_deleted sync
    then none
    else some (record {
      conditions = some (
          sync_failing_condition now sync live_status "False" succeeded_reason "Sync succeeded"
          ∷ []);
    })

-- `error_policy`
abbrev pub error_policy : ResourceSync → Error → Action
error_policy sync e = requeue 5000
