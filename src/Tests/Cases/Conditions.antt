-- ===== src/Tests/Cases/Conditions.antt =====
-- The unit tests of src/controller.rs on the status, and of src/resources.rs on the option annotations.
use mathlib.Core.Option
use sinker.Prelude.{◌≡◌, refl, ℕ, String, Bool, true, false, Option, none, some, List, [], ◌∷◌, map}
use sinker.Prelude.StringMap.{StringMap}
use sinker.Result.{Result, ok, err}
use sinker.Error.{Error, name_required, namespace_required}
use sinker.Kube.{Condition, Time, Action, await_change, default_meta}
use sinker.Resources.{
  ResourceSync, ResourceSyncStatus, force_delete_annotation, disable_target_deletion_annotation,
  has_force_delete_option_enabled, has_disable_target_deletion_option_enabled,
}
use sinker.Controller.{
  failing_condition, succeeded_reason, sync_failing_transition_time, reconcile_status,
}
use sinker.Tests.Fixtures.{lib, sync}

-- `status_with_condition`
abbrev condition : String → Condition
condition value = record {
  last_transition_time = 0;
  message = "";
  observed_generation = none;
  reason = "";
  status = value;
  type_ = failing_condition;
}

abbrev pub status_with_condition : String → Option ResourceSyncStatus
status_with_condition value = some (record { conditions = some (condition value ∷ []) })

-- `test_sync_failing_transition_time`, at the time 9
abbrev transition_cases : List (Option ResourceSyncStatus × String)
transition_cases =
    (none, "True")
    ∷ (some (record { conditions = none }), "True")
    ∷ (some (record { conditions = some [] }), "True")
    ∷ (status_with_condition "True", "True")
    ∷ (status_with_condition "False", "False")
    ∷ (status_with_condition "False", "True")
    ∷ (status_with_condition "True", "False")
    ∷ []

abbrev transition : Option ResourceSyncStatus × String → Time
transition (status, value) = sync_failing_transition_time 9 status value

transition_cases_pass : map transition transition_cases ≡ 9 ∷ 9 ∷ 9 ∷ 0 ∷ 0 ∷ 9 ∷ 9 ∷ []
unfolding sync_failing_transition_time Option.bind
transition_cases_pass = refl

-- `transition_time_finds_the_sync_condition_among_other_conditions`
abbrev matching : Condition
matching = record (condition "True") { last_transition_time = 1700000000 }

abbrev unrelated : Condition
unrelated = record (condition "True") { type_ = "Unrelated" }

abbrev another : Condition
another = record (condition "False") { type_ = "AnotherCondition" }

abbrev position_cases : List (List Condition)
position_cases =
    (matching ∷ unrelated ∷ another ∷ [])
    ∷ (unrelated ∷ matching ∷ another ∷ [])
    ∷ (unrelated ∷ another ∷ matching ∷ [])
    ∷ []

abbrev find_among : List Condition → Time
find_among conditions =
    sync_failing_transition_time 9 (some (record { conditions = some conditions })) "True"

position_cases_pass : map find_among position_cases ≡ 1700000000 ∷ 1700000000 ∷ 1700000000 ∷ []
unfolding sync_failing_transition_time Option.bind
position_cases_pass = refl

-- `resource_sync` of these tests, and the four of `reconcile_status`
abbrev sync_with : Option Time → Option ResourceSyncStatus → ResourceSync
sync_with deleted status = record sync {
  metadata = record default_meta { deletion_timestamp = deleted };
  status = status;
}

abbrev reported_status :
    Option Time → Option ResourceSyncStatus → Result Error Action → Option ResourceSyncStatus
reported_status deleted live result =
    reconcile_status lib 9 (sync_with deleted (status_with_condition "True")) live result

abbrev reported_condition : Time → String → String → String → Option ResourceSyncStatus
reported_condition time value reason message = some (record {
  conditions = some (
      record {
        last_transition_time = time;
        message = message;
        observed_generation = none;
        reason = reason;
        status = value;
        type_ = failing_condition;
      }
      ∷ []);
})

reconcile_status_cases_pass :
    reported_status none none (err name_required)
      ∷ reported_status none (status_with_condition "True") (ok await_change)
      ∷ reported_status none (status_with_condition "False") (ok await_change)
      ∷ reported_status (some 0) (status_with_condition "True") (ok await_change)
      ∷ []
    ≡ reported_condition 9 "True" failing_condition "Name is required"
      ∷ reported_condition 9 "False" succeeded_reason "Sync succeeded"
      ∷ reported_condition 0 "False" succeeded_reason "Sync succeeded"
      ∷ none
      ∷ []
unfolding reconcile_status Option.bind sinker.Error.Message.to_string
reconcile_status_cases_pass = refl

-- `deletion_errors_still_update_status_and_ignore_unrelated_conditions`
abbrev failed_deletion : Option ResourceSyncStatus
failed_deletion =
    let s = sync_with (some 0) none in
    reconcile_status lib 9 (record s { metadata = record s.metadata { generation = some 9 } })
      (some (record {
        conditions = some (record (condition "True") { type_ = "OtherCondition" } ∷ []);
      }))
      (err namespace_required)

abbrev failed_condition : Condition
failed_condition = record {
  last_transition_time = 9;
  message = "Namespace is required";
  observed_generation = some 9;
  reason = failing_condition;
  status = "True";
  type_ = failing_condition;
}

failed_deletion_pass : failed_deletion ≡ some (record { conditions = some (failed_condition ∷ []) })
unfolding reconcile_status Option.bind sinker.Error.Message.to_string
failed_deletion_pass = refl

-- `option_flags_require_exact_true`
abbrev inexact : List String
inexact = "TRUE" ∷ "True" ∷ "1" ∷ " true " ∷ "" ∷ []

abbrev flags : Option (StringMap String) → Bool × Bool
flags annotations =
    let annotated = record sync { metadata = record sync.metadata { annotations = annotations } } in
    (
      has_force_delete_option_enabled annotated,
      has_disable_target_deletion_option_enabled annotated,
    )

abbrev both_flags : String → Bool × Bool
both_flags value =
    flags
      (some ((force_delete_annotation, value) ∷ (disable_target_deletion_annotation, value) ∷ []))

inexact_flags_pass :
    map both_flags inexact
    ≡ (false, false) ∷ (false, false) ∷ (false, false) ∷ (false, false) ∷ (false, false) ∷ []
unfolding has_force_delete_option_enabled sinker.Prelude.StringMap.get
    has_disable_target_deletion_option_enabled
inexact_flags_pass = refl

-- `gen_option_flag_tests!`
abbrev flag_cases : List (Option (List (String × String)))
flag_cases =
    none
    ∷ some []
    ∷ some ((force_delete_annotation, "false") ∷ [])
    ∷ some ((force_delete_annotation, "other") ∷ [])
    ∷ some ((force_delete_annotation, "true") ∷ [])
    ∷ some ((disable_target_deletion_annotation, "false") ∷ [])
    ∷ some ((disable_target_deletion_annotation, "other") ∷ [])
    ∷ some ((disable_target_deletion_annotation, "true") ∷ [])
    ∷ []

flag_cases_pass :
    map flags flag_cases
    ≡ (false, false)
      ∷ (false, false)
      ∷ (false, false)
      ∷ (false, false)
      ∷ (true, false)
      ∷ (false, false)
      ∷ (false, false)
      ∷ (false, true)
      ∷ []
unfolding has_force_delete_option_enabled has_disable_target_deletion_option_enabled
    sinker.Prelude.StringMap.get
flag_cases_pass = refl
