-- ===== src/Tests/Cases/Reconciling.antt =====
-- The unit tests of src/controller.rs on whole reconciliations, with their collectors.
use sinker.Prelude.{
  ◌≡◌, refl, ℕ, String, Bool, true, false, Option, none, some, List, [], ◌∷◌, map, if◌then◌else◌,
}
use sinker.Result.{Result, ok, err}
use sinker.Error.{Error, kube_error, name_required, resource_not_found_error}
use sinker.Error.Message.{to_string}
use sinker.Kube.{Action, await_change, requeue, api, Condition}
use sinker.Server.{Request, pinned_kind, get, patch_finalizers, get_status, patch_status}
use sinker.ResourceExtensions.{finalizer}
use sinker.Controller.{failing_condition, succeeded_reason}
use sinker.Tests.Fixtures.{lib, target_api, parent}
use sinker.Tests.Script.{
  api_error, live, accepted, discovered, Reconciled, reconciled, sync_fixture,
}
use sinker.Tests.Cases.Conditions.{status_with_condition}

-- `GET /api/v1`
abbrev pub discovery : Request ℕ
discovery = pinned_kind 0 (record { group = ""; version = "v1"; kind = "ConfigMap" })

-- `PATCH` of SYNC_PATH, and `GET` and `PATCH` of STATUS_PATH
abbrev pub sync_patch : List String → Request ℕ
sync_patch = patch_finalizers parent "copy-config"

abbrev pub status_read : Request ℕ
status_read = get_status parent "copy-config"

abbrev pub status_write : Condition → Request ℕ
status_write c = patch_status parent "copy-config" (record { conditions = some (c ∷ []) })

-- The condition that is written, of the generation 7.
abbrev pub written : ℕ → String → String → String → Condition
written time value reason message = record {
  last_transition_time = time;
  message = message;
  observed_generation = some 7;
  reason = reason;
  status = value;
  type_ = failing_condition;
}

-- `assert_reconcile_metrics`
abbrev counted_once : Result Error Action → Option (List (Request ℕ)) → List ℕ → Reconciled
counted_once result requests totals = record {
  result = result;
  requests = requests;
  active_workers = 0;
  observed = 1;
  totals = totals;
}

-- `initialization_preserves_finalizers_and_writes_live_success_status`
abbrev initialized : Reconciled
initialized =
    reconciled
      (discovered ∷ discovered ∷ accepted ∷ live (status_with_condition "False") ∷ accepted ∷ [])
      (record sync_fixture {
        metadata = record sync_fixture.metadata { finalizers = some ("example.com/other" ∷ []) };
        status = status_with_condition "True";
      })

initialized_pass :
    initialized
    ≡ counted_once
        (ok (requeue 500))
        (some (
          discovery
          ∷ discovery
          ∷ sync_patch ("example.com/other" ∷ finalizer ∷ [])
          ∷ status_read
          ∷ status_write (written 0 "False" succeeded_reason "Sync succeeded")
          ∷ []))
        (0 ∷ 0 ∷ 0 ∷ 1 ∷ [])
unfolding reconciled
initialized_pass = refl

-- `deleted_missing_target_removes_only_our_finalizer_and_skips_status`
abbrev cleaned_up : Reconciled
cleaned_up =
    reconciled (discovered ∷ discovered ∷ api_error 404 ∷ accepted ∷ []) (record sync_fixture {
      metadata = record sync_fixture.metadata {
        deletion_timestamp = some 0;
        finalizers = some (finalizer ∷ "example.com/keep" ∷ finalizer ∷ []);
      };
    })

cleaned_up_pass :
    cleaned_up
    ≡ counted_once
        (ok await_change)
        (some (
          discovery
          ∷ discovery
          ∷ get target_api "target-config"
          ∷ sync_patch ("example.com/keep" ∷ [])
          ∷ []))
        (1 ∷ 0 ∷ 0 ∷ 0 ∷ [])
unfolding reconciled
cleaned_up_pass = refl

-- `source_failure_is_returned_and_written_to_status`
abbrev source_failed : Reconciled
source_failed =
    reconciled
      (discovered
        ∷ discovered
        ∷ api_error 404
        ∷ live (status_with_condition "True")
        ∷ accepted
        ∷ [])
      (record sync_fixture {
        metadata = record sync_fixture.metadata { finalizers = some (finalizer ∷ []) };
      })

abbrev source_missing : Error
source_missing =
    resource_not_found_error "source-config" "ConfigMap" (api 404 "scripted API failure")

source_failed_pass :
    source_failed
    ≡ counted_once
        (err source_missing)
        (some (
          discovery
          ∷ discovery
          ∷ get target_api "source-config"
          ∷ status_read
          ∷ status_write (written 0 "True" failing_condition (to_string lib source_missing))
          ∷ []))
        (0 ∷ 1 ∷ 0 ∷ 0 ∷ [])
unfolding reconciled
source_failed_pass = refl

-- `status_api_errors_are_returned`, by whether the status is written
abbrev status_denied : Bool → Reconciled
status_denied write =
    reconciled
      (discovered
        ∷ discovered
        ∷ accepted
        ∷ (if write then live none ∷ api_error 403 ∷ [] else api_error 403 ∷ []))
      sync_fixture

abbrev status_denied_requests : Bool → List (Request ℕ)
status_denied_requests write =
    discovery
    ∷ discovery
    ∷ sync_patch (finalizer ∷ [])
    ∷ status_read
    ∷ (if write
        then status_write (written 9 "False" succeeded_reason "Sync succeeded") ∷ []
        else [])

abbrev denied_once : Bool → Reconciled
denied_once write =
    counted_once (err (kube_error (api 403 "scripted API failure")))
      (some (status_denied_requests write)) (0 ∷ 1 ∷ 0 ∷ 0 ∷ [])

status_denied_cases_pass :
    map status_denied (false ∷ true ∷ []) ≡ map denied_once (false ∷ true ∷ [])
unfolding reconciled
status_denied_cases_pass = refl

-- `early_validation_failure_counts_as_a_reconciliation_error`
abbrev early_failure : Reconciled
early_failure =
    reconciled [] (record sync_fixture { metadata = record sync_fixture.metadata { name = none } })

early_failure_pass : early_failure ≡ counted_once (err name_required) (some []) (0 ∷ 1 ∷ 0 ∷ 0 ∷ [])
unfolding reconciled
early_failure_pass = refl
