-- ===== src/Tests/Cases/Applying.antt =====
-- The unit tests of src/controller.rs on the write of the target.
use sinker.Prelude.{
  ◌≡◌, refl, String, Bool, true, false, none, some, List, [], ◌∷◌, map, ◌==◌, if◌then◌else◌,
}
use sinker.Result.{Result, ok, err}
use sinker.Json.{Value, string, object, field, end, index}
use sinker.Error.{Error, kube_error, uid_required, mapping_empty, namespace_required}
use sinker.Error.Message.{to_string}
use sinker.Kube.{Action, await_change, requeue, api, DynamicObject, default_meta, OwnerReference}
use sinker.Kube.Libraries.{Libraries}
use sinker.Resources.{ResourceSync, ClusterRef, Mapping}
use sinker.Server.{get, apply}
use sinker.ResourceExtensions.{finalizer}
use sinker.Controller.{error_policy, failing_condition}
use sinker.Tests.Fixtures.{lib, target_api, initial}
use sinker.Tests.Script.{
  api_error, found, live, accepted, discovered, Handled, normally, handled, parked, sync_fixture,
  Reconciled, reconciled_by,
}
use sinker.Tests.Cases.Reconciling.{discovery, status_read, status_write, written}

-- The tests' paths, as the JSONPath crate reads them.
abbrev query : String → Result String (Value → List Value)
query path =
    if path == "$"
    then ok (λ v. v ∷ [])
    else if path == "$.data.original"
    then ok (λ v. index (index v "data") "original" ∷ [])
    else if path == "$.data.key"
    then ok (λ v. index (index v "data") "key" ∷ [])
    else err "invalid path"

abbrev crates : Libraries
crates = record lib { parse_json_path = query }

abbrev data_of : String → String → Value
data_of key value = object (field "data" (object (field key (string value) end)) end)

-- `target_apply_uses_forced_field_manager_and_local_ownership`: whether there are mappings and whether
-- the target is remote
abbrev apply_cases : List (Bool × Bool)
apply_cases = (false, false) ∷ (true, false) ∷ (false, true) ∷ (true, true) ∷ []

abbrev default_cluster : ClusterRef
default_cluster = record {
  namespace = none;
  kube_config = record { secret_ref = record { name = ""; namespace = none; key = "" } };
}

abbrev source_object : Value → DynamicObject
source_object payload = record {
  types = some (record { api_version = "v1"; kind = "ConfigMap" });
  metadata = record default_meta { name = some "source-config" };
  payload = payload;
}

abbrev apply_sync : Bool × Bool → ResourceSync
apply_sync (mapped, remote) = record sync_fixture {
  spec = record sync_fixture.spec {
    mappings =
        if mapped
        then record { from_field_path = some "data.original"; to_field_path = some "data.copied" }
          ∷ []
        else [];
    target = record sync_fixture.spec.target {
      cluster = if remote then some default_cluster else none;
    };
  };
}

abbrev apply_target : Bool × Bool → Handled
apply_target c =
    handled crates (parked (apply_sync c)) normally
      (discovered ∷ discovered ∷ found (source_object (data_of "original" "value")) ∷ accepted ∷ [])
      (apply_sync c)

abbrev owner : OwnerReference
owner = record {
  api_version = "sinker.influxdata.io/v1alpha1";
  kind = "ResourceSync";
  name = "copy-config";
  uid = "sync-uid";
  controller = some false;
  block_owner_deletion = some true;
}

-- The object of the patch.
abbrev applied_object : Bool × Bool → DynamicObject
applied_object (mapped, remote) = record {
  types = some (record { api_version = "v1"; kind = "ConfigMap" });
  metadata = record default_meta {
    name = some "target-config";
    namespace = some "team-a";
    owner_references = if remote then none else some (owner ∷ []);
  };
  payload = data_of (if mapped then "copied" else "original") "value";
}

abbrev applied_target : Bool × Bool → Handled
applied_target c = record {
  result = ok await_change;
  requests = some (
      discovery
      ∷ discovery
      ∷ get target_api "source-config"
      ∷ apply target_api "target-config" "sinker.influxdata.io" true (applied_object c)
      ∷ []);
  watchers = 2;
}

apply_cases_pass : map apply_target apply_cases ≡ map applied_target apply_cases
unfolding handled
apply_cases_pass = refl

-- `target_write_failures_are_returned`, by whether the sync has a uid
abbrev write_target : Bool → Handled
write_target uid_present =
    handled crates initial normally
      (discovered
        ∷ discovered
        ∷ found (source_object (data_of "key" "value"))
        ∷ (if uid_present then api_error 409 ∷ [] else []))
      (record sync_fixture {
        metadata = record sync_fixture.metadata {
          uid = if uid_present then some "sync-uid" else none;
        };
      })

abbrev write_result : Bool → Result Error Action
write_result uid_present =
    if uid_present then err (kube_error (api 409 "scripted API failure")) else err uid_required

abbrev result_of : Handled → Result Error Action
result_of h = h.result

write_cases_pass :
    map (λ uid. result_of (write_target uid)) (false ∷ true ∷ [])
    ≡ map write_result (false ∷ true ∷ [])
unfolding handled
write_cases_pass = refl

-- `invalid_mappings_skip_target_write_and_report_failure`
abbrev invalid_mappings : List Mapping
invalid_mappings =
    record { from_field_path = some "data.key"; to_field_path = some "data.copied" }
    ∷ record { from_field_path = none; to_field_path = none }
    ∷ record { from_field_path = some "invalid["; to_field_path = some "data.later" }
    ∷ []

abbrev map_invalid : Reconciled
map_invalid =
    reconciled_by crates
      (discovered
        ∷ discovered
        ∷ found (source_object (data_of "key" "value"))
        ∷ live none
        ∷ accepted
        ∷ [])
      (record sync_fixture {
        metadata = record sync_fixture.metadata { finalizers = some (finalizer ∷ []) };
        spec = record sync_fixture.spec { mappings = invalid_mappings };
      })

map_invalid_pass : map_invalid ≡ record {
  result = err mapping_empty;
  requests = some (
      discovery
      ∷ discovery
      ∷ get target_api "source-config"
      ∷ status_read
      ∷ status_write (written 9 "True" failing_condition (to_string crates mapping_empty))
      ∷ []);
  active_workers = 0;
  observed = 1;
  totals = 0 ∷ 1 ∷ 0 ∷ 0 ∷ [];
}
unfolding reconciled_by
map_invalid_pass = refl

-- `reconciliation_errors_retry_after_five_seconds`
abbrev retried : Action
retried = error_policy sync_fixture namespace_required

retried_pass : retried ≡ requeue 5000
retried_pass = refl
