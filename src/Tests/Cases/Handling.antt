-- ===== src/Tests/Cases/Handling.antt =====
-- The unit tests of src/controller.rs that call one handler.
use sinker.Prelude.{
  ◌≡◌, refl, ℕ, String, Bool, true, false, Option, none, some, List, [], ◌∷◌, map, if◌then◌else◌,
}
use sinker.Result.{Result, ok, err}
use sinker.Error.{Error, kube_error, namespace_required}
use sinker.Kube.{Action, await_change, api, DynamicObject, default_meta, Time}
use sinker.Json.{null}
use sinker.Resources.{force_delete_annotation, disable_target_deletion_annotation}
use sinker.Server.{Request, get, delete, Propagation, background, foreground}
use sinker.ResourceExtensions.{finalizer}
use sinker.Tests.Fixtures.{lib, target_api, initial}
use sinker.Tests.Script.{
  Scripted, api_error, found, accepted, discovered, Handled, helper, deleting, handled, parked,
  sync_fixture,
}
use sinker.Tests.Cases.Reconciling.{discovery, sync_patch}

abbrev target_read : Request ℕ
target_read = get target_api "target-config"

abbrev denied : ℕ → Result Error Action
denied code = err (kube_error (api code "scripted API failure"))

abbrev flag : Bool → String
flag true = "true"
flag false = "false"

-- `deleted.then(|| EPOCH.clone())`
abbrev epoch_if : Bool → Option Time
epoch_if true = some 0
epoch_if false = none

-- `force_delete_only_bypasses_api_resolution_for_deleting_syncs`
record Forced : Type 0 where
  deleted : Bool
  force : Bool
  source_failure : Bool
  removed : Bool

abbrev forced_cases : List Forced
forced_cases =
    record { deleted = true; force = true; source_failure = false; removed = true }
    ∷ record { deleted = true; force = true; source_failure = true; removed = true }
    ∷ record { deleted = true; force = false; source_failure = false; removed = false }
    ∷ record { deleted = false; force = true; source_failure = false; removed = false }
    ∷ []

abbrev force_delete : Forced → Handled
force_delete c =
    let patched : List Scripted = if c.removed then accepted ∷ [] else [] in
    handled lib initial helper
      (if c.source_failure then discovered ∷ api_error 403 ∷ patched else api_error 403 ∷ patched)
      (record sync_fixture {
        metadata = record sync_fixture.metadata {
          deletion_timestamp = epoch_if c.deleted;
          finalizers = some (finalizer ∷ "example.com/keep" ∷ []);
          annotations = some ((force_delete_annotation, flag c.force) ∷ []);
        };
      })

abbrev force_deleted : Forced → Handled
force_deleted c =
    let patched : List (Request ℕ) =
      if c.removed then sync_patch ("example.com/keep" ∷ []) ∷ [] else [] in
    record {
      result = if c.removed then ok await_change else denied 403;
      requests =
          some (if c.source_failure then discovery ∷ discovery ∷ patched else discovery ∷ patched);
      watchers = 0;
    }

forced_cases_pass : map force_delete forced_cases ≡ map force_deleted forced_cases
unfolding handled
forced_cases_pass = refl

-- `target_deletion_waits_for_absence`
record Deletion : Type 0 where
  finalizers : Option (List String)
  deleting : Bool
  propagation : Option Propagation

abbrev deletion_cases : List Deletion
deletion_cases =
    record { finalizers = none; deleting = false; propagation = some foreground }
    ∷ record { finalizers = some []; deleting = false; propagation = some foreground }
    ∷ record {
      finalizers = some ("example.com/target" ∷ []);
      deleting = false;
      propagation = some background;
    }
    ∷ record { finalizers = some ("example.com/target" ∷ []); deleting = true; propagation = none }
    ∷ []

abbrev target_of : Deletion → DynamicObject
target_of c = record {
  types = none;
  metadata = record default_meta {
    name = some "target-config";
    finalizers = c.finalizers;
    deletion_timestamp = epoch_if c.deleting;
  };
  payload = null;
}

abbrev delete_response : Option Propagation → List Scripted
delete_response none = []
delete_response (some _) = accepted ∷ []

abbrev delete_requests : Option Propagation → List (Request ℕ)
delete_requests none = []
delete_requests (some propagation) = delete target_api "target-config" propagation ∷ []

abbrev delete_found : Deletion → Handled
delete_found c =
    handled lib (parked sync_fixture) deleting
      (discovered ∷ found (target_of c) ∷ delete_response c.propagation)
      (record sync_fixture {
        metadata = record sync_fixture.metadata {
          deletion_timestamp = some 0;
          finalizers = some (finalizer ∷ []);
        };
      })

abbrev waiting : Deletion → Handled
waiting c = record {
  result = ok await_change;
  requests = some (discovery ∷ target_read ∷ delete_requests c.propagation);
  watchers = 2;
}

deletion_cases_pass : map delete_found deletion_cases ≡ map waiting deletion_cases
unfolding handled
deletion_cases_pass = refl

-- `cleanup_can_skip_target_requests`, by whether our finalizer is there and deletion is disabled
abbrev skip_target : Bool → Handled
skip_target disabled =
    handled lib initial deleting (if disabled then discovered ∷ accepted ∷ [] else discovered ∷ [])
      (record sync_fixture {
        metadata = record sync_fixture.metadata {
          finalizers = some ((if disabled then finalizer else "example.com/other") ∷ []);
          annotations = some ((disable_target_deletion_annotation, flag disabled) ∷ []);
        };
      })

abbrev skipped_target : Bool → Handled
skipped_target disabled = record {
  result = ok await_change;
  requests = some (if disabled then discovery ∷ sync_patch [] ∷ [] else discovery ∷ []);
  watchers = 0;
}

skip_cases_pass : map skip_target (false ∷ true ∷ []) ≡ map skipped_target (false ∷ true ∷ [])
unfolding handled
skip_cases_pass = refl

-- `reconciliation_requires_identity_before_api_access`, the case without a namespace
abbrev without_namespace : Handled
without_namespace =
    handled lib initial helper []
      (record sync_fixture { metadata = record sync_fixture.metadata { namespace = none } })

without_namespace_pass :
    without_namespace ≡ record { result = err namespace_required; requests = some []; watchers = 0 }
unfolding handled
without_namespace_pass = refl

-- `force_delete_does_not_bypass_target_request_errors`, by whether the deletion is what fails
abbrev target_denied : Bool → Handled
target_denied deletion =
    handled lib initial deleting
      (discovered
        ∷ (if deletion
            then found
                (target_of (record { finalizers = none; deleting = false; propagation = none }))
              ∷ api_error 403
              ∷ []
            else api_error 403 ∷ []))
      (record sync_fixture {
        metadata = record sync_fixture.metadata {
          deletion_timestamp = some 0;
          finalizers = some (finalizer ∷ []);
          annotations = some ((force_delete_annotation, "true") ∷ []);
        };
      })

abbrev denied_target : Bool → Handled
denied_target deletion = record {
  result = denied 403;
  requests =
      some (discovery ∷ target_read ∷ delete_requests (if deletion then some foreground else none));
  watchers = 0;
}

target_denied_cases_pass :
    map target_denied (false ∷ true ∷ []) ≡ map denied_target (false ∷ true ∷ [])
unfolding handled
target_denied_cases_pass = refl

-- `finalizer_patch_errors_are_returned`
abbrev patch_denied : Bool → Handled
patch_denied removing =
    handled lib (parked sync_fixture) helper
      (discovered
        ∷ discovered
        ∷ (if removing then api_error 404 ∷ api_error 409 ∷ [] else api_error 409 ∷ []))
      (record sync_fixture {
        metadata = record sync_fixture.metadata {
          deletion_timestamp = epoch_if removing;
          finalizers = some ("example.com/keep" ∷ (if removing then finalizer ∷ [] else []));
        };
      })

abbrev denied_patch : Bool → Handled
denied_patch removing = record {
  result = denied 409;
  requests = some (
      discovery
      ∷ discovery
      ∷ (if removing
          then target_read ∷ sync_patch ("example.com/keep" ∷ []) ∷ []
          else sync_patch ("example.com/keep" ∷ finalizer ∷ []) ∷ []));
  watchers = if removing then 0 else 2;
}

patch_denied_cases_pass :
    map patch_denied (false ∷ true ∷ []) ≡ map denied_patch (false ∷ true ∷ [])
unfolding handled
patch_denied_cases_pass = refl
