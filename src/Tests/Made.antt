-- ===== src/Tests/Made.antt =====
-- What is made of a source with mappings: of one that selects an inner resource, and of one that writes
-- into the payload.
use sinker.Prelude.{◌≡◌, refl, ◌⊎◌, String, Option, none, some, [], ◌∷◌}
use sinker.Json.{Value, string, object, end, field, empty_object}
use sinker.Result.{ok}
use sinker.Kube.{DynamicObject, default_meta}
use sinker.Resources.{ResourceSync}
use sinker.Mapping.Shape.{type_of, IsPlain, IsInner}
use sinker.Controller.Reconcile.{target_for}
use sinker.Controller.Made.{target_for-types, target_for-IsPlain}
use sinker.Tests.Fixtures.{lib, lib-NewObject, sync, target_api, source_config}

abbrev mapped_by : Option String → Option String → ResourceSync
mapped_by from to = record sync {
  spec = record sync.spec { mappings = record { from_field_path = from; to_field_path = to } ∷ [] };
}

-- A container whose `spec` is a Deployment.
abbrev container : DynamicObject
container = record source_config {
  payload = object (
      field "spec"
        (object (
          field "apiVersion" (string "apps/v1")
            (field "kind" (string "Deployment") (field "replicas" (string "1") end))))
        end);
}

abbrev unwrapping : ResourceSync
unwrapping = mapped_by (some "spec") none

abbrev unwrapped : DynamicObject
unwrapped = record {
  types = some (record { api_version = "v1"; kind = "Deployment" });
  metadata = record default_meta { name = some "target-config"; namespace = some "team-a" };
  payload = object (field "replicas" (string "1") end);
}

unwrapped_made : target_for lib unwrapping target_api container ≡ ok unwrapped
unfolding target_for sinker.Mapping.apply_mappings sinker.Json.index sinker.Json.remove
unwrapped_made = refl

target_for-types_example :
    (unwrapped.types ≡ type_of target_api.ar)
    ⊎ IsInner lib lib-NewObject container unwrapping.spec.target.resource_ref target_api.namespace
        unwrapping.spec.mappings unwrapped
target_for-types_example =
    target_for-types lib lib-NewObject unwrapping target_api container unwrapped unwrapped_made

target_for-IsPlain_example : IsPlain "target-config" (some "team-a") unwrapped.metadata
target_for-IsPlain_example =
    target_for-IsPlain lib lib-NewObject unwrapping target_api container unwrapped refl
      unwrapped_made
