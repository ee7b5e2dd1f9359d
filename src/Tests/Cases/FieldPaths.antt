-- ===== src/Tests/Cases/FieldPaths.antt =====
-- The unit tests of src/mapping.rs on paths, inner resources and clones.

use sinker.Prelude.{◌≡◌, refl, String, Bool, true, false, Option, none, some, List, [], ◌∷◌, map}
use sinker.Json.{
  Value, null, bool, number, string, array, object, nil, cons, end, field, empty_object,
}
use sinker.Result.{Result, ok, err}
use sinker.Error.{Error, malformed_inner_resource}
use sinker.Kube.{DynamicObject, ApiResource, default_meta}
use sinker.Resources.{Gvkn}
use sinker.Mapping.{get_ar_from_subtree, clone_resource, last_applied}
use sinker.Mapping.FieldPath.{set_field_path, AddToPathError, object_required}
use sinker.Tests.Fixtures.{lib}

-- An object with one field.
abbrev one : String → Value → Value
one key value = object (field key value end)

-- `destination_paths_use_object_keys`
abbrev destination_cases : List (Value × String)
destination_cases =
    (one "spec" (one "keep" (number "1")), "spec.new")
    ∷ (one "spec" (one "old" (number "1")), "spec")
    ∷ (empty_object, "")
    ∷ (empty_object, "items[0]")
    ∷ []

abbrev set_two : Value × String → Value × Option AddToPathError
set_two (root, path) = set_field_path root path (number "2")

destination_cases_pass :
    map set_two destination_cases
    ≡ (one "spec" (object (field "keep" (number "1") (field "new" (number "2") end))), none)
      ∷ (one "spec" (number "2"), none)
      ∷ (one "" (number "2"), none)
      ∷ (one "items[0]" (number "2"), none)
      ∷ []
unfolding set_field_path sinker.Prelude.Option-cases sinker.Mapping.FieldPath.split_once
    sinker.Json.get sinker.Json.insert
destination_cases_pass = refl

-- `destination_paths_reject_non_objects`
abbrev rejected_cases : List (Value × String)
rejected_cases =
    (null, "key")
    ∷ (array nil, "key")
    ∷ (bool false, "key")
    ∷ (one "spec" (string "occupied"), "spec.key")
    ∷ (one "spec" (array nil), "spec.key")
    ∷ (one "spec" null, "spec.key")
    ∷ []

abbrev set_leaf : Value × String → Value × Option AddToPathError
set_leaf (root, path) = set_field_path root path (string "leaf")

abbrev reject : Value × String → Value × Option AddToPathError
reject (root, _) = (root, some (object_required root))

rejected_cases_pass : map set_leaf rejected_cases ≡ map reject rejected_cases
unfolding set_field_path sinker.Prelude.Option-cases sinker.Mapping.FieldPath.split_once
    sinker.Json.get
rejected_cases_pass = refl

-- `inner_resource_requires_type_metadata`
abbrev malformed_cases : List Value
malformed_cases =
    one "kind" (string "ConfigMap")
    ∷ object (field "apiVersion" (number "1") (field "kind" (string "ConfigMap") end))
    ∷ one "apiVersion" (string "v1")
    ∷ object (field "apiVersion" (string "v1") (field "kind" (array nil) end))
    ∷ []

malformed_cases_pass :
    map (get_ar_from_subtree lib) malformed_cases
    ≡ err (malformed_inner_resource "failed to parse apiVersion")
      ∷ err (malformed_inner_resource "failed to parse apiVersion")
      ∷ err (malformed_inner_resource "failed to parse kind")
      ∷ err (malformed_inner_resource "failed to parse kind")
      ∷ []
unfolding get_ar_from_subtree sinker.Json.index
malformed_cases_pass = refl

-- `clone_preserves_payload_and_user_metadata_only`
abbrev original : DynamicObject
original = record {
  types = some (record { api_version = "v1"; kind = "ConfigMap" });
  metadata = record default_meta {
    name = some "original";
    namespace = some "source";
    uid = some "source-uid";
    resource_version = some "123";
    generation = some 4;
    creation_timestamp = some 1704067200;
    finalizers = some ("other/finalizer" ∷ []);
    owner_references = some (
        record {
          api_version = "v1";
          kind = "Pod";
          name = "owner";
          uid = "owner-uid";
          controller = none;
          block_owner_deletion = none;
        }
        ∷ []);
    managed_fields = some (record { manager = some "someone"; time = none } ∷ []);
    labels = some (("app", "demo") ∷ []);
    annotations = some (("example.com/keep", "yes") ∷ (last_applied, "discard") ∷ []);
  };
  payload = object (
      field "data" (one "nested" (array (cons (number "1") (cons null (cons (bool false) nil)))))
        (field "status" (one "ready" (bool true)) end));
}

abbrev destination : Gvkn
destination = record { api_version = "example.com/v2"; kind = "Destination"; name = "copy" }

abbrev destinations : ApiResource
destinations = record {
  group = "example.com";
  version = "v2";
  api_version = "example.com/v2";
  kind = "Destination";
  plural = "destinations";
}

abbrev copy : Option String → DynamicObject
copy namespace = record {
  types = some (record { api_version = "example.com/v2"; kind = "Destination" });
  metadata = record default_meta {
    name = some "copy";
    namespace = namespace;
    labels = some (("app", "demo") ∷ []);
    annotations = some (("example.com/keep", "yes") ∷ []);
  };
  payload = original.payload;
}

abbrev clone_into : Option String → Result Error DynamicObject
clone_into namespace = clone_resource lib original destination namespace destinations

clone_cases_pass :
    map clone_into (some "destination" ∷ none ∷ [])
    ≡ ok (copy (some "destination")) ∷ ok (copy none) ∷ []
unfolding clone_resource sinker.Prelude.StringMap.remove
clone_cases_pass = refl

-- `test_add_to_path`
abbrev add_cases : List String
add_cases = "status" ∷ "status.foo" ∷ "status.foo.bar" ∷ []

abbrev add_demo : String → Value × Option AddToPathError
add_demo path =
    set_field_path
      (object (field "spec" empty_object (field "status" (one "keep" (number "1")) end))) path
      (string "demo")

-- The root with another status.
abbrev with_status : Value → Value
with_status status = object (field "spec" empty_object (field "status" status end))

add_cases_pass :
    map add_demo add_cases
    ≡ (with_status (string "demo"), none)
      ∷ (with_status (object (field "keep" (number "1") (field "foo" (string "demo") end))), none)
      ∷ (
        with_status
            (object (field "keep" (number "1") (field "foo" (one "bar" (string "demo")) end))),
        none,
      )
      ∷ []
unfolding set_field_path sinker.Prelude.Option-cases sinker.Mapping.FieldPath.split_once
    sinker.Json.insert sinker.Json.get
add_cases_pass = refl

-- `test_get_ar_from_subtree` and `test_get_ar_from_subtree_nogroup`
abbrev subtree_cases : List Value
subtree_cases =
    object (
      field "apiVersion" (string "sinker.influxdata.io/v1alpha1") (
        field "kind" (string "SinkerContainer") (
          field "metadata" (one "name" (string "test-sinker-container"))
            (field "spec" (one "dummykey" (string "dummyvalue")) end))))
    ∷ object (
        field "apiVersion" (string "v1") (
          field "kind" (string "ConfigMap") (
            field "metadata" (one "name" (string "test-config-map-1"))
              (field "data" (one "dummykey" (string "dummyvalue")) end))))
    ∷ []

subtree_cases_pass :
    map (get_ar_from_subtree lib) subtree_cases
    ≡ ok (
        lib.from_gvk (record {
          group = "sinker.influxdata.io";
          version = "v1alpha1";
          kind = "SinkerContainer";
        }))
      ∷ ok (lib.from_gvk (record { group = ""; version = "v1"; kind = "ConfigMap" }))
      ∷ []
unfolding get_ar_from_subtree sinker.Json.index
subtree_cases_pass = refl
