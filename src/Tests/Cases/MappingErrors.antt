-- ===== src/Tests/Cases/MappingErrors.antt =====
-- The unit tests of src/mapping.rs on lists of mappings that fail.

use sinker.Prelude.{◌≡◌, refl, String, none, some, List, [], ◌∷◌, map}
use sinker.Result.{Result, err}
use sinker.Error.{
  Error, json_path_error, json_path_exactly_one_value, add_to_path_error, serialization_error,
  malformed_inner_resource, mapping_empty,
}
use sinker.Json.{Value, number, string, array, object, nil, cons, end, field}
use sinker.Mapping.FieldPath.{object_required}
use sinker.Tests.Cases.Mapped.{one, mapped}

-- `empty_mapping_entry_is_an_error`
abbrev empty_entry : Result Error Value
empty_entry = mapped (one "data" (one "key" (string "value"))) ((none, none) ∷ [])

empty_entry_pass : empty_entry ≡ err mapping_empty
unfolding mapped
empty_entry_pass = refl

-- `mapping_errors_propagate_from_destination_and_metadata_conversion`
abbrev propagated : List (Result Error Value)
propagated =
    mapped (one "value" (number "42"))
      ((some "value", some "data") ∷ (some "value", some "data.child") ∷ [])
    ∷ mapped (one "value" (number "42")) ((some "value", some "metadata.labels.app") ∷ [])
    ∷ []

propagated_pass :
    propagated
    ≡ err (add_to_path_error (object_required (one "data" (number "42"))))
      ∷ err (serialization_error "invalid type")
      ∷ []
unfolding mapped
propagated_pass = refl

-- `source_selection_errors_stop_later_mappings`
abbrev stop_at : String → Result Error Value
stop_at path =
    mapped
      (object (
        field "items" (array (cons (string "first") (cons (string "second") nil)))
          (field "value" (string "copied") end)))
      ((some "value", some "data.before") ∷ (some path, some "data.selected") ∷ (none, none) ∷ [])

stop_cases_pass :
    map stop_at ("items[" ∷ "items[*]" ∷ [])
    ≡ err (json_path_error "unexpected end") ∷ err (json_path_exactly_one_value "$.items[*]") ∷ []
unfolding mapped
stop_cases_pass = refl

-- `malformed_root_replacement_stops_later_mappings`
abbrev malformed_root : Result Error Value
malformed_root =
    mapped
      (object (field "spec" (one "apiVersion" (string "v1")) (field "value" (string "copied") end)))
      ((some "value", some "data.before") ∷ (some "spec", none) ∷ (none, none) ∷ [])

malformed_root_pass : malformed_root ≡ err (malformed_inner_resource "failed to parse kind")
unfolding mapped
malformed_root_pass = refl

-- `metadata_paths_cannot_traverse_an_existing_scalar`
abbrev into_label : Result Error Value
into_label = mapped (one "value" (string "copied")) (
    (some "value", some "metadata.labels.app")
    ∷ (some "value", some "metadata.labels.app.child")
    ∷ (none, none)
    ∷ [])

into_label_pass :
    into_label
    ≡ err (
        add_to_path_error (
          object_required (
            object (
              field "labels"
                (one "app" (string "copied"))
                (field "name" (string "target-config") end)))))
unfolding mapped
into_label_pass = refl
