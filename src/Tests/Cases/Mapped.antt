-- ===== src/Tests/Cases/Mapped.antt =====
-- The unit tests of src/mapping.rs on the selection of a source and on lists of mappings.

use sinker.Prelude.{◌≡◌, refl, ℕ, String, Option, none, some, List, [], ◌∷◌, map}
use sinker.Result.{Result, ok, err, map_err, ◌>>=◌}
use sinker.Error.{Error, json_path_error, json_path_exactly_one_value, serialization_error}
use sinker.Json.{
  Value, null, number, string, array, object, nil, cons, end, field, index, get, remove, insert,
}
use sinker.Kube.{ApiResource, default_meta}
use sinker.Kube.Libraries.{Libraries}
use sinker.Resources.{Mapping}
use sinker.Mapping.{find_field_path, apply_mappings}
use sinker.Mapping.FieldPath.{object_required}
use sinker.Tests.Script.{sync_fixture}
use sinker.Tests.Crates.{json_lib, read_object, to_value, read_path}

abbrev pub one : String → Value → Value
one key value = object (field key value end)

-- `find_field_path` of any value, which the source serializes to itself
abbrev value_lib : Libraries
value_lib = record json_lib { object_to_value = λ o. ok o.payload }

abbrev select : Value → Option String → Result Error Value
select source path =
    find_field_path value_lib (record { types = none; metadata = default_meta; payload = source })
      path

-- `source_path_selection`
abbrev selection_cases : List (Option String)
selection_cases = none ∷ some "" ∷ some "data.key" ∷ some "data.missing" ∷ []

abbrev select_key : Option String → Result Error Value
select_key = select (one "data" (one "key" (string "value")))

selection_cases_pass :
    map select_key selection_cases
    ≡ ok (one "data" (one "key" (string "value")))
      ∷ ok (one "data" (one "key" (string "value")))
      ∷ ok (string "value")
      ∷ ok null
      ∷ []
unfolding find_field_path read_path
selection_cases_pass = refl

-- `source_path_rejects_multiple_matches` and `source_path_rejects_invalid_syntax`
abbrev rejected_selections : List (Result Error Value)
rejected_selections =
    select (one "items" (array (cons (number "1") (cons (number "2") nil)))) (some "items[*]")
    ∷ select (object end) (some "items[")
    ∷ []

rejected_selections_pass :
    rejected_selections
    ≡ err (json_path_exactly_one_value "$.items[*]") ∷ err (json_path_error "unexpected end") ∷ []
unfolding find_field_path read_path
rejected_selections_pass = refl

abbrev config_map_resource : ApiResource
config_map_resource = record {
  group = "";
  version = "v1";
  api_version = "v1";
  kind = "ConfigMap";
  plural = "configmaps";
}

-- `mapped`, to the JSON that the tests compare
abbrev pub mapping_of : Option String × Option String → Mapping
mapping_of (from, to) = record { from_field_path = from; to_field_path = to }

unfoldable pub mapped : Value → List (Option String × Option String) → Result Error Value
unfolding read_object to_value apply_mappings read_path sinker.Prelude.Option-cases
    sinker.Mapping.FieldPath.split_once sinker.Mapping.strip_prefix sinker.Mapping.apply_each
    sinker.Json.get sinker.Json.insert sinker.Json.remove sinker.Json.index
mapped source paths = do
  decoded ← map_err serialization_error (read_object source)
  target ←
      apply_mappings json_lib decoded sync_fixture.spec.target.resource_ref none config_map_resource
        (record sync_fixture {
          spec = record sync_fixture.spec { mappings = map mapping_of paths };
        })
  ok (to_value target)

-- A ConfigMap named `target-config`, with more fields.
abbrev target_with : Value → Value
target_with (object rest) = object (
    field "apiVersion" (string "v1") (
      field "kind" (string "ConfigMap")
        (field "metadata" (one "name" (string "target-config")) rest)))
target_with v = v

-- `mappings_are_ordered_and_missing_sources_become_null`
abbrev ordered : Result Error Value
ordered =
    mapped (one "data" (object (field "first" (string "one") (field "second" (string "two") end))))
      ((some "data.first", some "data.value")
        ∷ (some "data.second", some "data.value")
        ∷ (some "data.missing", some "data.absent")
        ∷ [])

ordered_pass :
    ordered
    ≡ ok
        (target_with (one "data" (object (field "value" (string "two") (field "absent" null end)))))
unfolding mapped
ordered_pass = refl

-- `root_replacement_discards_earlier_mappings_and_allows_later_mappings`
abbrev replaced_root : Result Error Value
replaced_root =
    mapped
      (object (
        field "spec"
          (object (
            field "apiVersion" (string "v1") (
              field "kind" (string "ConfigMap") (
                field "metadata" (one "labels" (one "app" (string "embedded")))
                  (field "data" (one "embedded" (string "value")) end)))))
          (field "extra" (string "after") end)))
      ((some "extra", some "data.discarded")
        ∷ (some "spec", none)
        ∷ (some "extra", some "data.kept")
        ∷ [])

replaced_root_pass :
    replaced_root
    ≡ ok (
        object (
          field "apiVersion" (string "v1") (
            field "kind" (string "ConfigMap") (
              field "metadata"
                (object (
                  field "labels"
                    (one "app" (string "embedded"))
                    (field "name" (string "target-config") end)))
                (field "data"
                  (object (field "embedded" (string "value") (field "kept" (string "after") end)))
                  end)))))
unfolding mapped
replaced_root_pass = refl

-- `whole_source_mapping_preserves_embedded_identity`
abbrev identified : Value
identified = object (
    field "apiVersion" (string "v1") (
      field "kind" (string "ConfigMap") (
        field "metadata"
          (object (
            field "name" (string "original")
              (field "namespace" (string "source") (field "uid" (string "source-uid") end))))
          (field "data" (one "key" (string "value")) end))))

abbrev embed : Option String → Result Error Value
embed path = mapped identified ((path, some "spec.embedded") ∷ [])

embedded_cases_pass :
    map embed (none ∷ some "" ∷ [])
    ≡ ok (target_with (one "spec" (one "embedded" identified)))
      ∷ ok (target_with (one "spec" (one "embedded" identified)))
      ∷ []
unfolding mapped
embedded_cases_pass = refl
