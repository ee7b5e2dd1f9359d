-- ===== src/Tests/Mappings.antt =====
-- Mappings of small sources.

use sinker.Prelude.{
  ℕ, String, Bool, true, false, not, Option, none, some, List, [], ◌∷◌, ◌++◌, any, all, ◌≡◌, refl,
  ◌==◌, if◌then◌else◌,
}
use sinker.Json.{Value, null, number, string, object, Fields, end, field, index, empty_object}
use sinker.Result.{ok, panic}
use sinker.Kube.{default_meta, DynamicObject}
use sinker.Resources.{Gvkn, Mapping}
use sinker.Mapping.{
  last_applied, cleanup_annotations, clone_resource, find_field_path, source_path, map_conversion,
  get_ar_from_subtree, materialize, apply_mapping, apply_each,
}
use sinker.Mapping.FieldPath.{set_field_path, object_required}
use sinker.Mapping.FieldPath.Errors.{blocked, set_field_path_outcome}
use sinker.Mapping.FieldPath.Readback.{fetch, diverge, fetch-set_field_path}
use sinker.Mapping.Inner.{all_texts, materialize_panics}
use sinker.Mapping.Apply.{leaves, apply_each-last, apply_each-leaves}
use sinker.Tests.Fixtures.{lib, source_config}

abbrev root : Value
root = object (field "spec" (object (field "size" (number "3") end)) end)

set_field_path_outcome_example :
    set_field_path root "spec.size.unit" (string "GB") ≡ (root, some (object_required root))
unfolding blocked sinker.Mapping.FieldPath.Segments.segments sinker.Json.get
set_field_path_outcome_example = set_field_path_outcome root "spec.size.unit" (string "GB")

fetch-set_field_path_example :
    fetch "spec.color" (set_field_path root "spec.color" (string "red")).0 ≡ some (string "red")
unfolding set_field_path sinker.Prelude.Option-cases sinker.Mapping.FieldPath.split_once
    sinker.Json.get
fetch-set_field_path_example = fetch-set_field_path root "spec.color" (string "red") refl

abbrev target_ref : Gvkn
target_ref = record { api_version = "v1"; kind = "ConfigMap"; name = "target-config" }

-- A template with an empty payload, and mappings of the source's `spec`.
abbrev template : DynamicObject
template = record { types = none; metadata = default_meta; payload = empty_object }

abbrev to_path : String → Mapping
to_path path = record { from_field_path = some "spec"; to_field_path = some path }

abbrev after_both : DynamicObject
after_both = record template {
  payload = object (
      field "a" (index source_config.payload "spec")
        (field "b" (index source_config.payload "spec") end));
}

abbrev after_one : DynamicObject
after_one = record template {
  payload = object (field "a" (index source_config.payload "spec") end);
}

apply_each-last_example :
    (subtree : Value) × (find_field_path lib source_config (some "spec") ≡ ok subtree)
    × (fetch "b" after_both.payload ≡ some subtree)
unfolding sinker.Mapping.strip_prefix apply_each sinker.Prelude.Option-cases
    sinker.Mapping.FieldPath.split_once sinker.Json.insert
apply_each-last_example =
    apply_each-last lib source_config target_ref none (to_path "a" ∷ []) (to_path "b") "b" template
      after_both refl refl refl

apply_each-leaves_example :
    (fetch "b" after_one.payload ≡ fetch "b" template.payload)
    × (after_one.types ≡ template.types)
    × (after_one.metadata ≡ template.metadata)
unfolding leaves sinker.Mapping.strip_prefix diverge sinker.Mapping.FieldPath.Segments.segments
    apply_each sinker.Prelude.Option-cases sinker.Mapping.FieldPath.split_once sinker.Json.insert
apply_each-leaves_example =
    apply_each-leaves lib source_config target_ref none "b" (to_path "a" ∷ []) template after_one
      refl refl

abbrev deployment : Value
deployment = object (field "apiVersion" (string "apps/v1") (field "kind" (string "Deployment") end))

abbrev pod : Value
pod = object (field "apiVersion" (string "v1") (field "kind" (string "Pod") end))

-- A pod with an annotation that is a number.
abbrev annotated_pod : Value
annotated_pod = object (
    field "apiVersion" (string "v1") (
      field "kind" (string "Pod") (
        field "metadata"
          (object (field "annotations" (object (field "port" (number "80") end)) end)) end)))

materialize_panics_example : materialize lib annotated_pod target_ref none ≡ panic
unfolding get_ar_from_subtree index all_texts
materialize_panics_example =
    materialize_panics lib annotated_pod "Pod" target_ref none
      (lib.from_gvk (record { group = ""; version = "v1"; kind = "Pod" }))
      (field "port" (number "80") end) refl refl refl
