-- ===== src/Mapping.antt =====
-- src/mapping.rs: the target object that a source and a list of mappings make. `debug!` is left out,
-- and the two texts that are only logged are made, since making them can fail.
pub mod FieldPath
pub mod Clone
pub mod Select
pub mod Inner
pub mod Apply
pub mod Shape
pub mod Plain
use Prim.Native.Char.{Char, code}
use Prim.Native.String
use mathlib.Core.Option
use mathlib.Core.List.{reverse}
use sinker.Prelude.{ℕ, String, Bool, Option, none, some, List, [], ◌∷◌, nat_eq, ◌==◌, if◌then◌else◌}
use sinker.Prelude.StringMap
use sinker.Prelude.StringMap.{StringMap}
use sinker.Json.{Value, object, Fields, end, field, null, empty_object, index, remove, as_str}
use sinker.Result.{Result, ok, err, ◌>>=◌, map_err, ok_or, unwrap}
use sinker.Error.{
  Error, serialization_error, json_path_error, json_path_exactly_one_value, add_to_path_error,
  malformed_inner_resource, mapping_empty,
}
use sinker.Kube.{ObjectMeta, default_meta, DynamicObject, ApiResource}
use sinker.Kube.Libraries.{Libraries}
use sinker.Resources.{Mapping, Gvkn, ResourceSync}
use FieldPath.{AddToPathError, set_field_path}

abbrev pub last_applied : String
last_applied = "kubectl.kubernetes.io/last-applied-configuration"

unfoldable pub cleanup_annotations : StringMap String → StringMap String
cleanup_annotations annotations = StringMap.remove last_applied annotations

-- `str::strip_prefix`, whose `some` is `starts_with`
unfoldable pub strip_prefix : String → String → Option String
strip_prefix String.[] s = some s
strip_prefix (String.◌∷◌ c p) String.[] = none
strip_prefix (String.◌∷◌ c p) (String.◌∷◌ d s) =
    let rest = strip_prefix p s in if nat_eq (code c) (code d) then rest else none

-- `str::split`: the terms between the separators, at least one
abbrev extend_term : ℕ → Char → List String → List String
extend_term sep c [] = []
extend_term sep c (t ∷ ts) =
    if nat_eq (code c) sep then String.[] ∷ t ∷ ts else (String.◌∷◌ c t) ∷ ts

unfoldable pub split : ℕ → String → List String
split sep String.[] = String.[] ∷ []
split sep (String.◌∷◌ c s) = extend_term sep c (split sep s)

-- The expression that `find_field_path` parses.
unfoldable pub source_path : Option String → String
source_path none = "$"
source_path (some p) = if p == "" then "$" else (String.◌++◌ "$." p)

-- `map_conversion`: a value that is no text makes `unwrap` panic.
unfoldable pub map_conversion : Fields → Result Error (StringMap String)
map_conversion end = ok []
map_conversion (field k v m) = do s ← unwrap (as_str v); rest ← map_conversion m; ok ((k, s) ∷ rest)

-- One `if let Object(map)` of `convert_metadata`.
unfoldable pub convert_field : Value → Result Error (Option (StringMap String))
unfolding map_conversion
convert_field (object m) = do converted ← map_conversion m; ok (some converted)
convert_field _ = ok none

unfoldable pub convert_metadata : Value → Result Error ObjectMeta
unfolding convert_field
convert_metadata subtree = do
  annotations ← convert_field (index subtree "annotations")
  labels ← convert_field (index subtree "labels")
  ok (record default_meta { annotations = annotations; labels = labels })

unfoldable pub cleanup_subtree : Value → Value
cleanup_subtree (object m) = object (remove "metadata" (remove "kind" (remove "apiVersion" m)))
cleanup_subtree v = v

-- `gv_terms.next().unwrap_or("")`
abbrev next_or_empty : List String → String
next_or_empty [] = ""
next_or_empty (t ∷ _) = t

-- The version is the last term of `apiVersion`, and the group the one before it.
abbrev group_and_version : List String → Result Error (String × String)
group_and_version [] = err (malformed_inner_resource "failed to parse apiVersion")
group_and_version (version ∷ terms) = ok (next_or_empty terms, version)

-- `set_field_path(...)?`: the caller goes on with the value written.
abbrev pub set_or_fail : Value × Option AddToPathError → Result Error Value
set_or_fail (root, none) = ok root
set_or_fail (root, some e) = err (add_to_path_error e)

module _ (lib : Libraries) where
  unfoldable pub clone_resource :
      DynamicObject → Gvkn → Option String → ApiResource → Result Error DynamicObject
  unfolding cleanup_annotations
  clone_resource source target_ref target_namespace ar =
      let new = lib.new_object target_ref.name ar in
      ok (record new {
        payload = source.payload;
        metadata = record new.metadata {
          namespace = target_namespace;
          annotations = Option.map cleanup_annotations source.metadata.annotations;
          labels = source.metadata.labels;
        };
      })

  unfoldable pub get_ar_from_subtree : Value → Result Error ApiResource
  unfolding split
  get_ar_from_subtree subtree = do
    api_version ←
        ok_or (as_str (index subtree "apiVersion"))
          (malformed_inner_resource "failed to parse apiVersion")
    terms ← group_and_version (reverse (split b'/' api_version))
    kind ← ok_or (as_str (index subtree "kind")) (malformed_inner_resource "failed to parse kind")
    ok (lib.from_gvk (record { group = terms.0; version = terms.1; kind = kind }))

  unfoldable pub find_field_path : DynamicObject → Option String → Result Error Value
  unfolding source_path
  find_field_path resource from_field_path = do
    resource_json ← map_err serialization_error (lib.object_to_value resource)
    query ← map_err json_path_error (lib.parse_json_path (source_path from_field_path))
    subtree ←
        map_err (λ _. json_path_exactly_one_value (source_path from_field_path))
          (lib.at_most_one (query resource_json))
    ok (Option.get_or subtree null)

  -- The mapping with a source path alone: the subtree is cloned like a resource of its own. Its
  -- `metadata` is removed before its name and namespace are read.
  unfoldable pub materialize : Value → Gvkn → Option String → Result Error DynamicObject
  unfolding get_ar_from_subtree convert_metadata cleanup_subtree clone_resource
  materialize subtree target_ref target_namespace = do
    ar ← get_ar_from_subtree subtree
    source_metadata ← convert_metadata (index subtree "metadata")
    let rest = cleanup_subtree subtree
    let new = lib.new_object (lib.value_to_text (index (index rest "metadata") "name")) ar
    let source = record new {
      payload = rest;
      metadata = record new.metadata {
        namespace = as_str (index (index rest "metadata") "namespace");
        annotations = source_metadata.annotations;
        labels = source_metadata.labels;
      };
    }
    clone_resource source target_ref target_namespace ar

  -- The mapping with a destination path; a path into the metadata goes through its JSON form.
  unfoldable pub place : DynamicObject → String → Value → Result Error DynamicObject
  unfolding strip_prefix set_field_path
  place template to_field_path subtree = elim (strip_prefix "metadata." to_field_path) [
    | some path ↦ do
      metadata ← map_err serialization_error (lib.meta_to_value template.metadata)
      metadata' ← set_or_fail (set_field_path metadata path subtree)
      parsed ← map_err serialization_error (lib.meta_from_value metadata')
      ok (record template { metadata = parsed })
    | none ↦ do
      payload ← set_or_fail (set_field_path template.payload to_field_path subtree)
      ok (record template { payload = payload })
  ]

  -- The `match` on the two paths of a mapping.
  unfoldable pub dispatch :
      Gvkn
      → Option String
      → Value
      → DynamicObject
      → Option String
      → Option String
      → Result Error DynamicObject
  unfolding materialize place
  dispatch target_ref ns subtree template none none = err mapping_empty
  dispatch target_ref ns subtree template (some _) none = materialize subtree target_ref ns
  dispatch target_ref ns subtree template _ (some to) = place template to subtree

  -- The body of the loop over the mappings.
  unfoldable pub apply_mapping :
      DynamicObject → Gvkn → Option String → Mapping → DynamicObject → Result Error DynamicObject
  unfolding find_field_path dispatch
  apply_mapping source target_ref ns mapping template = do
    subtree ← find_field_path source mapping.from_field_path
    _ ← map_err serialization_error (lib.object_to_text template)
    template' ←
        dispatch target_ref ns subtree template mapping.from_field_path mapping.to_field_path
    _ ← map_err serialization_error (lib.object_to_text template')
    ok template'

  unfoldable pub apply_each :
      DynamicObject
      → Gvkn
      → Option String
      → List Mapping
      → DynamicObject
      → Result Error DynamicObject
  unfolding apply_mapping
  apply_each source target_ref ns [] template = ok template
  apply_each source target_ref ns (mapping ∷ rest) template = do
    template' ← apply_mapping source target_ref ns mapping template
    apply_each source target_ref ns rest template'

  unfoldable pub apply_mappings :
      DynamicObject → Gvkn → Option String → ApiResource → ResourceSync → Result Error DynamicObject
  unfolding apply_each
  apply_mappings source target_ref target_namespace ar sinker =
      let new = lib.new_object target_ref.name ar in
      let template = record new {
        payload = empty_object;
        metadata = record new.metadata { namespace = target_namespace };
      } in
      apply_each source target_ref target_namespace sinker.spec.mappings template
