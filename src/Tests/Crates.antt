-- ===== src/Tests/Crates.antt =====
-- serde_json, the JSONPath crate and kube's types as far as the unit tests of src/mapping.rs use them:
-- metadata has labels, annotations, a name, a namespace and a uid, and paths are names between dots.
use Prim.Native.String
use sinker.Prelude.{String, Option, none, some, List, [], ◌∷◌, ◌==◌, if◌then◌else◌}
use sinker.Prelude.StringMap.{StringMap}
use sinker.Json.{
  Value, null, string, array, object, Items, nil, cons, Fields, end, field, get, index, remove,
  as_str,
}
use sinker.Result.{Result, ok, err, ◌>>=◌}
use sinker.Kube.{ObjectMeta, default_meta, TypeMeta, DynamicObject, GroupVersionKind}
use sinker.Kube.Libraries.{Libraries}
use sinker.Mapping.{split}
use sinker.Tests.Fixtures.{lib}

abbrev of_map : StringMap String → Fields
of_map [] = end
of_map ((k, v) ∷ m) = field k (string v) (of_map m)

abbrev with_map : String → Option (StringMap String) → Fields → Fields
with_map key none rest = rest
with_map key (some m) rest = field key (object (of_map m)) rest

abbrev with_text : String → Option String → Fields → Fields
with_text key none rest = rest
with_text key (some s) rest = field key (string s) rest

abbrev meta_fields : ObjectMeta → Fields
meta_fields m = with_map "annotations" m.annotations (
    with_map "labels" m.labels
      (with_text "name" m.name (with_text "namespace" m.namespace (with_text "uid" m.uid end))))

abbrev fields_of : Value → Fields
fields_of (object m) = m
fields_of _ = end

abbrev with_types : Option TypeMeta → Fields → Fields
with_types none rest = rest
with_types (some t) rest =
    field "apiVersion" (string t.api_version) (field "kind" (string t.kind) rest)

-- `json!` of an object
unfoldable pub to_value : DynamicObject → Value
to_value o =
    object (
      with_types o.types (field "metadata" (object (meta_fields o.metadata)) (fields_of o.payload)))

abbrev read_map : Fields → Result String (StringMap String)
read_map end = ok []
read_map (field k (string s) m) = do rest ← read_map m; ok ((k, s) ∷ rest)
read_map (field k v m) = err "invalid type"

abbrev read_texts : Value → Result String (Option (StringMap String))
read_texts (object m) = do texts ← read_map m; ok (some texts)
read_texts null = ok none
read_texts _ = err "invalid type"

unfoldable pub read_meta : Value → Result String ObjectMeta
unfolding index
read_meta v = do
  annotations ← read_texts (index v "annotations")
  labels ← read_texts (index v "labels")
  ok (record default_meta {
    annotations = annotations;
    labels = labels;
    name = as_str (index v "name");
    namespace = as_str (index v "namespace");
    uid = as_str (index v "uid");
  })

abbrev types_of : Option String → Option String → Option TypeMeta
types_of (some api_version) (some kind) = some (record { api_version = api_version; kind = kind })
types_of _ _ = none

-- `serde_json::from_value` of a test's source
unfoldable pub read_object : Value → Result String DynamicObject
unfolding read_meta index remove
read_object v = do
  metadata ← read_meta (index v "metadata")
  ok (record {
    types = types_of (as_str (index v "apiVersion")) (as_str (index v "kind"));
    metadata = metadata;
    payload = object (remove "metadata" (remove "kind" (remove "apiVersion" (fields_of v))));
  })

abbrev elements : Items → List Value
elements nil = []
elements (cons v vs) = v ∷ elements vs

abbrev every_element : Value → List Value
every_element (array vs) = elements vs
every_element _ = []

abbrev child : Value → String → Option Value
child (object m) key = get key m
child _ key = none

abbrev follow : List String → Value → List Value
follow [] v = v ∷ []
follow (key ∷ keys) v = elim (child v key) [ none ↦ [] | some w ↦ follow keys w ]

abbrev tail : List String → List String
tail [] = []
tail (_ ∷ names) = names

unfoldable pub read_path : String → Result String (Value → List Value)
unfolding split get index
read_path path =
    if path == "$.items["
    then err "unexpected end"
    else if path == "$.items[*]"
    then ok (λ v. every_element (index v "items"))
    else ok (follow (tail (split b'.' path)))

abbrev api_version_of : GroupVersionKind → String
api_version_of gvk =
    if gvk.group == "" then gvk.version else (String.◌++◌ gvk.group (String.◌++◌ "/" gvk.version))

abbrev pub json_lib : Libraries
json_lib = record lib {
  object_to_value = λ o. ok (to_value o);
  meta_to_value = λ m. ok (object (meta_fields m));
  meta_from_value = read_meta;
  parse_json_path = read_path;
  from_gvk = λ gvk. record {
    group = gvk.group;
    version = gvk.version;
    api_version = api_version_of gvk;
    kind = gvk.kind;
    plural = gvk.kind;
  };
}
