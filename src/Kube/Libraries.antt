-- ===== src/Kube/Libraries.antt =====
-- Functions of the crates that the program calls, as a parameter of the model. The laws are what the
-- crates' documentation says of them.
use sinker.Prelude.{String, ◌≡◌, Bool, Option, none, some, List, [], ◌∷◌}
use sinker.Json.{Value, null}
use sinker.Kube.{
  ObjectMeta, ObjectRef, KubeError, default_meta, TypeMeta, DynamicObject, GroupVersionKind,
  ApiResource,
}
use sinker.Result.{Result, ok, err}

pub record Libraries : Type 0 where
  -- `DynamicObject::new`
  pub new_object : String → ApiResource → DynamicObject
  -- `serde_json::to_value`, `to_string_pretty`, `from_value`, and `Value::to_string`
  pub object_to_value : DynamicObject → Result String Value
  pub object_to_text : DynamicObject → Result String String
  pub meta_to_value : ObjectMeta → Result String Value
  pub meta_from_value : Value → Result String ObjectMeta
  pub value_to_text : Value → String
  -- `JsonPath::parse` with the parsed path's `query`, and `NodeList::at_most_one`
  pub parse_json_path : String → Result String (Value → List Value)
  pub at_most_one : List Value → Result String (Option Value)
  -- `ApiResource::from_gvk`, and `TypeMeta`'s conversion to a `GroupVersionKind`
  pub from_gvk : GroupVersionKind → ApiResource
  pub parse_gvk : TypeMeta → Result String GroupVersionKind
  -- `ObjectRef::from_obj`
  pub object_ref : ObjectMeta → ObjectRef
  -- `kube::Error`'s text
  pub kube_error_text : KubeError → String
  -- `Regex::new` with the compiled expression's `is_match`
  pub compile_regex : String → Result String (String → Bool)

-- A new object has its name and type, and nothing else.
pub record NewObject (lib : Libraries) : Type 0 where
  pub new_object_lem :
      (name : String) (ar : ApiResource)
      → lib.new_object name ar ≡ record {
        types = some (record { api_version = ar.api_version; kind = ar.kind });
        metadata = record default_meta { name = some name };
        payload = null;
      }

-- `at_most_one` fails on two nodes or more.
pub record AtMostOne (lib : Libraries) : Type 0 where
  pub no_node : lib.at_most_one [] ≡ ok none
  pub one_node : (v : Value) → lib.at_most_one (v ∷ []) ≡ ok (some v)
  pub more_nodes :
      (v w : Value) (vs : List Value) → (e : String) × (lib.at_most_one (v ∷ w ∷ vs) ≡ err e)
