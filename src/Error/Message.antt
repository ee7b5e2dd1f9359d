-- ===== src/Error/Message.antt =====
-- The texts of `#[error(...)]` on `Error` of src/lib.rs and on `AddToPathError` of src/mapping.rs.
use Prim.Native.String.{◌++◌}
use sinker.Prelude.{String}
use sinker.Kube.Libraries.{Libraries}
use sinker.Mapping.FieldPath.{object_required}
use sinker.Error.{
  Error, kube_error, parse_group_version_error, kubeconfig_error, kubeconfig_utf8_error,
  missing_key_error, serialization_error, json_path_error, name_required, uid_required,
  namespace_required, resource_version_required, add_to_path_error, json_path_no_values,
  json_path_exactly_one_value, malformed_inner_resource, mapping_empty, resource_not_found_error,
  unauthorized_kubeconfig_access,
}

module _ (lib : Libraries) where
  unfoldable pub to_string : Error → String
  to_string (kube_error e) = "Kube Error: " ++ lib.kube_error_text e
  to_string (parse_group_version_error e) = "Parsing apiVersion and Kind: " ++ e
  to_string (kubeconfig_error e) = "Error parsing kubeconfig from secret"
  to_string (kubeconfig_utf8_error e) = "error parsing kubeconfig from secret"
  to_string (missing_key_error key name ns) =
      "referenced key '" ++ key ++ "' does not exist in secret '" ++ key ++ "' in namespace '"
      ++ key ++ "'"
  to_string (serialization_error e) = "SerializationError: " ++ e
  to_string (json_path_error e) = "JsonPathError: " ++ e
  to_string name_required = "Name is required"
  to_string uid_required = "UID is required"
  to_string namespace_required = "Namespace is required"
  to_string resource_version_required = "Failed to acquire ResourceVersion"
  to_string (add_to_path_error (object_required v)) =
      "Value for field " ++ lib.value_to_text v ++ " must be an object"
  to_string (json_path_no_values path) = "JSONPath '" ++ path ++ "' produced no values"
  to_string (json_path_exactly_one_value path) =
      "JSONPath '" ++ path ++ "' didn't produce exactly one value"
  to_string (malformed_inner_resource what) = "Expected k8s resource at subtree: " ++ what
  to_string mapping_empty =
      "Mapping block must contain from_field_path, to_field_path or both, cannot be empty"
  to_string (resource_not_found_error name kind e) =
      "Resource " ++ name ++ " of kind " ++ kind ++ " not found: " ++ lib.kube_error_text e
  to_string unauthorized_kubeconfig_access =
      "Referenced Kubeconfig Secret cannot be accessed due to namespace restrictions"
