-- ===== src/Error.antt =====
-- The errors of src/lib.rs, and the outcome of a fallible call.
pub mod Message
use sinker.Prelude.{String}
use sinker.Kube.{KubeError}
use sinker.Mapping.FieldPath.{AddToPathError}

-- The crate's error. An error of a library that the program only wraps is its text.
pub data Error : Type 0 where
  kube_error : KubeError → Error
  parse_group_version_error : String → Error
  kubeconfig_error : String → Error
  kubeconfig_utf8_error : String → Error
  missing_key_error : String → String → String → Error
  serialization_error : String → Error
  json_path_error : String → Error
  name_required : Error
  uid_required : Error
  namespace_required : Error
  resource_version_required : Error
  add_to_path_error : AddToPathError → Error
  json_path_no_values : String → Error
  json_path_exactly_one_value : String → Error
  malformed_inner_resource : String → Error
  mapping_empty : Error
  resource_not_found_error : String → String → KubeError → Error
  unauthorized_kubeconfig_access : Error
