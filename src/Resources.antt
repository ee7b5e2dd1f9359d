-- ===== src/Resources.antt =====
-- src/resources.rs
pub mod Container
use sinker.Prelude.{String, Bool, true, false, Option, none, some, List, ◌==◌, if◌then◌else◌}
use mathlib.Core.Option
use sinker.Prelude.StringMap
use sinker.Kube.{ObjectMeta, Condition, TypeMeta, GroupVersionKind}
use sinker.Kube.Libraries.{Libraries}
use sinker.Result.{Result}

abbrev pub force_delete_annotation : String
force_delete_annotation = "sinker.influxdata.io/force-delete"

abbrev pub disable_target_deletion_annotation : String
disable_target_deletion_annotation = "sinker.influxdata.io/disable-target-deletion"

abbrev pub allowed_namespaces_annotation : String
allowed_namespaces_annotation = "sinker.influxdata.io/allowed-namespaces"

pub record Mapping : Type 0 where
  pub from_field_path : Option String
  pub to_field_path : Option String

pub record Gvkn : Type 0 where
  pub api_version : String
  pub kind : String
  pub name : String

pub record SecretRef : Type 0 where
  pub name : String
  pub namespace : Option String
  pub key : String

pub record KubeConfig : Type 0 where
  pub secret_ref : SecretRef

pub record ClusterRef : Type 0 where
  pub namespace : Option String
  pub kube_config : KubeConfig

pub record ClusterResourceRef : Type 0 where
  pub resource_ref : Gvkn
  pub cluster : Option ClusterRef

pub record ResourceSyncSpec : Type 0 where
  pub source : ClusterResourceRef
  pub target : ClusterResourceRef
  pub mappings : List Mapping

pub record ResourceSyncStatus : Type 0 where
  pub conditions : Option (List Condition)

pub record ResourceSync : Type 0 where
  pub metadata : ObjectMeta
  pub spec : ResourceSyncSpec
  pub status : Option ResourceSyncStatus

-- `str::parse::<bool>`
unfoldable pub parse_bool : String → Option Bool
parse_bool s = if s == "true" then some true else if s == "false" then some false else none

-- `Option::unwrap_or_default` at the three types that the chain below passes through
abbrev or_default : Option String → String
or_default none = ""
or_default (some s) = s

abbrev or_none : Option (Option String) → Option String
or_none none = none
or_none (some o) = o

abbrev or_false : Option Bool → Bool
or_false none = false
or_false (some b) = b

unfoldable pub get_boolean_annotation_val : ResourceSync → String → Bool
unfolding parse_bool
get_boolean_annotation_val sync annotation = or_false (
    parse_bool
      (or_default (or_none (Option.map (StringMap.get annotation) sync.metadata.annotations))))

unfoldable pub has_force_delete_option_enabled : ResourceSync → Bool
unfolding get_boolean_annotation_val
has_force_delete_option_enabled sync = get_boolean_annotation_val sync force_delete_annotation

unfoldable pub has_disable_target_deletion_option_enabled : ResourceSync → Bool
unfolding get_boolean_annotation_val
has_disable_target_deletion_option_enabled sync =
    get_boolean_annotation_val sync disable_target_deletion_annotation

-- `TypeMeta::from` and `GroupVersionKind::try_from`
unfoldable pub type_meta : Gvkn → TypeMeta
type_meta r = record { api_version = r.api_version; kind = r.kind }

unfoldable pub group_version_kind : Libraries → Gvkn → Result String GroupVersionKind
unfolding type_meta
group_version_kind lib r = lib.parse_gvk (type_meta r)
