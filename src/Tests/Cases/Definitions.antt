-- ===== src/Tests/Cases/Definitions.antt =====
-- The unit tests of src/resources.rs on references to types and on the definition of SinkerContainer.
use sinker.Prelude.{
  ◌≡◌, refl, String, Bool, true, Option, none, some, List, [], ◌∷◌, map, if◌then◌else◌,
}
use sinker.Prelude.{◌==◌}
use sinker.Result.{Result, ok, err}
use sinker.Kube.{TypeMeta, GroupVersionKind}
use sinker.Kube.Libraries.{Libraries}
use sinker.Resources.{Gvkn, type_meta, group_version_kind}
use sinker.Resources.Container.{
  CustomResourceDefinition, manual_schema, crd_with_manual_schema, AllHave, names,
  crd_with_manual_schema_lem,
}
use sinker.Mapping.{split}
use sinker.Tests.Fixtures.{lib}

-- `resource_reference_converts_type_metadata`, where a version has at most one group
abbrev gvk_of : String → List String → Result String GroupVersionKind
gvk_of kind (version ∷ []) = ok (record { group = ""; version = version; kind = kind })
gvk_of kind (group ∷ version ∷ []) = ok (record { group = group; version = version; kind = kind })
gvk_of kind _ = err "Invalid API version"

abbrev parsing : Libraries
parsing = record lib { parse_gvk = λ t. gvk_of t.kind (split b'/' t.api_version) }

abbrev deployment_of : String → Gvkn
deployment_of api_version = record {
  api_version = api_version;
  kind = "Deployment";
  name = "application";
}

abbrev convert : String → TypeMeta × Result String GroupVersionKind
convert api_version =
    (type_meta (deployment_of api_version), group_version_kind parsing (deployment_of api_version))

convert_pass :
    map convert ("v1" ∷ "apps/v1" ∷ [])
    ≡ (
      record { api_version = "v1"; kind = "Deployment" },
      ok (record { group = ""; version = "v1"; kind = "Deployment" }),
    )
      ∷ (
        record { api_version = "apps/v1"; kind = "Deployment" },
        ok (record { group = "apps"; version = "v1"; kind = "Deployment" }),
      )
      ∷ []
unfolding type_meta group_version_kind split
convert_pass = refl

-- `container_schema_preserves_arbitrary_spec_in_every_version`: what the schema says of a document and
-- of its `spec`
record SpecSchema : Type 0 where
  pub type_ : String
  pub preserve_unknown_fields : Option Bool
  pub properties : List String

record Schema : Type 0 where
  pub type_ : String
  pub required : List String
  pub spec : SpecSchema

abbrev container_schema : Schema
container_schema = record {
  type_ = "object";
  required = "spec" ∷ [];
  spec = record { type_ = "object"; preserve_unknown_fields = some true; properties = [] };
}

abbrev schema_from_str : String → Result String Schema
schema_from_str text = if text == manual_schema then ok container_schema else err "not the schema"

abbrev derived_container : CustomResourceDefinition Schema
derived_container = record {
  name = some "sinkercontainers.sinker.influxdata.io";
  scope = "Namespaced";
  versions = record { name = "v1alpha1"; schema = none } ∷ [];
}

container_pass :
    crd_with_manual_schema schema_from_str derived_container
    ≡ ok (record derived_container {
      versions = record { name = "v1alpha1"; schema = some (some container_schema) } ∷ [];
    })
unfolding crd_with_manual_schema
container_pass = refl

crd_with_manual_schema_lem_example :
    (c : CustomResourceDefinition Schema) × (crd_with_manual_schema schema_from_str
        derived_container
      ≡ ok c)
    × AllHave container_schema c.versions
    × (names c.versions ≡ "v1alpha1" ∷ [])
    × (c.name ≡ some "sinkercontainers.sinker.influxdata.io")
    × (c.scope ≡ "Namespaced")
crd_with_manual_schema_lem_example =
    crd_with_manual_schema_lem schema_from_str derived_container container_schema refl
