-- ===== src/Tests/Cases/Cloned.antt =====
-- The unit tests of src/mapping.rs that clone or map a whole object into the namespace `default`.
use sinker.Prelude.{◌≡◌, refl, String, true, Option, none, some, List, [], ◌∷◌, map}
use sinker.Result.{Result, ok, map_err, ◌>>=◌}
use sinker.Error.{Error, serialization_error}
use sinker.Json.{Value, bool, string, array, object, nil, end, field}
use sinker.Kube.{ApiResource}
use sinker.Resources.{Gvkn}
use sinker.Mapping.{clone_resource, apply_mappings}
use sinker.Tests.Script.{sync_fixture}
use sinker.Tests.Crates.{json_lib, read_object, to_value, read_path}
use sinker.Tests.Cases.Mapped.{one, mapping_of}

-- `ApiResource::from_gvk`
abbrev config_maps : ApiResource
config_maps = json_lib.from_gvk (record { group = ""; version = "v1"; kind = "ConfigMap" })

abbrev cluster_roles : ApiResource
cluster_roles =
    json_lib.from_gvk
      (record { group = "rbac.authorization.k8s.io"; version = "v1"; kind = "ClusterRole" })

abbrev sinker_containers : ApiResource
sinker_containers =
    json_lib.from_gvk
      (record { group = "sinker.influxdata.io"; version = "v1alpha1"; kind = "SinkerContainer" })

abbrev reference_to : ApiResource → String → Gvkn
reference_to ar name = record { api_version = ar.api_version; kind = ar.kind; name = name }

-- An object of a kind: its metadata, and its other fields.
abbrev object_of : ApiResource → Value → Value → Value
object_of ar metadata (object rest) = object (
    field "apiVersion" (string ar.api_version)
      (field "kind" (string ar.kind) (field "metadata" metadata rest)))
object_of ar metadata v = v

abbrev named : String → Value
named name = one "name" (string name)

abbrev in_default : String → Value
in_default name = object (field "name" (string name) (field "namespace" (string "default") end))

-- The tests' call of `clone_resource`, and of `apply_mappings`
unfoldable cloned : ApiResource → String → Value → Result Error Value
unfolding read_object to_value clone_resource
cloned ar name source = do
  decoded ← map_err serialization_error (read_object source)
  target ← clone_resource json_lib decoded (reference_to ar name) (some "default") ar
  ok (to_value target)

unfoldable mapped_to :
    ApiResource → String → List (Option String × Option String) → Value → Result Error Value
unfolding read_object to_value apply_mappings read_path sinker.Prelude.Option-cases
    sinker.Mapping.FieldPath.split_once sinker.Mapping.strip_prefix sinker.Mapping.apply_each
    sinker.Json.get sinker.Json.insert sinker.Json.remove sinker.Json.index
mapped_to ar name paths source = do
  decoded ← map_err serialization_error (read_object source)
  target ←
      apply_mappings json_lib decoded (reference_to ar name) (some "default") ar
        (record sync_fixture {
          spec = record sync_fixture.spec { mappings = map mapping_of paths };
        })
  ok (to_value target)

abbrev dummy_data : Value
dummy_data = one "data" (one "dummykey" (string "dummyvalue"))

abbrev no_rules : Value
no_rules = one "rules" (array nil)

-- `test_clone_resource`
abbrev clone_config_map : Result Error Value
clone_config_map =
    cloned config_maps "test-configmap-2"
      (object_of config_maps (named "test-configmap-1") dummy_data)

-- `test_clone_resource_cluster_scoped`
abbrev clone_cluster_role : Result Error Value
clone_cluster_role =
    cloned cluster_roles "test-clusterrole-2"
      (object_of cluster_roles (named "test-clusterrole-1") no_rules)

clones_pass :
    clone_config_map ∷ clone_cluster_role ∷ []
    ≡ ok (object_of config_maps (in_default "test-configmap-2") dummy_data)
      ∷ ok (object_of cluster_roles (in_default "test-clusterrole-2") no_rules)
      ∷ []
unfolding cloned
clones_pass = refl

abbrev subtree : String → Value
subtree name = one "spec" (one name (one "key" (string "value")))

-- `test_apply_mappings`
abbrev map_subtree : Result Error Value
map_subtree =
    mapped_to sinker_containers "test-sinker-container-2"
      ((some "spec.subtree1", some "spec.subtree2") ∷ [])
      (object_of sinker_containers (named "test-sinker-container-1") (subtree "subtree1"))

map_subtree_pass :
    map_subtree
    ≡ ok (object_of sinker_containers (in_default "test-sinker-container-2") (subtree "subtree2"))
unfolding mapped_to
map_subtree_pass = refl

-- `test_apply_mappings_to_metadata`
abbrev map_labels : Result Error Value
map_labels =
    mapped_to sinker_containers "test-sinker-container-2"
      ((some "spec.subtree1", some "spec.subtree2")
        ∷ (some "metadata.labels", some "metadata.labels")
        ∷ [])
      (object_of sinker_containers
        (object (
          field "labels" (one "key" (string "value"))
            (field "name" (string "test-sinker-container-1") end)))
        (subtree "subtree1"))

map_labels_pass :
    map_labels
    ≡ ok (
        object_of sinker_containers
          (object (
            field "labels" (one "key" (string "value")) (
              field "name"
                (string "test-sinker-container-2")
                (field "namespace" (string "default") end))))
          (subtree "subtree2"))
unfolding mapped_to
map_labels_pass = refl

-- `test_apply_mappings_from_sinkercontainer`
abbrev unwrap_config_map : Result Error Value
unwrap_config_map = mapped_to config_maps "test-config-map-2" ((some "spec", none) ∷ []) (
    object_of sinker_containers (named "test-sinker-container") (
      one "spec" (
        object_of config_maps
          (object (
            field "annotations" (one "key1" (string "value1")) (
              field "labels" (one "key2" (string "value2"))
                (field "name" (string "test-config-map-1") end))))
          dummy_data)))

unwrap_config_map_pass :
    unwrap_config_map
    ≡ ok (
        object_of config_maps
          (object (
            field "annotations" (one "key1" (string "value1")) (
              field "labels" (one "key2" (string "value2")) (
                field "name"
                  (string "test-config-map-2")
                  (field "namespace" (string "default") end)))))
          dummy_data)
unfolding mapped_to sinker.Prelude.StringMap.remove
unwrap_config_map_pass = refl

-- `test_apply_mappings_from_sinkercontainer_clusterscoped`
abbrev unwrap_cluster_role : Result Error Value
unwrap_cluster_role = mapped_to cluster_roles "test-clusterrole" ((some "spec", none) ∷ []) (
    object_of sinker_containers (named "test-sinker-container")
      (one "spec" (object_of cluster_roles (named "test-clusterrole") no_rules)))

unwrap_cluster_role_pass :
    unwrap_cluster_role ≡ ok (object_of cluster_roles (in_default "test-clusterrole") no_rules)
unfolding mapped_to
unwrap_cluster_role_pass = refl

-- `test_apply_mappings_to_sinkercontainer`
abbrev deployment : Value
deployment = object (
    field "apiVersion" (string "v1") (
      field "kind" (string "Deployment") (
        field "metadata"
          (object (
            field "annotations" (one "key1" (string "value1")) (
              field "labels" (one "key2" (string "value2")) (
                field "name" (string "test-deployment")
                  (field "namespace" (string "default") end)))))
          (field "spec" (one "dummykey" (string "dummyvalue"))
            (field "status" (one "isgood" (bool true)) end)))))

abbrev wrap_deployment : Result Error Value
wrap_deployment =
    mapped_to sinker_containers "test-sinker-container" ((none, some "spec") ∷ []) deployment

wrap_deployment_pass :
    wrap_deployment
    ≡ ok (object_of sinker_containers (in_default "test-sinker-container") (one "spec" deployment))
unfolding mapped_to
wrap_deployment_pass = refl
