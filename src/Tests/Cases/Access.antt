-- ===== src/Tests/Cases/Access.antt =====
-- The unit tests of src/resource_extensions.rs on finalizers and the local cluster.

use sinker.Prelude.{◌≡◌, refl, ℕ, String, Bool, true, false, Option, none, some, List, [], ◌∷◌, map}
use sinker.Result.{Result, ok}
use sinker.Error.{Error}
use sinker.Kube.{ApiResource, Scope, namespaced, cluster}
use sinker.Resources.{ResourceSync, ClusterRef, ClusterResourceRef, allowed_namespaces_annotation}
use sinker.Server.{
  Request, pinned_kind, NamespacedApi, all as every_namespace, in_namespace, ParentApi,
}
use sinker.ResourceExtensions.{
  Connections, finalizer, has_target_finalizer, finalizers_clone_or_empty, parent_api,
  remote_watcher_key, verify_kubeconfig_secret_access,
}
use sinker.ResourceExtensions.Api.{cluster_client, api_for}
use sinker.Tests.Fixtures.{lib, net, configmaps, initial}
use sinker.Tests.Script.{discovery_response, mock_api, finish, sync_fixture}

-- `finalizers_are_detected_and_cloned`
abbrev finalizer_cases : List (Option (List String))
finalizer_cases =
    none
    ∷ some []
    ∷ some ("example.com/other" ∷ [])
    ∷ some ("example.com/other" ∷ finalizer ∷ [])
    ∷ []

abbrev detect_finalizer : Option (List String) → Bool × List String
detect_finalizer finalizers =
    let s = record sync_fixture {
      metadata = record sync_fixture.metadata { finalizers = finalizers };
    } in
    (has_target_finalizer s, finalizers_clone_or_empty s)

finalizer_cases_pass :
    map detect_finalizer finalizer_cases
    ≡ (false, [])
      ∷ (false, [])
      ∷ (false, "example.com/other" ∷ [])
      ∷ (true, "example.com/other" ∷ finalizer ∷ [])
      ∷ []
unfolding has_target_finalizer finalizers_clone_or_empty
finalizer_cases_pass = refl

-- `local_client_and_resource_sync_api_do_not_require_discovery`: the client, how the API of the syncs is
-- constructed with a namespace and without one, and the requests
abbrev local_client : Result Error ℕ × Option (List (Request ℕ))
local_client =
    let (client, w) = cluster_client lib net (mock_api []) none "team-a" 0 initial in
    (client, finish [] w.history)

abbrev sync_api : Option String → ParentApi ℕ
sync_api namespace =
    parent_api
      (record sync_fixture { metadata = record sync_fixture.metadata { namespace = namespace } }) 0

local_client_pass : local_client ≡ (ok 0, some [])
unfolding cluster_client sinker.Exec.pure
local_client_pass = refl

sync_api_pass :
    map sync_api (some "team-a" ∷ none ∷ [])
    ≡ record { client = 0; scope = in_namespace "team-a" }
      ∷ record { client = 0; scope = every_namespace }
      ∷ []
unfolding parent_api
sync_api_pass = refl

-- `local_api_uses_discovered_scope`
abbrev scope_cases : List (ApiResource × Scope)
scope_cases =
    (configmaps, namespaced)
    ∷ (record configmaps { kind = "Namespace"; plural = "namespaces" }, cluster)
    ∷ []

abbrev local_api : ApiResource × Scope → Result Error (NamespacedApi ℕ) × Option (List (Request ℕ))
local_api (resource, scope) =
    let script = discovery_response resource scope ∷ [] in
    let source = sync_fixture.spec.source in
    let kind = record source {
      resource_ref = record source.resource_ref { kind = resource.kind };
    } in
    let (result, w) = api_for lib net (mock_api script) kind "team-a" 0 initial in
    (result, finish script w.history)

scope_cases_pass :
    map local_api scope_cases
    ≡ (
      ok (record {
        ar = configmaps;
        namespace = some "team-a";
        client = 0;
        scope = in_namespace "team-a";
      }),
      some (pinned_kind 0 (record { group = ""; version = "v1"; kind = "ConfigMap" }) ∷ []),
    )
      ∷ (
        ok (record {
          ar = record configmaps { kind = "Namespace"; plural = "namespaces" };
          namespace = none;
          client = 0;
          scope = every_namespace;
        }),
        some (pinned_kind 0 (record { group = ""; version = "v1"; kind = "Namespace" }) ∷ []),
      )
      ∷ []
unfolding api_for sinker.Exec.◌>>=◌ cluster_client sinker.Resources.group_version_kind
    sinker.Exec.convert sinker.Exec.send sinker.ResourceExtensions.Api.resolve_namespace
    sinker.ResourceExtensions.Api.api_scope
scope_cases_pass = refl
