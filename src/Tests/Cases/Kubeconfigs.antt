-- ===== src/Tests/Cases/Kubeconfigs.antt =====
-- The unit tests of src/resource_extensions.rs that lead to another cluster or tell it apart.
use mathlib.Core.Option
use sinker.Prelude.{
  ◌≡◌, refl, ℕ, String, Bool, true, false, Option, none, some, List, [], ◌∷◌, map, nat_eq, ◌==◌,
  if◌then◌else◌,
}
use sinker.Prelude.StringMap.{StringMap}
use sinker.Result.{Result, ok, err}
use sinker.Error.{
  Error, kube_error, kubeconfig_error, kubeconfig_utf8_error, missing_key_error,
  unauthorized_kubeconfig_access,
}
use sinker.Kube.{Secret, api, default_meta}
use sinker.Kube.Libraries.{Libraries}
use sinker.Resources.{ClusterRef, allowed_namespaces_annotation}
use sinker.Server.{Request, get_secret}
use sinker.ResourceExtensions.{
  Connections, finalizer, has_target_finalizer, finalizers_clone_or_empty, parent_api,
  remote_watcher_key, verify_kubeconfig_secret_access,
}
use sinker.ResourceExtensions.Api.{cluster_client, api_for}
use sinker.RemoteWatcherManager.{RemoteWatcherKey, same_key}
use sinker.Tests.Fixtures.{lib, net, initial}
use sinker.Tests.Script.{Scripted, api_error, secret, mock_api, finish, sync_fixture}

-- `cluster_ref` and `secret_with_annotation`
abbrev cluster_ref : Option String → ClusterRef
cluster_ref namespace = record {
  namespace = some "workloads";
  kube_config = record {
    secret_ref = record { name = "credentials"; namespace = namespace; key = "config" };
  };
}

abbrev annotate : String → StringMap String
annotate value = (allowed_namespaces_annotation, value) ∷ []

abbrev secret_with_annotation : Option String → Secret
secret_with_annotation value = record {
  metadata = record default_meta { annotations = Option.map annotate value };
  payload = none;
}

-- The patterns of the tests, as the regex crate reads them.
abbrev patterns : String → Result String (String → Bool)
patterns pattern =
    if pattern == "^team-a$"
    then ok (λ s. s == "team-a")
    else if pattern == "^denied$"
    then ok (λ s. s == "denied")
    else if pattern == "^.*$"
    then ok (λ s. true)
    else err "invalid"

abbrev matching_lib : Libraries
matching_lib = record lib { compile_regex = patterns }

-- A client for a remote cluster: the outcome and the requests.
abbrev remote_client :
    Connections ℕ String String
    → Scripted
    → Option String
    → Result Error ℕ × Option (List (Request ℕ))
remote_client connections response namespace =
    let (result, w) =
      cluster_client matching_lib connections (mock_api (response ∷ []))
        (some (cluster_ref namespace)) "team-a" 0 initial in
    (result, finish (response ∷ []) w.history)

abbrev secret_read : String → Option (List (Request ℕ))
secret_read namespace = some (get_secret 0 namespace "credentials" ∷ [])

-- `secret_read_errors_hide_cross_namespace_details`
abbrev read_cases : List (Option String)
read_cases = none ∷ some "team-a" ∷ some "credential-store" ∷ []

read_cases_pass :
    map (remote_client net (api_error 403)) read_cases
    ≡ (err (kube_error (api 403 "scripted API failure")), secret_read "team-a")
      ∷ (err (kube_error (api 403 "scripted API failure")), secret_read "team-a")
      ∷ (err unauthorized_kubeconfig_access, secret_read "credential-store")
      ∷ []
unfolding cluster_client sinker.Exec.◌>>=◌ sinker.Exec.convert sinker.Exec.send
read_cases_pass = refl

-- `secret_authorization_precedes_key_lookup`
abbrev lookup_cases : List (Option String × Option String)
lookup_cases =
    (none, none)
    ∷ (none, some "^denied$")
    ∷ (some "credential-store", none)
    ∷ (some "credential-store", some "^denied$")
    ∷ (some "credential-store", some "^team-a$")
    ∷ []

abbrev look_up : Option String × Option String → Result Error ℕ × Option (List (Request ℕ))
look_up (namespace, annotation) =
    remote_client net (secret (record (secret_with_annotation annotation) { payload = some [] }))
      namespace

lookup_cases_pass :
    map look_up lookup_cases
    ≡ (err (missing_key_error "config" "credentials" "team-a"), secret_read "team-a")
      ∷ (err (missing_key_error "config" "credentials" "team-a"), secret_read "team-a")
      ∷ (err unauthorized_kubeconfig_access, secret_read "credential-store")
      ∷ (err unauthorized_kubeconfig_access, secret_read "credential-store")
      ∷ (
        err (missing_key_error "config" "credentials" "credential-store"),
        secret_read "credential-store",
      )
      ∷ []
unfolding cluster_client sinker.Exec.◌>>=◌ sinker.Exec.convert sinker.Exec.send sinker.Exec.◌>>◌
    sinker.ResourceExtensions.Api.connect verify_kubeconfig_secret_access
    sinker.Prelude.StringMap.get Option.bind
lookup_cases_pass = refl

-- `invalid_kubeconfigs_return_typed_errors`, with bytes that stand for the test's
abbrev failing_net : Connections ℕ String String
failing_net = record net {
  from_utf8 = λ bytes. elim bytes [
    | [] ↦ ok ""
    | b ∷ rest ↦
        if nat_eq b 255 then err "utf8" else if nat_eq b 91 then ok "yaml" else ok "context"
  ];
  from_yaml = λ text. if text == "yaml" then err "yaml" else ok text;
  from_custom_kubeconfig = λ kubeconfig. err "context";
}

abbrev kubeconfig_cases : List (List ℕ)
kubeconfig_cases = (255 ∷ []) ∷ (91 ∷ []) ∷ (97 ∷ []) ∷ []

abbrev connect_with : List ℕ → Result Error ℕ × Option (List (Request ℕ))
connect_with bytes =
    remote_client failing_net
      (secret (record { metadata = default_meta; payload = some (("config", bytes) ∷ []) })) none

kubeconfig_cases_pass :
    map connect_with kubeconfig_cases
    ≡ (err (kubeconfig_utf8_error "utf8"), secret_read "team-a")
      ∷ (err (kubeconfig_error "yaml"), secret_read "team-a")
      ∷ (err (kubeconfig_error "context"), secret_read "team-a")
      ∷ []
unfolding cluster_client sinker.Exec.◌>>=◌ sinker.Exec.convert sinker.Exec.send sinker.Exec.◌>>◌
    sinker.ResourceExtensions.Api.connect sinker.Prelude.StringMap.get
kubeconfig_cases_pass = refl

-- `watcher_keys_distinguish_owners_and_resource_connections`
abbrev other_keys : List RemoteWatcherKey
other_keys =
    let reference = sync_fixture.spec.source in
    remote_watcher_key lib reference (record sync_fixture {
      metadata = record sync_fixture.metadata { namespace = some "team-b" };
    })
    ∷ remote_watcher_key lib reference (record sync_fixture {
      metadata = record sync_fixture.metadata { name = some "other-sync" };
    })
    ∷ remote_watcher_key lib (record reference { cluster = some (cluster_ref none) }) sync_fixture
    ∷ remote_watcher_key lib sync_fixture.spec.target sync_fixture
    ∷ []

abbrev same_as_source : RemoteWatcherKey → Bool
same_as_source = same_key (remote_watcher_key lib sync_fixture.spec.source sync_fixture)

other_keys_pass : map same_as_source other_keys ≡ false ∷ false ∷ false ∷ false ∷ []
unfolding same_key remote_watcher_key sinker.Prelude.Bool-cases
other_keys_pass = refl

-- `errs_when_annotation_missing`, `errs_when_annotation_key_absent` and `errs_on_invalid_regex`
abbrev refused_secrets : List Secret
refused_secrets =
    secret_with_annotation none
    ∷ record {
      metadata = record default_meta { annotations = some (("other-annotation", "^.*$") ∷ []) };
      payload = none;
    }
    ∷ secret_with_annotation (some "(")
    ∷ secret_with_annotation (some "\\")
    ∷ []

abbrev verify : Secret → Result Error (Unit {0})
verify = verify_kubeconfig_secret_access matching_lib "ns1"

refused_secrets_pass :
    map verify refused_secrets ≡ map (λ s. err unauthorized_kubeconfig_access) refused_secrets
unfolding verify_kubeconfig_secret_access Option.bind sinker.Prelude.StringMap.get
refused_secrets_pass = refl
