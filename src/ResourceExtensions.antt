-- ===== src/ResourceExtensions.antt =====
-- src/resource_extensions.rs: the finalizer and the watches of a ResourceSync, and the client and the
-- API through which a reference is reached.
pub mod Finalizers
pub mod Api
pub mod Access
pub mod Watches
use mathlib.Core.Option
use sinker.Prelude.{
  ℕ, String, Bool, true, false, not, Option, none, some, List, [], ◌∷◌, any, ◌==◌, if◌then◌else◌,
}
use sinker.Prelude.StringMap
use sinker.Result.{Result, ok, err, ◌>>=◌ as ◌>>>=◌, map_err, ok_or, unwrap}
use sinker.Error.{
  Error, kube_error, parse_group_version_error, kubeconfig_error, kubeconfig_utf8_error,
  missing_key_error, unauthorized_kubeconfig_access,
}
use sinker.Kube.{Secret, KubeError, Scope, cluster, namespaced, ApiResource, ObjectRef}
use sinker.Kube.Libraries.{Libraries}
use sinker.Resources.{
  ResourceSync, ClusterRef, ClusterResourceRef, allowed_namespaces_annotation, group_version_kind,
}
use sinker.RemoteWatcherManager.{RemoteWatcherKey, add_if_not_exists, stop_and_remove_if_exists}
use sinker.Server.{
  NamespacedApi, ParentApi, ApiScope, all, default_namespaced, in_namespace, Server, get_secret,
  apiserver_version, pinned_kind,
}
use sinker.Exec.{Exec, pure, lift, convert, send, manage, ◌>>=◌, ◌>>◌}

abbrev pub finalizer : String
finalizer = "sinker.influxdata.io/target"

abbrev pub is_some {ℓ} : {A : Type ℓ} → Option A → Bool
is_some none = false
is_some (some _) = true

unfoldable pub has_been_deleted : ResourceSync → Bool
has_been_deleted sync = is_some sync.metadata.deletion_timestamp

-- `Vec::contains`
abbrev pub contains : String → List String → Bool
contains item = any (λ i. i == item)

unfoldable pub has_target_finalizer : ResourceSync → Bool
has_target_finalizer sync = elim sync.metadata.finalizers [
  | none ↦ false
  | some f ↦ contains finalizer f
]

unfoldable pub finalizers_clone_or_empty : ResourceSync → List String
finalizers_clone_or_empty sync = Option.get_or sync.metadata.finalizers []

-- `ResourceSync::api`
unfoldable pub parent_api : {C : Type 0} → ResourceSync → C → ParentApi C
parent_api sync client = elim sync.metadata.namespace [
  | none ↦ record { client = client; scope = all }
  | some ns ↦ record { client = client; scope = in_namespace ns }
]

-- Credentials and connections: what the program calls to turn a Secret's bytes into a client. `K` is
-- a parsed kubeconfig and `G` a connection's configuration.
pub record Connections (C K G : Type 0) : Type 0 where
  -- `str::from_utf8`, `Kubeconfig::from_yaml`, `Config::from_custom_kubeconfig`
  pub from_utf8 : List ℕ → Result String String
  pub from_yaml : String → Result String K
  pub from_custom_kubeconfig : K → Result String G
  -- the assignment to `config.default_namespace`, and `Client::try_from`
  pub set_default_namespace : String → G → G
  pub try_from : G → Result KubeError C

abbrev pub allow : Bool → Result Error (Unit {0})
allow true = ok tt
allow false = err unauthorized_kubeconfig_access

module _ (lib : Libraries) where
  unfoldable pub remote_watcher_key : ClusterResourceRef → ResourceSync → RemoteWatcherKey
  remote_watcher_key ref sync = record {
    object = ref;
    resource_sync = lib.object_ref sync.metadata;
  }

  unfoldable pub start_remote_watches_if_not_watching :
      {C E : Type 0} → ResourceSync → Exec C E (Unit {0})
  unfolding remote_watcher_key
  start_remote_watches_if_not_watching sync = do
    manage (add_if_not_exists (remote_watcher_key sync.spec.source sync))
    manage (add_if_not_exists (remote_watcher_key sync.spec.target sync))

  unfoldable pub stop_remote_watches_if_watching :
      {C E : Type 0} → ResourceSync → Exec C E (Unit {0})
  unfolding remote_watcher_key
  stop_remote_watches_if_watching sync = do
    manage (stop_and_remove_if_exists (remote_watcher_key sync.spec.source sync))
    manage (stop_and_remove_if_exists (remote_watcher_key sync.spec.target sync))

  unfoldable pub verify_kubeconfig_secret_access : String → Secret → Result Error (Unit {0})
  verify_kubeconfig_secret_access local_ns sec =
      ok_or (Option.bind sec.metadata.annotations (StringMap.get allowed_namespaces_annotation))
        unauthorized_kubeconfig_access
      >>>= λ allowed_namespaces.
          map_err (λ _. unauthorized_kubeconfig_access) (lib.compile_regex allowed_namespaces)
          >>>= λ is_match. allow (is_match local_ns)
