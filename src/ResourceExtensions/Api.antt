-- ===== src/ResourceExtensions/Api.antt =====
-- `cluster_client` and `api_for` of src/resource_extensions.rs.
use mathlib.Core.Option
use sinker.Prelude.{String, Option, none, some, ◌==◌, if◌then◌else◌}
use sinker.Prelude.StringMap
use sinker.Result.{Result, ok, map_err, ok_or, unwrap}
use sinker.Error.{
  Error, kube_error, parse_group_version_error, kubeconfig_error, kubeconfig_utf8_error,
  missing_key_error, unauthorized_kubeconfig_access,
}
use sinker.Kube.{Secret, KubeError, Scope, cluster, namespaced}
use sinker.Kube.Libraries.{Libraries}
use sinker.Resources.{ClusterRef, ClusterResourceRef, group_version_kind}
use sinker.Server.{
  NamespacedApi, ApiScope, all, default_namespaced, in_namespace, Server, get_secret,
  apiserver_version, pinned_kind,
}
use sinker.Exec.{Exec, pure, lift, convert, send, ◌>>=◌, ◌>>◌}
use sinker.ResourceExtensions.{Connections, verify_kubeconfig_secret_access}

-- The namespace that the kubeconfig Secret is read from.
abbrev pub secret_namespace : ClusterRef → String → String
secret_namespace cluster_ref local_ns =
    Option.get_or cluster_ref.kube_config.secret_ref.namespace local_ns

-- A failed read of another namespace's Secret is reported like a denied one.
abbrev pub secret_error : String → String → KubeError → Error
secret_error secret_ns local_ns e =
    if secret_ns == local_ns then kube_error e else unauthorized_kubeconfig_access

-- The namespace of a reference's resource, and how its `Api` is constructed.
unfoldable pub resolve_namespace : Scope → Option ClusterRef → String → Option String
resolve_namespace cluster _ local_ns = none
resolve_namespace namespaced none local_ns = some local_ns
resolve_namespace namespaced (some cluster_ref) local_ns = cluster_ref.namespace

unfoldable pub api_scope : Scope → Option String → ApiScope
api_scope cluster _ = all
api_scope namespaced none = default_namespaced
api_scope namespaced (some ns) = in_namespace ns

module _ {C K G : Type 0} (lib : Libraries) (net : Connections C K G) (server : Server C) where
  abbrev pub override_namespace : Option String → G → G
  override_namespace none config = config
  override_namespace (some ns) config = net.set_default_namespace ns config

  -- The checks that stand between a Secret and its use by a ResourceSync of a namespace.
  abbrev pub authorize : String → String → Secret → Result Error (Unit {0})
  authorize secret_ns local_ns sec =
      if secret_ns == local_ns then ok tt else verify_kubeconfig_secret_access lib local_ns sec

  -- From the Secret to a client: the bytes at the key, as text, as a kubeconfig, as a configuration.
  unfoldable pub connect : ClusterRef → String → Secret → Exec C Error C
  connect cluster_ref secret_ns sec = do
    let secret_ref = cluster_ref.kube_config.secret_ref
    entries ← lift (unwrap sec.payload)
    bytes ← lift (
        ok_or (StringMap.get secret_ref.key entries)
          (missing_key_error secret_ref.key secret_ref.name secret_ns))
    text ← lift (map_err kubeconfig_utf8_error (net.from_utf8 bytes))
    kube_config ← lift (map_err kubeconfig_error (net.from_yaml text))
    config ← lift (map_err kubeconfig_error (net.from_custom_kubeconfig kube_config))
    remote_client ←
        lift (map_err kube_error (net.try_from (override_namespace cluster_ref.namespace config)))
    convert kube_error (send server (apiserver_version remote_client))
    pure remote_client

  unfoldable pub cluster_client : Option ClusterRef → String → C → Exec C Error C
  cluster_client none local_ns client = pure client
  cluster_client (some cluster_ref) local_ns client = do
    let secret_ns = secret_namespace cluster_ref local_ns
    let name = cluster_ref.kube_config.secret_ref.name
    sec ← convert (secret_error secret_ns local_ns) (send server (get_secret client secret_ns name))
    lift (authorize secret_ns local_ns sec)
    connect cluster_ref secret_ns sec

  unfoldable pub api_for : ClusterResourceRef → String → C → Exec C Error (NamespacedApi C)
  api_for ref local_ns client = do
    client' ← cluster_client ref.cluster local_ns client
    gvk ← lift (map_err parse_group_version_error (group_version_kind lib ref.resource_ref))
    found ← convert kube_error (send server (pinned_kind client' gvk))
    let namespace = resolve_namespace found.1 ref.cluster local_ns
    pure (record {
      ar = found.0;
      namespace = namespace;
      client = client';
      scope = api_scope found.1 namespace;
    })
