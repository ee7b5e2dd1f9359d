-- ===== src/Controller/Confined/Leading.antt =====
-- What a ResourceSync's references lead to, whatever else is kept: their clients and their APIs.
use mathlib.Core.Option
use sinker.Prelude.{◌≡◌, refl, sym, ap, ◌∙◌, ◌⊎◌, inl, inr, String, Option, none, some}
use sinker.Prelude.StringMap
use sinker.Result.{ok}
use sinker.Error.{Error, kube_error}
use sinker.Kube.{Scope, cluster, namespaced, Secret, ApiResource}
use sinker.Kube.Libraries.{Libraries}
use sinker.Resources.{ResourceSync, ClusterRef, ClusterResourceRef, group_version_kind, type_meta}
use sinker.Server.{get_secret, pinned_kind, default_namespaced, in_namespace, Server}
use sinker.Exec.{Exec}
use sinker.Exec.Keeps.{Keeps}
use sinker.Exec.Ensures.{
  Ensures, Any, Ensures-pure, Ensures-lift, Ensures-convert, Ensures-bind, Keeps-Ensures,
  Ensures-send, Ensures-weaken, Ensures-then, Yields-map_err, Yields-ok_or, Yields-unwrap,
}
use sinker.ResourceExtensions.{Connections}
use sinker.ResourceExtensions.Api.{
  connect, cluster_client, api_for, resolve_namespace, api_scope, secret_namespace, secret_error,
  override_namespace,
}
use sinker.Controller.Reconcile.{source_and_target_apis}
use sinker.Controller.Confined.{
  Leads, NamesSecret, Resolved, Configured, Connects, ClientOf, Placed,
}

-- Of a world nothing is kept.
always : {C E A : Type 0} (m : Exec C E A) → Keeps (λ _. Unit {0}) m
always m = record { at = λ w h. tt }

-- The namespace of a Secret is the one that its reference names, or that of the ResourceSync.
secret_namespace_lem :
    (k : ClusterRef) (local_ns : String)
    → (k.kube_config.secret_ref.namespace ≡ some (secret_namespace k local_ns))
      ⊎ ((k.kube_config.secret_ref.namespace ≡ none) × (secret_namespace k local_ns ≡ local_ns))
secret_namespace_lem k local_ns = go k.kube_config.secret_ref.namespace
  where
    go :
        (o : Option String)
        → (o ≡ some (Option.get_or o local_ns))
          ⊎ ((o ≡ none) × (Option.get_or o local_ns ≡ local_ns))
    go none = inr (refl, refl)
    go (some ns) = inl refl

module _ {C K G : Type 0} (lib : Libraries) (net : Connections C K G) (server : Server C)
    (sync : ResourceSync) (client : C) where
  configured :
      (o : Option String) (config : G)
      → Configured lib net server sync client o config (override_namespace lib net server o config)
  configured none config = refl
  configured (some ns) config = refl

  connect-Connects :
      (k : ClusterRef) (ns : String) (sec : Secret)
      → Ensures
          (λ _. Unit {0})
          (Connects lib net server sync client k sec)
          (connect lib net server k ns sec)
  unfolding connect
  connect-Connects k ns sec =
      Ensures-bind (λ entries. sec.payload ≡ some entries) _ _
        (Ensures-lift _ (Yields-unwrap Error sec.payload))
        λ entries filled.
          Ensures-bind (λ bytes. StringMap.get k.kube_config.secret_ref.key entries ≡ some bytes) _
            _ (Ensures-lift _ (Yields-ok_or (StringMap.get k.kube_config.secret_ref.key entries) _))
            λ bytes found.
              Ensures-bind (λ text. net.from_utf8 bytes ≡ ok text) _ _
                (Ensures-lift _ (Yields-map_err _ (net.from_utf8 bytes)))
                λ text decoded.
                  Ensures-bind (λ kube_config. net.from_yaml text ≡ ok kube_config) _ _
                    (Ensures-lift _ (Yields-map_err _ (net.from_yaml text)))
                    λ kube_config parsed.
                      Ensures-bind (λ config. net.from_custom_kubeconfig kube_config ≡ ok config) _
                        _
                        (Ensures-lift _ (Yields-map_err _ (net.from_custom_kubeconfig kube_config)))
                        λ config built.
                          let used = override_namespace lib net server k.namespace config in
                          Ensures-bind (λ c. net.try_from used ≡ ok c) _ _
                            (Ensures-lift _ (Yields-map_err _ (net.try_from used)))
                            λ c connected. Ensures-then Any _ _ (Keeps-Ensures _ (always _)) (
                              Ensures-pure c (record {
                                entries = entries;
                                bytes = bytes;
                                text = text;
                                kube_config = kube_config;
                                config = config;
                                used = used;
                                filled = filled;
                                found = found;
                                decoded = decoded;
                                parsed = parsed;
                                configured = built;
                                placed = configured k.namespace config;
                                connected = connected;
                              }))

  module _ (ns : String) (here : sync.metadata.namespace ≡ some ns) where
    pub names_secret :
        (k : ClusterRef)
        → NamesSecret sync client k (secret_namespace k ns) k.kube_config.secret_ref.name
    names_secret k = elim (secret_namespace_lem k ns) [
      | inl e ↦ (refl, inl e)
      | inr (e, same) ↦ (refl, inr (e, here ∙ ap some (sym same)))
    ]

    -- The client of a reference, whatever was sent before.
    cluster_client-ClientOf :
        (o : Option ClusterRef)
        → Ensures
            (λ _. Unit {0})
            (ClientOf lib net server sync client o)
            (cluster_client lib net server o ns client)
    unfolding cluster_client
    cluster_client-ClientOf none = Ensures-pure client refl
    cluster_client-ClientOf (some k) =
        let secret_ns = secret_namespace k ns in
        Ensures-bind _ _ _
          (Ensures-convert (secret_error secret_ns ns) _
            (Ensures-send server (get_secret client secret_ns k.kube_config.secret_ref.name)))
          λ sec (history, answered). Ensures-then Any _ _ (Keeps-Ensures _ (always _)) (
            Ensures-weaken _ (λ c by. (secret_ns, history, sec, names_secret k, answered, by))
              (connect-Connects k secret_ns sec))

    resolved :
        (o : Option ClusterRef) (scope : Scope) (ar : ApiResource) (c : C)
        → let namespace = resolve_namespace scope o ns in
          Placed lib net server sync client o scope (record {
            ar = ar;
            namespace = namespace;
            client = c;
            scope = api_scope scope namespace;
          })
    unfolding resolve_namespace api_scope
    resolved o cluster ar c = (refl, refl)
    resolved none namespaced ar c = (ns, here, refl, refl)
    resolved (some k) namespaced ar c = (refl, remote k.namespace)
      where
        remote :
            (o : Option String)
            → ((o ≡ none) × (api_scope namespaced o ≡ default_namespaced))
              ⊎ ((n : String) × (o ≡ some n) × (api_scope namespaced o ≡ in_namespace n))
        remote none = inl (refl, refl)
        remote (some n) = inr (n, refl, refl)

    api_for-Leads :
        (r : ClusterResourceRef)
        → Ensures
            (λ _. Unit {0})
            (Leads lib net server sync client r)
            (api_for lib net server r ns client)
    unfolding api_for group_version_kind type_meta
    api_for-Leads r =
        Ensures-bind (ClientOf lib net server sync client r.cluster) _ _
          (cluster_client-ClientOf r.cluster)
          λ c of_ref.
            Ensures-bind (λ gvk. group_version_kind lib r.resource_ref ≡ ok gvk) _ _
              (Ensures-lift _ (Yields-map_err _ (group_version_kind lib r.resource_ref)))
              λ gvk named.
                Ensures-bind _ _ _
                  (Ensures-convert kube_error _ (Ensures-send server (pinned_kind c gvk)))
                  λ found (history, discovered). Ensures-pure _ (record {
                    client_of = of_ref;
                    gvk = gvk;
                    named = named;
                    history = history;
                    scope = found.1;
                    discovered = discovered;
                    placed = resolved r.cluster found.1 found.0 c;
                  })

    -- What the two references lead to, whatever is kept.
    pub apis-Resolved :
        Ensures
          (λ _. Unit {0})
          (Resolved lib net server sync client)
          (source_and_target_apis lib net server sync client ns)
    unfolding source_and_target_apis
    apis-Resolved =
        Ensures-bind (Leads lib net server sync client sync.spec.target) _ _
          (api_for-Leads sync.spec.target)
          λ target at_target.
            Ensures-bind (Leads lib net server sync client sync.spec.source) _ _
              (api_for-Leads sync.spec.source)
              λ source at_source. Ensures-pure (source, target) (at_source, at_target)
