-- ===== src/ResourceExtensions/Access.antt =====
-- Who may use a kubeconfig Secret, and where a reference is resolved.
use mathlib.Core.Option
use sinker.Prelude.{
  ◌≡◌, ◌≢◌, ◌↔◌, ◌⊎◌, refl, String, Bool, true, false, none, some, ◌∷◌, arith, inl, inr, test_of_ne,
}
use sinker.Prelude.StringMap
use sinker.Result.{
  ok, map_err, ok_or, >>=-eq-ok, ok_or-eq-ok, map_err-eq-ok, is_ok, is_error, is_panic,
  Result-cases,
}
use sinker.Error.{unauthorized_kubeconfig_access}
use sinker.Kube.{Secret, Scope, cluster, namespaced}
use sinker.Kube.Libraries.{Libraries}
use sinker.Resources.{
  ClusterRef, ClusterResourceRef, allowed_namespaces_annotation, group_version_kind,
}
use sinker.Server.{get_secret, pinned_kind, Server, World, NamespacedApi, all, in_namespace}
use sinker.Exec.{◌>>=◌, ◌>>◌, convert, send, lift, pure}
use sinker.ResourceExtensions.{Connections, allow, verify_kubeconfig_secret_access}
use sinker.ResourceExtensions.Api.{
  secret_namespace, cluster_client, api_for, api_scope, resolve_namespace,
}

-- The Secret names a pattern that compiles and matches the namespace.
pub record Allows (lib : Libraries) (ns : String) (sec : Secret) : Type 0 where
  pub pattern : String
  pub is_match : String → Bool
  pub annotated :
      Option.bind sec.metadata.annotations (StringMap.get allowed_namespaces_annotation)
      ≡ some pattern
  pub compiled : lib.compile_regex pattern ≡ ok is_match
  pub matched : is_match ns ≡ true

allow-eq-ok : (b : Bool) {u : Unit {0}} → allow b ≡ ok u → b ≡ true
allow-eq-ok true h = refl
allow-eq-ok false h = cc

-- Access to a Secret is granted exactly if its annotation is there, compiles and matches the
-- namespace.
pub verify_kubeconfig_secret_access_iff :
    (lib : Libraries) (ns : String) (sec : Secret)
    → (verify_kubeconfig_secret_access lib ns sec ≡ ok tt) ↔ Allows lib ns sec
unfolding verify_kubeconfig_secret_access
verify_kubeconfig_secret_access_iff lib ns sec =
    (grant, λ a. rw (a.annotated, a.compiled, a.matched))
  where
    grant : verify_kubeconfig_secret_access lib ns sec ≡ ok tt → Allows lib ns sec
    grant h =
        let annotation =
          Option.bind sec.metadata.annotations (StringMap.get allowed_namespaces_annotation) in
        let (pattern, annotated, rest) =
          >>=-eq-ok (ok_or annotation unauthorized_kubeconfig_access) _ h in
        let (is_match, compiled, matched) =
          >>=-eq-ok (map_err (λ _. unauthorized_kubeconfig_access) (lib.compile_regex pattern)) _
            rest in
        record {
          pattern = pattern;
          is_match = is_match;
          annotated = ok_or-eq-ok annotation _ annotated;
          compiled = map_err-eq-ok _ (lib.compile_regex pattern) compiled;
          matched = allow-eq-ok (is_match ns) matched;
        }

module _ {C K G : Type 0} (lib : Libraries) (net : Connections C K G) (server : Server C) where
  -- A kubeconfig Secret of another namespace that does not allow the sync's is read and not used:
  -- no client comes of it, and no further request is sent.
  pub cluster_client_denied :
      (r : ClusterRef) (ns : String) (c : C) (sec : Secret) (w : World C)
      → let request = get_secret c (secret_namespace r ns) r.kube_config.secret_ref.name in
        server.answer w.history request ≡ ok sec
        → secret_namespace r ns ≢ ns
        → ¬ Allows lib ns sec
        → let (result, w') = cluster_client lib net server (some r) ns c w in
          ((c' : C) → result ≢ ok c') × (w'.history ≡ request ∷ w.history)
  unfolding cluster_client ◌>>=◌ ◌>>◌ convert send lift
  cluster_client_denied r ns c sec w answered elsewhere denied =
      elim (Result-cases (verify_kubeconfig_secret_access lib ns sec)) [
        | is_ok u e ↦ absurd (denied ((verify_kubeconfig_secret_access_iff lib ns sec).0 e))
        | is_error x e ↦ rw (answered, test_of_ne _ _ elsewhere, e) (λ c' h. cc h, refl)
        | is_panic e ↦ rw (answered, test_of_ne _ _ elsewhere, e) (λ c' h. cc h, refl)
      ]

  -- The API of a found kind of a local reference.
  local_scope :
      (scope : Scope) (ns : String)
      → (api_scope scope (resolve_namespace scope none ns) ≡ all)
        ⊎ (api_scope scope (resolve_namespace scope none ns) ≡ in_namespace ns)
  unfolding api_scope resolve_namespace
  local_scope cluster ns = inl refl
  local_scope namespaced ns = inr refl

  -- A reference without a cluster, where its API is found, is reached by the controller's own
  -- client, and only in the sync's namespace unless its kind has no namespace.
  pub api_for_local :
      (ref : ClusterResourceRef) (ns : String) (c : C) (w : World C) {a : NamespacedApi C}
      → ref.cluster ≡ none
      → (api_for lib net server ref ns c w).0 ≡ ok a
      → (a.client ≡ c) × ((a.scope ≡ all) ⊎ (a.scope ≡ in_namespace ns))
  unfolding api_for cluster_client ◌>>=◌ convert send lift pure
  api_for_local ref ns c w {a} here h =
      elim (Result-cases (group_version_kind lib ref.resource_ref)) [
        | is_error x e ↦ ground (arith, here, e, h)
        | is_panic e ↦ ground (arith, here, e, h)
        | is_ok gvk e ↦ elim (Result-cases (server.answer w.history (pinned_kind c gvk))) [
          | is_error x f ↦ ground (arith, here, e, f, h)
          | is_panic f ↦ ground (arith, here, e, f, h)
          | is_ok found f ↦ ground (arith, here, e, f, h, local_scope found.1 ns)
        ]
      ]
