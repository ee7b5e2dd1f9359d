-- ===== src/Controller/Confined/Resolving.antt =====
-- Resolving a ResourceSync's references stays within what it names.

use sinker.Prelude.{◌≡◌, refl, ◌⊎◌, inl, inr, String, Option, none, some}
use sinker.Error.{kube_error}
use sinker.Kube.{Secret}
use sinker.Kube.Libraries.{Libraries}
use sinker.Resources.{ResourceSync, ClusterRef, ClusterResourceRef}
use sinker.Server.{Request, get_secret, pinned_kind, Server}
use sinker.Exec.{send}
use sinker.Exec.Keeps.{
  Keeps, Keeps-pure, Keeps-bind, Keeps-convert, Keeps-then, Keeps-lift, keeps_rules,
}
use sinker.Exec.Ensures.{Ensures, Ensures-value}
use sinker.ResourceExtensions.{Connections}
use sinker.ResourceExtensions.Api.{connect, cluster_client, api_for, secret_namespace}
use sinker.Controller.Reconcile.{source_and_target_apis}
use sinker.Controller.Confined.{Confined, Within, Resolved}
use sinker.Controller.Confined.Leading.{names_secret, apis-Resolved}

module _ {C K G : Type 0} (lib : Libraries) (net : Connections C K G) (server : Server C)
    (sync : ResourceSync) (client : C) where
  pub sends :
      (r : Request C)
      → Within lib net server sync client r
      → Keeps (Confined lib net server sync client) (send server r)
  unfolding send
  sends r h = record { at = λ w all. record { within = (h, all.within) } }

  connect-Confined :
      (k : ClusterRef) (ns : String) (sec : Secret)
      → Keeps (Confined lib net server sync client) (connect lib net server k ns sec)
  unfolding connect
  connect-Confined k ns sec = search (keeps_rules, sends) depth 30

  module _ (ns : String) (here : sync.metadata.namespace ≡ some ns) where
    reads_secret :
        (k : ClusterRef)
        → (sync.spec.source.cluster ≡ some k) ⊎ (sync.spec.target.cluster ≡ some k)
        → Keeps
            (Confined lib net server sync client)
            (send server (get_secret client (secret_namespace k ns) k.kube_config.secret_ref.name))
    reads_secret k named =
        sends (get_secret client (secret_namespace k ns) k.kube_config.secret_ref.name)
          (refl, k, named, names_secret lib net server sync client ns here k)

    cluster_client-Confined :
        (o : Option ClusterRef)
        → (sync.spec.source.cluster ≡ o) ⊎ (sync.spec.target.cluster ≡ o)
        → Keeps (Confined lib net server sync client) (cluster_client lib net server o ns client)
    unfolding cluster_client
    cluster_client-Confined none named = Keeps-pure client
    cluster_client-Confined (some k) named =
        Keeps-bind _ _ (Keeps-convert _ _ (reads_secret k named))
          (λ sec. Keeps-then _ _ (Keeps-lift _) (connect-Confined k _ sec))

    api_for-Confined :
        (r : ClusterResourceRef)
        → (sync.spec.source.cluster ≡ r.cluster) ⊎ (sync.spec.target.cluster ≡ r.cluster)
        → Keeps (Confined lib net server sync client) (api_for lib net server r ns client)
    unfolding api_for
    api_for-Confined r named = Keeps-bind _ _ (cluster_client-Confined r.cluster named) λ c.
        Keeps-bind _ _ (Keeps-lift _) λ gvk.
          Keeps-bind _ _ (Keeps-convert kube_error _ (sends (pinned_kind c gvk) tt))
            λ found. Keeps-pure _

    apis-Confined :
        Keeps
          (Confined lib net server sync client)
          (source_and_target_apis lib net server sync client ns)
    unfolding source_and_target_apis
    apis-Confined = Keeps-bind _ _ (api_for-Confined sync.spec.target (inr refl)) λ target.
        Keeps-bind _ _ (api_for-Confined sync.spec.source (inl refl)) λ source. Keeps-pure _

    pub resolves-Confined :
        Ensures
          (Confined lib net server sync client)
          (Resolved lib net server sync client)
          (source_and_target_apis lib net server sync client ns)
    resolves-Confined =
        Ensures-value _ apis-Confined (apis-Resolved lib net server sync client ns here)
