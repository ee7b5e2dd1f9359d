-- ===== src/Controller/Confined.antt =====
-- What a reconciliation of src/controller.rs may have to do with: the objects that the spec names, and
-- through which clients and in which namespaces.
pub mod Leading
pub mod Resolving
pub mod Handling
use sinker.Prelude.{ℕ, ◌≡◌, ◌⊎◌, String, true, Option, none, some, List, [], ◌∷◌}
use sinker.Prelude.StringMap
use sinker.Prelude.StringMap.{StringMap}
use sinker.Result.{ok}
use sinker.Kube.{Secret, Scope, cluster, namespaced, GroupVersionKind}
use sinker.Kube.Libraries.{Libraries}
use sinker.Resources.{ResourceSync, ClusterRef, ClusterResourceRef}
use sinker.Server.{
  Request, get_secret, apiserver_version, pinned_kind, get, delete, apply, patch_finalizers,
  get_status, patch_status, list_syncs, all, default_namespaced, in_namespace, Server, World,
  NamespacedApi, ParentApi,
}
use sinker.ResourceExtensions.{Connections, parent_api}

module _ {C : Type 0} (sync : ResourceSync) (client : C) where
  -- A Secret that a cluster reference names, in its namespace or by default in the ResourceSync's.
  abbrev pub NamesSecret : ClusterRef → String → String → Type 0
  NamesSecret k ns name =
      (name ≡ k.kube_config.secret_ref.name)
      × ((k.kube_config.secret_ref.namespace ≡ some ns)
          ⊎ ((k.kube_config.secret_ref.namespace ≡ none) × (sync.metadata.namespace ≡ some ns)))

  -- The ResourceSync itself.
  abbrev pub Own : ParentApi C → String → Type 0
  Own parent name = (parent ≡ parent_api sync client) × (sync.metadata.name ≡ some name)

module _ {C K G : Type 0} (lib : Libraries) (net : Connections C K G) (server : Server C)
    (sync : ResourceSync) (client : C) where
  -- A configuration with the default namespace of the reference, if it has one.
  abbrev pub Configured : Option String → G → G → Type 0
  Configured none config used = used ≡ config
  Configured (some ns) config used = used ≡ net.set_default_namespace ns config

  -- The kubeconfig of a Secret, at the key of the reference, leads to a client.
  pub record Connects (k : ClusterRef) (sec : Secret) (c : C) : Type 0 where
    pub entries : StringMap (List ℕ)
    pub bytes : List ℕ
    pub text : String
    pub kube_config : K
    pub config : G
    pub used : G
    pub filled : sec.payload ≡ some entries
    pub found : StringMap.get k.kube_config.secret_ref.key entries ≡ some bytes
    pub decoded : net.from_utf8 bytes ≡ ok text
    pub parsed : net.from_yaml text ≡ ok kube_config
    pub configured : net.from_custom_kubeconfig kube_config ≡ ok config
    pub placed : Configured k.namespace config used
    pub connected : net.try_from used ≡ ok c

  -- The client of a reference: without a cluster the controller's own, else one to which a Secret that
  -- the reference names leads, as some answer to its read had it.
  abbrev pub ClientOf : Option ClusterRef → C → Type 0
  ClientOf none c = c ≡ client
  ClientOf (some k) c =
      (ns : String) × (history : List (Request C)) × (sec : Secret) × NamesSecret sync client k ns
        k.kube_config.secret_ref.name
      × (server.answer history (get_secret client ns k.kube_config.secret_ref.name) ≡ ok sec)
      × Connects k sec c

  -- Where an API is: nowhere in particular for a kind without namespaces, else in the ResourceSync's
  -- namespace without a cluster, and with one in the namespace that the cluster reference gives, or in
  -- the default one of its client.
  abbrev pub Placed : Option ClusterRef → Scope → NamespacedApi C → Type 0
  Placed o cluster a = (a.scope ≡ all) × (a.namespace ≡ none)
  Placed none namespaced a =
      (ns : String) × (sync.metadata.namespace ≡ some ns)
      × (a.scope ≡ in_namespace ns)
      × (a.namespace ≡ some ns)
  Placed (some k) namespaced a =
      (a.namespace ≡ k.namespace)
      × (((k.namespace ≡ none) × (a.scope ≡ default_namespaced))
          ⊎ ((ns : String) × (k.namespace ≡ some ns) × (a.scope ≡ in_namespace ns)))

  -- The API of a reference: of its client, of the kind that its type leads to, as some answer to the
  -- discovery of that kind had it, and in its namespace.
  pub record Leads (r : ClusterResourceRef) (a : NamespacedApi C) : Type 0 where
    pub client_of : ClientOf r.cluster a.client
    pub gvk : GroupVersionKind
    pub named :
        lib.parse_gvk
          (record { api_version = r.resource_ref.api_version; kind = r.resource_ref.kind })
        ≡ ok gvk
    pub history : List (Request C)
    pub scope : Scope
    pub discovered : server.answer history (pinned_kind a.client gvk) ≡ ok (a.ar, scope)
    pub placed : Placed r.cluster scope a

  -- The source's API and the target's.
  abbrev pub Resolved : NamespacedApi C × NamespacedApi C → Type 0
  Resolved (source, target) = Leads sync.spec.source source × Leads sync.spec.target target

  -- A request to an object that a reference names.
  abbrev pub Refers : ClusterResourceRef → NamespacedApi C → String → Type 0
  Refers r a name = Leads r a × (name ≡ r.resource_ref.name)

  abbrev pub Within : Request C → Type 0
  Within (get_secret c ns name) =
      (c ≡ client)
      × (k : ClusterRef) × ((sync.spec.source.cluster ≡ some k)
          ⊎ (sync.spec.target.cluster ≡ some k))
      × NamesSecret sync client k ns name
  Within (apiserver_version _) = Unit
  Within (pinned_kind _ _) = Unit
  Within (get a name) = Refers sync.spec.source a name ⊎ Refers sync.spec.target a name
  Within (delete a name _) = Refers sync.spec.target a name
  Within (apply a name manager force _) =
      Refers sync.spec.target a name × (manager ≡ "sinker.influxdata.io") × (force ≡ true)
  Within (patch_finalizers parent name _) = Own sync client parent name
  Within (get_status parent name) = Own sync client parent name
  Within (patch_status parent name _) = Own sync client parent name
  Within (list_syncs _ _) = ⊥

  abbrev pub AllWithin : List (Request C) → Type 0
  AllWithin [] = Unit
  AllWithin (r ∷ rs) = Within r × AllWithin rs

  -- Every request so far is within what the ResourceSync names.
  pub record Confined (w : World C) : Type 0 where
    pub within : AllWithin w.history
