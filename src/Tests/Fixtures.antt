-- ===== src/Tests/Fixtures.antt =====
-- The ResourceSync, the servers and the crates' functions of the tests.
use mathlib.Core.Option
use sinker.Prelude.{ℕ, String, Option, none, some, List, [], ◌∷◌, ◌==◌, refl}
use sinker.Json.{Value, null, string, object, end, field, empty_object, index}
use sinker.Result.{Result, ok, err}
use sinker.Kube.{KubeError, api, default_meta, DynamicObject, ApiResource, Secret, namespaced}
use sinker.Kube.Libraries.{Libraries, NewObject, AtMostOne}
use sinker.Resources.{ResourceSync, Gvkn, ClusterResourceRef, allowed_namespaces_annotation}
use sinker.RemoteWatcherManager.{new}
use sinker.Server.{
  Request, Response, Server, World, NamespacedApi, ParentApi, in_namespace, get_secret,
  apiserver_version, pinned_kind, get, delete, apply, patch_finalizers, get_status, patch_status,
  list_syncs,
}
use sinker.ResourceExtensions.{Connections, finalizer}

abbrev single : List Value → Result String (Option Value)
single [] = ok none
single (v ∷ []) = ok (some v)
single (v ∷ w ∷ vs) = err "more than one node"

abbrev pub lib : Libraries
lib = record {
  new_object = λ name ar. record {
    types = some (record { api_version = ar.api_version; kind = ar.kind });
    metadata = record default_meta { name = some name };
    payload = null;
  };
  object_to_value = λ o. ok o.payload;
  object_to_text = λ o. ok "object";
  meta_to_value = λ m. ok empty_object;
  meta_from_value = λ v. ok default_meta;
  value_to_text = λ v. "null";
  parse_json_path = λ path. ok (λ v. index v "spec" ∷ []);
  at_most_one = single;
  from_gvk = λ gvk. record {
    group = gvk.group;
    version = gvk.version;
    api_version = gvk.version;
    kind = gvk.kind;
    plural = gvk.kind;
  };
  parse_gvk = λ t. ok (record { group = ""; version = t.api_version; kind = t.kind });
  object_ref = λ m. record { name = Option.get_or m.name ""; namespace = m.namespace };
  kube_error_text = λ e. "refused";
  compile_regex = λ pattern. ok (λ s. s == pattern);
}

pub lib-NewObject : NewObject lib
lib-NewObject = record { new_object_lem = λ name ar. refl }

pub lib-AtMostOne : AtMostOne lib
lib-AtMostOne = record {
  no_node = refl;
  one_node = λ v. refl;
  more_nodes = λ v w vs. ("more than one node", refl);
}

-- A client is a number; the controller's own is 0, and every kubeconfig leads to 1.
abbrev pub net : Connections ℕ String String
net = record {
  from_utf8 = λ bytes. ok "kubeconfig";
  from_yaml = ok;
  from_custom_kubeconfig = ok;
  set_default_namespace = λ ns config. config;
  try_from = λ config. ok 1;
}

abbrev config_map : String → Gvkn
config_map name = record { api_version = "v1"; kind = "ConfigMap"; name = name }

abbrev pub reference : String → ClusterResourceRef
reference name = record { resource_ref = config_map name; cluster = none }

abbrev pub sync : ResourceSync
sync = record {
  metadata = record default_meta {
    name = some "copy-config";
    namespace = some "team-a";
    uid = some "sync-uid";
    generation = some 7;
    finalizers = some (finalizer ∷ []);
  };
  spec = record {
    source = reference "source-config";
    target = reference "target-config";
    mappings = [];
  };
  status = none;
}

abbrev pub deleted_sync : ResourceSync
deleted_sync = record sync { metadata = record sync.metadata { deletion_timestamp = some 9 } }

abbrev pub configmaps : ApiResource
configmaps = record {
  group = "";
  version = "v1";
  api_version = "v1";
  kind = "ConfigMap";
  plural = "configmaps";
}

abbrev pub source_config : DynamicObject
source_config = record {
  types = some (record { api_version = "v1"; kind = "ConfigMap" });
  metadata = record default_meta { name = some "source-config" };
  payload = object (field "spec" (object (field "color" (string "red") end)) end);
}

-- A Secret that only `team-b` may use.
abbrev pub guarded : Secret
guarded = record {
  metadata = record default_meta {
    annotations = some ((allowed_namespaces_annotation, "team-b") ∷ []);
  };
  payload = some (("config", 65 ∷ []) ∷ []);
}

abbrev pub target_api : NamespacedApi ℕ
target_api = record {
  ar = configmaps;
  namespace = some "team-a";
  client = 0;
  scope = in_namespace "team-a";
}

abbrev pub parent : ParentApi ℕ
parent = record { client = 0; scope = in_namespace "team-a" }

abbrev pub respond :
    {C : Type 0} → Result KubeError DynamicObject → (r : Request C) → Result KubeError (Response r)
respond found (get_secret _ _ _) = ok guarded
respond found (apiserver_version _) = ok tt
respond found (pinned_kind _ _) = ok (configmaps, namespaced)
respond found (get _ _) = found
respond found (delete _ _ _) = ok tt
respond found (apply _ _ _ _ _) = ok tt
respond found (patch_finalizers _ _ _) = ok tt
respond found (get_status _ _) = ok none
respond found (patch_status _ _ _) = ok tt
respond found (list_syncs _ _) = ok tt

-- Servers on which every object is found, and on which none is.
abbrev pub present : Server ℕ
present = record { answer = λ history. respond (ok source_config); now = λ history. 20 }

abbrev pub absent : Server ℕ
absent = record { answer = λ history. respond (err (api 404 "not found")); now = λ history. 20 }

abbrev pub initial : World ℕ
initial = record { history = []; manager = new }

-- The source at a version, and servers that answer with it.
abbrev pub versioned : String → DynamicObject
versioned version = record source_config {
  metadata = record source_config.metadata { resource_version = some version };
}

abbrev pub current : Server ℕ
current = record { answer = λ history. respond (ok (versioned "5")); now = λ history. 20 }
