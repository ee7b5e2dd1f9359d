-- ===== src/Kube.antt =====
-- Data of `kube`, `k8s_openapi` and `serde` that the program reads and builds, with the fields that it
-- names. An instant is a number, of which only the order counts; a duration is in milliseconds.
-- `Libraries` holds the functions of those crates that the program calls, with what it relies on.
pub mod Libraries
use sinker.Prelude.{ℕ, String, Bool, Option, none, List}
use sinker.Prelude.StringMap.{StringMap}
use sinker.Json.{Value}

abbrev pub Time : Type 0
Time = ℕ

pub record OwnerReference : Type 0 where
  pub api_version : String
  pub kind : String
  pub name : String
  pub uid : String
  pub controller : Option Bool
  pub block_owner_deletion : Option Bool

pub record ManagedFieldsEntry : Type 0 where
  pub manager : Option String
  pub time : Option Time

pub record ObjectMeta : Type 0 where
  pub annotations : Option (StringMap String)
  pub creation_timestamp : Option Time
  pub deletion_grace_period_seconds : Option ℕ
  pub deletion_timestamp : Option Time
  pub finalizers : Option (List String)
  pub generate_name : Option String
  pub generation : Option ℕ
  pub labels : Option (StringMap String)
  pub managed_fields : Option (List ManagedFieldsEntry)
  pub name : Option String
  pub namespace : Option String
  pub owner_references : Option (List OwnerReference)
  pub resource_version : Option String
  pub self_link : Option String
  pub uid : Option String

-- `ObjectMeta::default()`
abbrev pub default_meta : ObjectMeta
default_meta = record {
  annotations = none;
  creation_timestamp = none;
  deletion_grace_period_seconds = none;
  deletion_timestamp = none;
  finalizers = none;
  generate_name = none;
  generation = none;
  labels = none;
  managed_fields = none;
  name = none;
  namespace = none;
  owner_references = none;
  resource_version = none;
  self_link = none;
  uid = none;
}

pub record TypeMeta : Type 0 where
  pub api_version : String
  pub kind : String

pub record DynamicObject : Type 0 where
  pub types : Option TypeMeta
  pub metadata : ObjectMeta
  pub payload : Value

pub record GroupVersionKind : Type 0 where
  pub group : String
  pub version : String
  pub kind : String

pub record ApiResource : Type 0 where
  pub group : String
  pub version : String
  pub api_version : String
  pub kind : String
  pub plural : String

pub data Scope : Type 0 where
  cluster namespaced : Scope

-- `kube::Error`: the server's answer with its status code, or anything else, by its text.
pub data KubeError : Type 0 where
  api : ℕ → String → KubeError
  other : String → KubeError

-- The data of a Secret are bytes.
pub record Secret : Type 0 where
  pub metadata : ObjectMeta
  pub payload : Option (StringMap (List ℕ))

pub record Condition : Type 0 where
  pub last_transition_time : Time
  pub message : String
  pub observed_generation : Option ℕ
  pub reason : String
  pub status : String
  pub type_ : String

-- What the controller does with a resource next.
pub data Action : Type 0 where
  await_change : Action
  requeue : ℕ → Action

-- `ObjectRef<ResourceSync>`, by which kube names the object to reconcile.
pub record ObjectRef : Type 0 where
  pub name : String
  pub namespace : Option String
