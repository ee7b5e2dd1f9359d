-- ===== src/Server.antt =====
-- The API servers as the program meets them, and the effects of its asynchronous functions. A server
-- is any function from the requests sent so far, newest first, to the answer to the next one, so it
-- stands for every sequence of answers that other clients can bring about. An effect may also change
-- the remote watchers. `await` has no other effect: what else runs meanwhile is in the answers.
use sinker.Prelude.{ℕ, String, Bool, Option, List}
use sinker.Result.{Result}
use sinker.Kube.{Time, KubeError, Secret, DynamicObject, ApiResource, GroupVersionKind, Scope}
use sinker.Resources.{ResourceSyncStatus}
use sinker.RemoteWatcherManager.{RemoteWatcherManager}

-- How an `Api` was constructed: `all_with`, `default_namespaced_with` or `namespaced_with`.
pub data ApiScope : Type 0 where
  all : ApiScope
  default_namespaced : ApiScope
  in_namespace : String → ApiScope

-- `NamespacedApi` of src/resource_extensions.rs, over the client type `C`
pub record NamespacedApi (C : Type 0) : Type 0 where
  pub ar : ApiResource
  pub namespace : Option String
  pub client : C
  pub scope : ApiScope

-- `Api<ResourceSync>`
pub record ParentApi (C : Type 0) : Type 0 where
  pub client : C
  pub scope : ApiScope

pub data Propagation : Type 0 where
  background foreground : Propagation

-- The requests that the program sends. `apply` is a server-side apply with its field manager and
-- whether it is forced; `patch_finalizers` and `patch_status` are merge patches of a ResourceSync.
-- `list_syncs` has a limit, and nothing is read of its answer but whether it is an error.
pub data Request (C : Type 0) : Type 0 where
  get_secret : C → String → String → Request C
  apiserver_version : C → Request C
  pinned_kind : C → GroupVersionKind → Request C
  get : NamespacedApi C → String → Request C
  delete : NamespacedApi C → String → Propagation → Request C
  apply : NamespacedApi C → String → String → Bool → DynamicObject → Request C
  patch_finalizers : ParentApi C → String → List String → Request C
  get_status : ParentApi C → String → Request C
  patch_status : ParentApi C → String → ResourceSyncStatus → Request C
  list_syncs : ParentApi C → ℕ → Request C

-- What the program reads of the answer to a request.
abbrev pub Response : {C : Type 0} → Request C → Type 0
Response (get_secret _ _ _) = Secret
Response (apiserver_version _) = Unit
Response (pinned_kind _ _) = ApiResource × Scope
Response (get _ _) = DynamicObject
Response (delete _ _ _) = Unit
Response (apply _ _ _ _ _) = Unit
Response (patch_finalizers _ _ _) = Unit
Response (get_status _ _) = Option ResourceSyncStatus
Response (patch_status _ _ _) = Unit
Response (list_syncs _ _) = Unit

-- The servers' answers, and the clock.
pub record Server (C : Type 0) : Type 0 where
  pub answer : List (Request C) → (r : Request C) → Result KubeError (Response r)
  pub now : List (Request C) → Time

pub record World (C : Type 0) : Type 0 where
  pub history : List (Request C)
  pub manager : RemoteWatcherManager
