-- ===== src/RemoteWatcherManager.antt =====
-- src/remote_watcher_manager.rs. A task is a number; the manager's map holds the task of each key, and
-- `running` the tasks that have been spawned and not yet joined. The mutex is held for a whole call, so
-- a call is one step. Joining waits until the task has ended.
pub mod Tasks
pub mod WellFormed
pub mod Stopped
pub mod Interleaved
pub mod Undisturbed
use sinker.Prelude.{
  ℕ, suc, String-discrete, Bool, not, Option, none, some, List, [], ◌∷◌, map, retain, nat_eq,
  String, if◌then◌else◌, true, false, ◌≡◌, ◌↔◌, refl,
}
use sinker.Kube.{ObjectRef}
use sinker.Resources.{ClusterResourceRef, Gvkn, ClusterRef, KubeConfig, SecretRef}

-- `RemoteWatcherKey` of src/remote_watcher.rs
pub record RemoteWatcherKey : Type 0 where
  pub object : ClusterResourceRef
  pub resource_sync : ObjectRef

unfoldable pub RemoteWatcherKey-discrete : Discrete RemoteWatcherKey
unfolding String-discrete
RemoteWatcherKey-discrete = hlevel String-discrete

abbrev pub holds {ℓ} : {P : Type ℓ} → Dec P → Bool
holds (yes _) = true
holds (no _) = false

pub holds_iff {ℓ} : {P : Type ℓ} (d : Dec P) → (holds d ≡ true) ↔ P
holds_iff (yes p) = (λ _. p, λ _. refl)
holds_iff (no n) = (λ e. cc e, λ p. absurd (n p))

unfoldable pub same_key : RemoteWatcherKey → RemoteWatcherKey → Bool
unfolding RemoteWatcherKey-discrete
same_key a b = holds (RemoteWatcherKey-discrete a b)

pub same_key_iff : (a b : RemoteWatcherKey) → (same_key a b ≡ true) ↔ (a ≡ b)
unfolding same_key
same_key_iff a b = holds_iff (RemoteWatcherKey-discrete a b)

pub record RemoteWatcherManager : Type 0 where
  pub watchers : List (RemoteWatcherKey × ℕ)
  pub running : List ℕ
  pub next_task : ℕ

-- `RemoteWatcherManager::new`
abbrev pub new : RemoteWatcherManager
new = record { watchers = []; running = []; next_task = 0 }

-- A key that is there keeps its task; a new one gets a task of its own.
unfoldable pub add_if_not_exists : RemoteWatcherKey → RemoteWatcherManager → RemoteWatcherManager
add_if_not_exists key m = elim (Tasks.get same_key key m.watchers) [
  | some _ ↦ m
  | none ↦ record {
    watchers = (key, m.next_task) ∷ m.watchers;
    running = m.next_task ∷ m.running;
    next_task = suc m.next_task;
  }
]

-- The task is taken out of the map, cancelled and joined, whether it ended by itself or not.
unfoldable pub stop_and_remove_if_exists :
    RemoteWatcherKey → RemoteWatcherManager → RemoteWatcherManager
stop_and_remove_if_exists key m = elim (Tasks.get same_key key m.watchers) [
  | none ↦ m
  | some task ↦ record m {
    watchers = Tasks.remove same_key key m.watchers;
    running = retain (λ t. not (nat_eq t task)) m.running;
  }
]

unfoldable pub stop_each : List RemoteWatcherKey → RemoteWatcherManager → RemoteWatcherManager
stop_each [] m = m
stop_each (key ∷ keys) m = stop_each keys (stop_and_remove_if_exists key m)

abbrev pub keys : RemoteWatcherManager → List RemoteWatcherKey
keys m = map (λ w. w.0) m.watchers

unfoldable pub stop_all : RemoteWatcherManager → RemoteWatcherManager
stop_all m = stop_each (keys m) m
