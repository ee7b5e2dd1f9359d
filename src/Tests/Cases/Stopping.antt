-- ===== src/Tests/Cases/Stopping.antt =====
-- The unit tests of src/remote_watcher_manager.rs, with the tasks that each step leaves running.
use sinker.Prelude.{◌≡◌, refl, ℕ, String, some, none, List, [], ◌∷◌, ◌++◌, map, length}
use sinker.Resources.{ResourceSync}
use sinker.RemoteWatcherManager.{
  RemoteWatcherKey, RemoteWatcherManager, new, add_if_not_exists, stop_and_remove_if_exists,
  stop_all,
}
use sinker.ResourceExtensions.{remote_watcher_key}
use sinker.Tests.Fixtures.{lib}
use sinker.Tests.Script.{sync_fixture}

abbrev source_key : ResourceSync → RemoteWatcherKey
source_key s = remote_watcher_key lib s.spec.source s

abbrev target_key : ResourceSync → RemoteWatcherKey
target_key s = remote_watcher_key lib s.spec.target s

-- `park_watchers`
abbrev park_watchers : RemoteWatcherManager → ResourceSync → RemoteWatcherManager
park_watchers m s = add_if_not_exists (target_key s) (add_if_not_exists (source_key s) m)

-- What a test reads of the manager after a step: the keys, and the tasks.
abbrev key_of : RemoteWatcherKey × ℕ → RemoteWatcherKey
key_of (key, task) = key

abbrev seen : RemoteWatcherManager → List RemoteWatcherKey × List ℕ
seen m = (map key_of m.watchers, m.running)

-- `removal_cancels_and_joins_only_the_requested_watcher`: after the parked watchers, a duplicate
-- addition, two removals, and two stops
abbrev removals : List RemoteWatcherManager
removals =
    let both = park_watchers new sync_fixture in
    let same = add_if_not_exists (source_key sync_fixture) both in
    let one = stop_and_remove_if_exists (source_key sync_fixture) same in
    let again = stop_and_remove_if_exists (source_key sync_fixture) one in
    let stopped = stop_all again in both ∷ same ∷ one ∷ again ∷ stopped ∷ stop_all stopped ∷ []

removals_pass :
    map seen removals
    ≡ (target_key sync_fixture ∷ source_key sync_fixture ∷ [], 1 ∷ 0 ∷ [])
      ∷ (target_key sync_fixture ∷ source_key sync_fixture ∷ [], 1 ∷ 0 ∷ [])
      ∷ (target_key sync_fixture ∷ [], 1 ∷ [])
      ∷ (target_key sync_fixture ∷ [], 1 ∷ [])
      ∷ ([], [])
      ∷ ([], [])
      ∷ []
unfolding stop_all add_if_not_exists stop_and_remove_if_exists sinker.RemoteWatcherManager.stop_each
    sinker.RemoteWatcherManager.Tasks.get sinker.RemoteWatcherManager.same_key
    sinker.Prelude.Bool-cases remote_watcher_key sinker.RemoteWatcherManager.Tasks.remove
removals_pass = refl

-- `stop_all_cancels_and_joins_every_owner_of_the_same_resource`
abbrev other_owner : ResourceSync
other_owner = record sync_fixture {
  metadata = record sync_fixture.metadata { name = some "other-sync" };
}

abbrev owners : List RemoteWatcherManager
owners =
    let every = park_watchers (park_watchers new sync_fixture) other_owner in
    every ∷ stop_all every ∷ []

abbrev how_many : RemoteWatcherManager → ℕ × ℕ
how_many m = (length m.watchers, length m.running)

owners_pass : map how_many owners ≡ (4, 4) ∷ (0, 0) ∷ []
unfolding stop_all add_if_not_exists sinker.RemoteWatcherManager.stop_each
    sinker.RemoteWatcherManager.Tasks.get sinker.RemoteWatcherManager.same_key
    sinker.Prelude.Bool-cases remote_watcher_key stop_and_remove_if_exists
    sinker.RemoteWatcherManager.Tasks.remove
owners_pass = refl

-- `new_watcher_can_be_cancelled_before_it_starts_network_work`
abbrev cancelled_early : List RemoteWatcherManager
cancelled_early =
    let key = source_key sync_fixture in
    let added = add_if_not_exists key (add_if_not_exists key new) in
    added ∷ stop_and_remove_if_exists key added ∷ []

cancelled_early_pass : map how_many cancelled_early ≡ (1, 1) ∷ (0, 0) ∷ []
unfolding stop_all add_if_not_exists stop_and_remove_if_exists sinker.RemoteWatcherManager.Tasks.get
    sinker.RemoteWatcherManager.same_key sinker.Prelude.Bool-cases remote_watcher_key
    sinker.RemoteWatcherManager.Tasks.remove
cancelled_early_pass = refl

-- `cleanup_removes_aborted_tasks_and_continues`: the source's task has ended by itself
abbrev aborted : RemoteWatcherManager
aborted = stop_all (record (park_watchers new sync_fixture) { running = 1 ∷ [] })

aborted_pass : how_many aborted ≡ (0, 0)
unfolding stop_all sinker.RemoteWatcherManager.stop_each add_if_not_exists
    sinker.RemoteWatcherManager.Tasks.get sinker.RemoteWatcherManager.same_key
    sinker.Prelude.Bool-cases remote_watcher_key stop_and_remove_if_exists
    sinker.RemoteWatcherManager.Tasks.remove
aborted_pass = refl
