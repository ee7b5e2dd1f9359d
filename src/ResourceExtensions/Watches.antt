-- ===== src/ResourceExtensions/Watches.antt =====
-- The two remote watches of a ResourceSync, of its source and of its target.
use sinker.Result.{ok}
use sinker.Prelude.{◌≡◌, refl, ◌||◌, ◌&&◌, not, Bool, arith}
use sinker.Kube.Libraries.{Libraries}
use sinker.Resources.{ResourceSync}
use sinker.RemoteWatcherManager.{
  RemoteWatcherKey, same_key, RemoteWatcherManager, add_if_not_exists, stop_and_remove_if_exists,
}
use sinker.RemoteWatcherManager.Tasks
use sinker.RemoteWatcherManager.Tasks.{is_none}
use sinker.RemoteWatcherManager.Stopped.{is_none-get-add, get-stop}
use sinker.RemoteWatcherManager.WellFormed.{
  IsWellFormed, add_if_not_exists-IsWellFormed, stop_and_remove_if_exists-IsWellFormed,
}
use sinker.Server.{World}
use sinker.Exec.{◌>>=◌, ◌>>◌, manage}
use sinker.ResourceExtensions.{
  remote_watcher_key, start_remote_watches_if_not_watching, stop_remote_watches_if_watching,
}

-- Whether the manager has a watcher for a key.
abbrev pub is_watched : RemoteWatcherKey → RemoteWatcherManager → Bool
is_watched k m = not (is_none (Tasks.get same_key k m.watchers))

abbrev pub source_key : Libraries → ResourceSync → RemoteWatcherKey
source_key lib sync = remote_watcher_key lib sync.spec.source sync

abbrev pub target_key : Libraries → ResourceSync → RemoteWatcherKey
target_key lib sync = remote_watcher_key lib sync.spec.target sync

-- The manager after a start or a stop of both watches.
abbrev pub started : Libraries → ResourceSync → RemoteWatcherManager → RemoteWatcherManager
started lib sync m =
    add_if_not_exists (target_key lib sync) (add_if_not_exists (source_key lib sync) m)

abbrev pub stopped : Libraries → ResourceSync → RemoteWatcherManager → RemoteWatcherManager
stopped lib sync m =
    stop_and_remove_if_exists (target_key lib sync)
      (stop_and_remove_if_exists (source_key lib sync) m)

module _ {C E : Type 0} (lib : Libraries) (sync : ResourceSync) (w : World C) where
  pub start_lem :
      start_remote_watches_if_not_watching lib {E = E} sync w
      ≡ (ok tt, record w { manager = started lib sync w.manager })
  unfolding start_remote_watches_if_not_watching ◌>>=◌ ◌>>◌ manage
  start_lem = refl

  pub stop_lem :
      stop_remote_watches_if_watching lib {E = E} sync w
      ≡ (ok tt, record w { manager = stopped lib sync w.manager })
  unfolding stop_remote_watches_if_watching ◌>>=◌ ◌>>◌ manage
  stop_lem = refl

module _ {C : Type 0} (E : Type 0) (lib : Libraries) (sync : ResourceSync) (w : World C) where
  -- After the start of a sync's watches the keys of its source and its target are watched, and every
  -- other key is watched exactly if it was.
  pub started_lem :
      (k : RemoteWatcherKey)
      → is_watched k (start_remote_watches_if_not_watching lib {E = E} sync w).1.manager ≡ (
          same_key (source_key lib sync) k
          || same_key (target_key lib sync) k
          || is_watched k w.manager)
  started_lem k = rw start_lem (rw is_none-get-add (rw is_none-get-add (ground arith)))

  -- After the stop of a sync's watches neither key is watched, and every other key is watched exactly
  -- if it was.
  pub stopped_lem :
      (k : RemoteWatcherKey)
      → is_watched k (stop_remote_watches_if_watching lib {E = E} sync w).1.manager ≡ (
          not (same_key (source_key lib sync) k)
          && not (same_key (target_key lib sync) k)
          && is_watched k w.manager)
  stopped_lem k = rw stop_lem (rw get-stop (rw get-stop (ground arith)))

module _ (lib : Libraries) (sync : ResourceSync) (m : RemoteWatcherManager) where
  -- Both keep the manager well formed.
  pub started-IsWellFormed : IsWellFormed m → IsWellFormed (started lib sync m)
  started-IsWellFormed w = add_if_not_exists-IsWellFormed _ _ (add_if_not_exists-IsWellFormed _ _ w)

  pub stopped-IsWellFormed : IsWellFormed m → IsWellFormed (stopped lib sync m)
  stopped-IsWellFormed w =
      stop_and_remove_if_exists-IsWellFormed _ _ (stop_and_remove_if_exists-IsWellFormed _ _ w)
