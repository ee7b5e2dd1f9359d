-- ===== src/RemoteWatcherManager/WellFormed.antt =====
-- The manager's invariant: a key has one task, and no running task is lost from the map.
use sinker.Prelude.{ℕ, ◌<◌, ◌≡◌, refl, inl, inr, true, List, [], ◌∷◌, arith, Option-cases}
use sinker.RemoteWatcherManager.{
  RemoteWatcherKey, same_key, same_key_iff, RemoteWatcherManager, new, add_if_not_exists,
  stop_and_remove_if_exists, stop_each,
}
use sinker.RemoteWatcherManager.Tasks
use sinker.RemoteWatcherManager.Tasks.{
  owns, is_running, distinct, is_running-retain, owns-remove, distinct-remove,
}

-- Every running task is in the map, the tasks of the map have been spawned, and the map has every key
-- and every task once.
pub record IsWellFormed (m : RemoteWatcherManager) : Type 0 where
  pub owned : (n : ℕ) → is_running n m.running ≡ true → owns n m.watchers ≡ true
  pub fresh : (n : ℕ) → owns n m.watchers ≡ true → n < m.next_task
  pub once : distinct same_key m.watchers ≡ true

pub new-IsWellFormed : IsWellFormed new
unfolding owns is_running distinct
new-IsWellFormed = record { owned = λ n h. cc h; fresh = λ n h. cc h; once = refl }

-- Starting a watcher keeps a manager well formed.
pub add_if_not_exists-IsWellFormed :
    (key : RemoteWatcherKey) (m : RemoteWatcherManager)
    → IsWellFormed m
    → IsWellFormed (add_if_not_exists key m)
unfolding add_if_not_exists owns is_running distinct
add_if_not_exists-IsWellFormed key m w = elim (Option-cases (Tasks.get same_key key m.watchers)) [
  | inr (task, e) ↦ rw (e, add_if_not_exists) w
  | inl e ↦
      rw (e, add_if_not_exists)
        (record {
          owned = λ n h. ground (arith, w.owned n);
          fresh = λ n h. ground (arith, w.fresh n);
          once = ground (arith, w.once, w.fresh m.next_task, e);
        })
]

-- Stopping a watcher keeps a manager well formed.
pub stop_and_remove_if_exists-IsWellFormed :
    (key : RemoteWatcherKey) (m : RemoteWatcherManager)
    → IsWellFormed m
    → IsWellFormed (stop_and_remove_if_exists key m)
unfolding stop_and_remove_if_exists
stop_and_remove_if_exists-IsWellFormed key m w =
    elim (Option-cases (Tasks.get same_key key m.watchers)) [
      | inl e ↦ rw (e, stop_and_remove_if_exists) w
      | inr (task, e) ↦
          let kept = λ (n : ℕ). owns-remove same_key_iff n key task m.watchers w.once e in
          rw (e, stop_and_remove_if_exists)
            (record {
              owned = λ n h. ground (arith, w.owned n, kept n, is_running-retain n task m.running);
              fresh = λ n h. ground (arith, w.fresh n, kept n);
              once = distinct-remove same_key_iff key m.watchers w.once;
            })
    ]

pub stop_each-IsWellFormed :
    (ks : List RemoteWatcherKey) (m : RemoteWatcherManager)
    → IsWellFormed m
    → IsWellFormed (stop_each ks m)
unfolding stop_each
stop_each-IsWellFormed [] m w = w
stop_each-IsWellFormed (key ∷ ks) m w =
    stop_each-IsWellFormed ks (stop_and_remove_if_exists key m)
      (stop_and_remove_if_exists-IsWellFormed key m w)
