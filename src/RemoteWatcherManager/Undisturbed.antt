-- ===== src/RemoteWatcherManager/Undisturbed.antt =====
-- A running watch through the calls of the manager that are for other ResourceSyncs.
use sinker.Prelude.{
  ◌≡◌, inl, inr, Bool-cases, Option-cases, true, false, some, arith, nat_eq, ℕ, ap,
}
use sinker.RemoteWatcherManager.{
  RemoteWatcherKey, same_key, same_key_iff, RemoteWatcherManager, add_if_not_exists,
  stop_and_remove_if_exists,
}
use sinker.RemoteWatcherManager.Tasks
use sinker.RemoteWatcherManager.Tasks.{
  is_running, is_running-retain, get-owns, owns-remove, get-remove,
}
use sinker.RemoteWatcherManager.WellFormed.{
  IsWellFormed, add_if_not_exists-IsWellFormed, stop_and_remove_if_exists-IsWellFormed,
}
use sinker.RemoteWatcherManager.Stopped.{get-stop}

-- A key has a task, and that task runs.
pub record Running (k : RemoteWatcherKey) (task : ℕ) (m : RemoteWatcherManager) : Type 0 where
  pub well_formed : IsWellFormed m
  pub found : Tasks.get same_key k m.watchers ≡ some task
  pub runs : is_running task m.running ≡ true

-- A key of another ResourceSync is another key.
other_sync :
    (k key : RemoteWatcherKey) → ¬ (key.resource_sync ≡ k.resource_sync) → same_key key k ≡ false
other_sync k key other = elim (Bool-cases (same_key key k)) [
  | inr apart ↦ apart
  | inl same ↦
      absurd (other (ap (λ (j : RemoteWatcherKey). j.resource_sync) ((same_key_iff key k).0 same)))
]

-- Another key has another task.
other_task :
    (k key : RemoteWatcherKey) (task t : ℕ) (m : RemoteWatcherManager)
    → Running k task m
    → same_key key k ≡ false
    → Tasks.get same_key key m.watchers ≡ some t
    → nat_eq t task ≡ false
other_task k key task t m r apart e = ground (
  arith,
  owns-remove same_key_iff task key t m.watchers r.well_formed.once e,
  get-owns same_key_iff k task (Tasks.remove same_key key m.watchers),
  get-remove same_key_iff key k m.watchers,
  r.found,
)

pub Running-stop :
    (k key : RemoteWatcherKey) (task : ℕ) (m : RemoteWatcherManager)
    → ¬ (key.resource_sync ≡ k.resource_sync)
    → Running k task m
    → Running k task (stop_and_remove_if_exists key m)
unfolding stop_and_remove_if_exists
Running-stop k key task m other r =
    let apart = other_sync k key other in
    elim (Option-cases (Tasks.get same_key key m.watchers)) [
      | inl e ↦ rw (e, stop_and_remove_if_exists) r
      | inr (t, e) ↦ record {
        well_formed = stop_and_remove_if_exists-IsWellFormed key m r.well_formed;
        found = rw get-stop (rw apart r.found);
        runs =
            rw (e, stop_and_remove_if_exists)
              (rw (is_running-retain task t m.running)
                (rw (other_task k key task t m r apart e) r.runs));
      }
    ]

pub Running-start :
    (k key : RemoteWatcherKey) (task : ℕ) (m : RemoteWatcherManager)
    → ¬ (key.resource_sync ≡ k.resource_sync)
    → Running k task m
    → Running k task (add_if_not_exists key m)
unfolding add_if_not_exists
Running-start k key task m other r =
    let apart = other_sync k key other in
    elim (Option-cases (Tasks.get same_key key m.watchers)) [
      | inr (t, e) ↦ rw (e, add_if_not_exists) r
      | inl e ↦ record {
        well_formed = add_if_not_exists-IsWellFormed key m r.well_formed;
        found = rw (e, add_if_not_exists) (unfold Tasks.get in rw apart r.found);
        runs = rw (e, add_if_not_exists) (unfold is_running in ground (arith, r.runs));
      }
    ]
