-- ===== src/RemoteWatcherManager/Stopped.antt =====
-- What starting and stopping do to the keys and to the running tasks.
use sinker.Prelude.{
  ℕ, ◌≡◌, refl, ap, inl, inr, true, false, none, some, List, [], ◌∷◌, map, any, nat_eq, arith,
  Option-cases, if◌then◌else◌,
}
use sinker.RemoteWatcherManager.{
  RemoteWatcherKey, same_key, same_key_iff, RemoteWatcherManager, add_if_not_exists,
  stop_and_remove_if_exists, stop_each, stop_all, keys,
}
use sinker.RemoteWatcherManager.Tasks
use sinker.RemoteWatcherManager.Tasks.{
  is_none, owns, is_running, distinct, is_running-retain, owns-remove, distinct-remove, get-remove,
}
use sinker.RemoteWatcherManager.WellFormed.{IsWellFormed, stop_each-IsWellFormed}

-- A second start of the same key changes nothing.
pub add_if_not_exists_idem :
    (key : RemoteWatcherKey) (m : RemoteWatcherManager)
    → add_if_not_exists key (add_if_not_exists key m) ≡ add_if_not_exists key m
unfolding add_if_not_exists Tasks.get
add_if_not_exists_idem key m = ground (arith, same_key_iff key key)

-- After a start the key is there, and every other key is as before.
pub is_none-get-add :
    (key k : RemoteWatcherKey) (m : RemoteWatcherManager)
    → is_none (Tasks.get same_key k (add_if_not_exists key m).watchers)
      ≡ (if same_key key k then false else is_none (Tasks.get same_key k m.watchers))
unfolding add_if_not_exists
is_none-get-add key k m = elim (Option-cases (Tasks.get same_key key m.watchers)) [
  | inl e ↦ rw (e, add_if_not_exists) (unfold Tasks.get in ground arith)
  | inr (task, e) ↦ rw (e, add_if_not_exists) (ground (arith, same_key_iff key k, e))
]

-- After a stop of a key that has a task the key is gone and its task no longer runs, and every
-- other key and task is as before.
pub stop_and_remove_if_exists_lem :
    (key : RemoteWatcherKey) (m : RemoteWatcherManager) (task : ℕ)
    → Tasks.get same_key key m.watchers ≡ some task
    → ((k : RemoteWatcherKey)
        → Tasks.get same_key k (stop_and_remove_if_exists key m).watchers
          ≡ (if same_key key k then none else Tasks.get same_key k m.watchers))
      × ((n : ℕ)
          → is_running n (stop_and_remove_if_exists key m).running
            ≡ (if nat_eq task n then false else is_running n m.running))
unfolding stop_and_remove_if_exists
stop_and_remove_if_exists_lem key m task e = (
  λ k. rw (e, stop_and_remove_if_exists) (get-remove same_key_iff key k m.watchers),
  λ n. rw (e, stop_and_remove_if_exists) (is_running-retain n task m.running),
)

-- The keys that are left after stopping a list of them.
pub get-stop :
    (key k : RemoteWatcherKey) (m : RemoteWatcherManager)
    → Tasks.get same_key k (stop_and_remove_if_exists key m).watchers
      ≡ (if same_key key k then none else Tasks.get same_key k m.watchers)
unfolding stop_and_remove_if_exists
get-stop key k m = elim (Option-cases (Tasks.get same_key key m.watchers)) [
  | inl e ↦ rw (e, stop_and_remove_if_exists) (ground (arith, same_key_iff key k, e))
  | inr (task, e) ↦ rw (e, stop_and_remove_if_exists) (get-remove same_key_iff key k m.watchers)
]

get-stop_each :
    (ks : List RemoteWatcherKey) (k : RemoteWatcherKey) (m : RemoteWatcherManager)
    → Tasks.get same_key k (stop_each ks m).watchers
      ≡ (if any (λ j. same_key j k) ks then none else Tasks.get same_key k m.watchers)
unfolding stop_each
get-stop_each [] k m = refl
get-stop_each (j ∷ ks) k m =
    ground (arith, get-stop_each ks k (stop_and_remove_if_exists j m), get-stop j k m)

get_missing :
    (k : RemoteWatcherKey) (ws : List (RemoteWatcherKey × ℕ))
    → any (λ j. same_key j k) (map (λ w. w.0) ws) ≡ false
    → Tasks.get same_key k ws ≡ none
unfolding Tasks.get
get_missing k [] h = refl
get_missing k ((j, task) ∷ ws) h = ground (arith, get_missing k ws)

get-stop_all :
    (k : RemoteWatcherKey) (m : RemoteWatcherManager)
    → Tasks.get same_key k (stop_all m).watchers ≡ none
unfolding stop_all
get-stop_all k m = ground (arith, get-stop_each (keys m) k m, get_missing k m.watchers)

-- A map in which no key is found is empty.
empty_of_missing :
    (ws : List (RemoteWatcherKey × ℕ))
    → ((k : RemoteWatcherKey) → Tasks.get same_key k ws ≡ none)
    → ws ≡ []
empty_of_missing [] h = refl
empty_of_missing ((j, task) ∷ ws) h =
    absurd (unfold Tasks.get in ground (arith, h j, same_key_iff j j))

none_running : (ts : List ℕ) → ((n : ℕ) → is_running n ts ≡ true → ⊥) → ts ≡ []
none_running [] h = refl
none_running (t ∷ ts) h = absurd (h t (unfold is_running in ground arith))

-- On a well-formed manager, `stop_all` leaves no key in the map, and no task running.
pub stop_all_lem :
    (m : RemoteWatcherManager)
    → IsWellFormed m
    → ((stop_all m).watchers ≡ []) × ((stop_all m).running ≡ [])
stop_all_lem m w =
    let empty = empty_of_missing (stop_all m).watchers (λ k. get-stop_all k m) in
    let kept : IsWellFormed (stop_all m) = unfold stop_all in stop_each-IsWellFormed (keys m) m w in
    (
      empty,
      none_running (stop_all m).running
          (λ n r. unfold owns in cc (kept.owned n r, ap (owns n) empty)),
    )
