-- ===== src/RemoteWatcherManager/Interleaved.antt =====
-- The calls of the manager that overlapping reconciliations make. Each holds the mutex of
-- src/remote_watcher_manager.rs until it is done, so they are one sequence, in whatever order.
use sinker.Prelude.{
  ◌++◌, ◌≡◌, refl, ap, ◌∙◌, sym, inl, inr, String-discrete, Bool, true, false, not, ◌||◌, ◌&&◌,
  List, [], ◌∷◌, retain, arith, Bool-cases, ◌↔◌,
}
use sinker.Kube.{ObjectRef}
use sinker.RemoteWatcherManager.{
  RemoteWatcherKey, same_key, same_key_iff, holds, holds_iff, RemoteWatcherManager,
  add_if_not_exists, stop_and_remove_if_exists,
}
use sinker.RemoteWatcherManager.Tasks
use sinker.RemoteWatcherManager.Tasks.{
  is_none, is_running, is_running-retain, get-owns, owns-remove, get-remove,
}
use sinker.RemoteWatcherManager.Stopped.{is_none-get-add, get-stop}

ObjectRef-discrete : Discrete ObjectRef
unfolding String-discrete
ObjectRef-discrete = hlevel String-discrete

pub same_sync : ObjectRef → ObjectRef → Bool
unfolding ObjectRef-discrete
same_sync a b = holds (ObjectRef-discrete a b)

pub same_sync_iff : (a b : ObjectRef) → (same_sync a b ≡ true) ↔ (a ≡ b)
unfolding same_sync
same_sync_iff a b = holds_iff (ObjectRef-discrete a b)

pub data Call : Type 0 where
  start stop : RemoteWatcherKey → Call

abbrev pub key_of : Call → RemoteWatcherKey
key_of (start key) = key
key_of (stop key) = key

unfoldable pub call : Call → RemoteWatcherManager → RemoteWatcherManager
unfolding add_if_not_exists stop_and_remove_if_exists
call (start key) m = add_if_not_exists key m
call (stop key) m = stop_and_remove_if_exists key m

unfoldable pub calls : List Call → RemoteWatcherManager → RemoteWatcherManager
calls [] m = m
calls (c ∷ cs) m = calls cs (call c m)

-- The calls that are made for one ResourceSync, in their order.
abbrev pub of_sync : ObjectRef → List Call → List Call
of_sync ref = retain (λ c. same_sync (key_of c).resource_sync ref)

abbrev pub is_watching : RemoteWatcherKey → RemoteWatcherManager → Bool
is_watching k m = not (is_none (Tasks.get same_key k m.watchers))

-- A key that is watched after a call is told by the call and by whether it was watched before.
abbrev after : Call → RemoteWatcherKey → Bool → Bool
after (start key) k watched = same_key key k || watched
after (stop key) k watched = not (same_key key k) && watched

is_watching-call :
    (c : Call) (k : RemoteWatcherKey) (m : RemoteWatcherManager)
    → is_watching k (call c m) ≡ after c k (is_watching k m)
unfolding call
is_watching-call (start key) k m = rw is_none-get-add (ground arith)
is_watching-call (stop key) k m = rw get-stop (ground arith)

-- A key of another ResourceSync is another key.
other_key :
    (c : Call) (k : RemoteWatcherKey)
    → same_sync (key_of c).resource_sync k.resource_sync ≡ false
    → same_key (key_of c) k ≡ false
other_key c k e = elim (Bool-cases (same_key (key_of c) k)) [
  | inr apart ↦ apart
  | inl same ↦ cc (
    e,
    (same_sync_iff (key_of c).resource_sync k.resource_sync).1
        (ap (λ (key : RemoteWatcherKey). key.resource_sync) ((same_key_iff (key_of c) k).0 same)),
  )
]

after_other :
    (c : Call) (k : RemoteWatcherKey) (watched : Bool)
    → same_key (key_of c) k ≡ false
    → after c k watched ≡ watched
after_other (start key) k watched e = ground (arith, e)
after_other (stop key) k watched e = ground (arith, e)

-- From managers that agree on whether a key is watched, one that meets all calls and one that meets only
-- those of the key's ResourceSync end in agreement.
agreeing :
    (cs : List Call) (k : RemoteWatcherKey) (m n : RemoteWatcherManager)
    → is_watching k m ≡ is_watching k n
    → is_watching k (calls cs m) ≡ is_watching k (calls (of_sync k.resource_sync cs) n)
unfolding calls
agreeing [] k m n e = e
agreeing (c ∷ cs) k m n e = elim (Bool-cases (same_sync (key_of c).resource_sync k.resource_sync)) [
  | inl own ↦ rw own (
      agreeing cs k (call c m) (call c n)
        (is_watching-call c k m ∙ ap (after c k) e ∙ sym (is_watching-call c k n)))
  | inr foreign ↦ rw foreign (
      agreeing cs k (call c m) n
        (is_watching-call c k m ∙ after_other c k (is_watching k m) (other_key c k foreign) ∙ e))
]

-- In whatever order the starts and stops of several ResourceSyncs come, a key is watched in the end
-- exactly if it is after those of its own ResourceSync alone.
pub calls-of_sync :
    (cs : List Call) (k : RemoteWatcherKey) (m : RemoteWatcherManager)
    → is_watching k (calls cs m) ≡ is_watching k (calls (of_sync k.resource_sync cs) m)
calls-of_sync cs k m = agreeing cs k m m refl

-- Every call is for one ResourceSync.
abbrev pub AllOf : ObjectRef → List Call → Type 0
AllOf ref [] = Unit
AllOf ref (c ∷ cs) = ((key_of c).resource_sync ≡ ref) × AllOf ref cs

pub calls-snoc :
    (cs : List Call) (c : Call) (m : RemoteWatcherManager)
    → calls (cs ++ c ∷ []) m ≡ call c (calls cs m)
unfolding calls
calls-snoc [] c m = refl
calls-snoc (d ∷ cs) c m = calls-snoc cs c (call d m)

pub AllOf-snoc :
    (ref : ObjectRef) (cs : List Call) (c : Call)
    → AllOf ref cs
    → (key_of c).resource_sync ≡ ref
    → AllOf ref (cs ++ c ∷ [])
AllOf-snoc ref [] c all e = (e, tt)
AllOf-snoc ref (d ∷ cs) c (own, all) e = (own, AllOf-snoc ref cs c all e)
