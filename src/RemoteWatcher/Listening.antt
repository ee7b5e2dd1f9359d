-- ===== src/RemoteWatcher/Listening.antt =====
-- Which events make src/remote_watcher.rs send a reconcile, and the version it goes on from.
use mathlib.Core.Bool.{and-eq-true_iff}
use sinker.Prelude.{
  ◌∙◌, ap, String, Bool, true, false, not, ◌≡◌, refl, Option, none, some, List, [], ◌∷◌, ◌++◌,
  nat_eq, all, if◌then◌else◌, arith, Option-cases, inl, inr,
}
use sinker.Result.{Result, ok, err, panic, ok_or}
use sinker.Error.{Error, resource_version_required}
use sinker.Kube.{KubeError, ObjectRef}
use sinker.Filters.{was_last_modified_by}
use sinker.RemoteWatcherManager.{RemoteWatcherKey}
use sinker.Controller.{sync_group}
use sinker.RemoteWatcher.{
  WatchEvent, added, modified, deleted, bookmark, error, Backoff, Progress, rv_for, send_reconcile,
  send_reconcile_on_success, send_reconcile_on_fail, on_change, at_version, handle, go_on, consume,
}

-- Whether an object's last change is known to be ours.
abbrev is_ours : Option Bool → Bool
is_ours none = false
is_ours (some b) = b

-- The events that ask for a reconcile: a deletion, a change that is not ours, and an error other than
-- an expired version.
abbrev pub asks : WatchEvent → Bool
asks (deleted obj) = true
asks (added obj) = not (is_ours (was_last_modified_by obj.metadata sync_group))
asks (modified obj) = not (is_ours (was_last_modified_by obj.metadata sync_group))
asks (bookmark version) = false
asks (error code text) = not (nat_eq code 410)

-- The object's version, for the events that carry an object.
abbrev version_of_object : Option String → String → String
version_of_object none rv = rv
version_of_object (some v) rv = v

-- The version to go on from after an event, from the one before it.
abbrev pub version_after : String → WatchEvent → String
version_after rv (deleted obj) = version_of_object obj.metadata.resource_version rv
version_after rv (added obj) = version_of_object obj.metadata.resource_version rv
version_after rv (modified obj) = version_of_object obj.metadata.resource_version rv
version_after rv (bookmark version) = version
version_after rv (error code text) = if nat_eq code 410 then "0" else rv

abbrev has_version : Option String → Bool
has_version none = false
has_version (some v) = true

-- Whether an event that carries an object carries its version.
abbrev pub is_versioned : WatchEvent → Bool
is_versioned (deleted obj) = has_version obj.metadata.resource_version
is_versioned (added obj) = has_version obj.metadata.resource_version
is_versioned (modified obj) = has_version obj.metadata.resource_version
is_versioned _ = true

abbrev pub yielded : List WatchEvent → List (Result KubeError WatchEvent)
yielded [] = []
yielded (e ∷ es) = ok e ∷ yielded es

-- The version after a list of events, and the reconciles that it asks for, newest first.
abbrev pub last_version : String → List WatchEvent → String
last_version rv [] = rv
last_version rv (e ∷ es) = last_version (version_after rv e) es

abbrev pub asked : ObjectRef → List WatchEvent → List ObjectRef → List ObjectRef
asked ref [] before = before
asked ref (e ∷ es) before = asked ref es (if asks e then ref ∷ before else before)

module _ {B : Type 0} (timing : Backoff B) (key : RemoteWatcherKey) where
  -- What an added or modified object with its version does.
  change_lem :
      (v : Option String) (answer : Option Bool) (rv : String) (s : Progress B)
      → has_version v ≡ true
      → s.is_open ≡ true
      → let (result, s') =
          at_version timing key
            (ok_or v resource_version_required)
            s
            (on_change timing key answer) in
        (result ≡ ok (version_of_object v rv))
        × (s'.is_open ≡ true)
        × (s'.sent ≡ (if not (is_ours answer) then key.resource_sync ∷ s.sent else s.sent))
  unfolding send_reconcile_on_success send_reconcile
  change_lem none answer rv s v o = cc
  change_lem (some x) none rv s v o = ground arith
  change_lem (some x) (some true) rv s v o = (refl, o, refl)
  change_lem (some x) (some false) rv s v o = ground arith

  -- What an event with its version does.
  handle_lem :
      (e : WatchEvent) (rv : String) (s : Progress B)
      → is_versioned e ≡ true
      → s.is_open ≡ true
      → let (result, s') = handle timing key e rv s in
        (result ≡ ok (version_after rv e))
        × (s'.is_open ≡ true)
        × (s'.sent ≡ (if asks e then key.resource_sync ∷ s.sent else s.sent))
  unfolding handle send_reconcile_on_success send_reconcile_on_fail send_reconcile rv_for
  handle_lem (deleted obj) rv s v o = elim (Option-cases obj.metadata.resource_version) [
    | inl n ↦ ground (arith, n)
    | inr (x, h) ↦ ground (arith, h)
  ]
  handle_lem (added obj) rv s v o =
      change_lem obj.metadata.resource_version (was_last_modified_by obj.metadata sync_group) rv s v
        o
  handle_lem (modified obj) rv s v o =
      change_lem obj.metadata.resource_version (was_last_modified_by obj.metadata sync_group) rv s v
        o
  handle_lem (bookmark version) rv s v o = (refl, o, refl)
  handle_lem (error code text) rv s v o = ground arith

  pub go_on_ok :
      (loop : String → Progress B → Result Error String × Progress B)
      (r : Result Error String × Progress B) {rv : String}
      → r.0 ≡ ok rv
      → go_on timing key loop r ≡ loop rv r.1
  go_on_ok loop (ok x, s) h = ground arith
  go_on_ok loop (err e, s) h = cc
  go_on_ok loop (panic, s) h = cc

  unversioned_lem :
      (v : Option String) (s : Progress B) (effect : Progress B → Progress B)
      → has_version v ≡ false
      → at_version timing key (ok_or v resource_version_required) s effect
        ≡ (err resource_version_required, s)
  unversioned_lem none s effect u = refl
  unversioned_lem (some x) s effect u = cc

  handle_unversioned :
      (e : WatchEvent) (rv : String) (s : Progress B)
      → is_versioned e ≡ false
      → handle timing key e rv s ≡ (err resource_version_required, s)
  unfolding handle rv_for
  handle_unversioned (deleted obj) rv s u = unversioned_lem obj.metadata.resource_version s _ u
  handle_unversioned (added obj) rv s u = unversioned_lem obj.metadata.resource_version s _ u
  handle_unversioned (modified obj) rv s u = unversioned_lem obj.metadata.resource_version s _ u
  handle_unversioned (bookmark version) rv s u = cc
  handle_unversioned (error code text) rv s u = cc

  -- Over an open channel, a stream of events that carry their versions is read to its end: the loop
  -- returns the last version, and has sent a reconcile for each event that asks for one, no other.
  pub consume_lem :
      (es : List WatchEvent) (rv : String) (s : Progress B)
      → all is_versioned es ≡ true
      → s.is_open ≡ true
      → let (result, s') = consume timing key (yielded es) rv s in
        (result ≡ ok (last_version rv es))
        × (s'.is_open ≡ true)
        × (s'.sent ≡ asked key.resource_sync es s.sent)
  unfolding consume
  consume_lem [] rv s v o = (refl, o, refl)
  consume_lem (e ∷ es) rv s v o =
      let (ve, ves) = (and-eq-true_iff (is_versioned e) (all is_versioned es)).0 v in
      let (handled, is_open, sent) = handle_lem e rv s ve o in
      let (result, open_after, sent_after) =
        consume_lem es (version_after rv e) (handle timing key e rv s).1 ves is_open in
      rw (go_on_ok (consume timing key (yielded es)) (handle timing key e rv s) handled)
        (result, open_after, sent_after ∙ ap (asked key.resource_sync es) sent)

  -- An event that carries an object without its version ends the loop with an error, after the events
  -- before it have sent their reconciles.
  pub consume_unversioned :
      (es : List WatchEvent) (e : WatchEvent) (rest : List WatchEvent) (rv : String)
      (s : Progress B)
      → all is_versioned es ≡ true
      → is_versioned e ≡ false
      → s.is_open ≡ true
      → let (result, s') = consume timing key (yielded (es ++ e ∷ rest)) rv s in
        (result ≡ err resource_version_required) × (s'.sent ≡ asked key.resource_sync es s.sent)
  unfolding consume
  consume_unversioned [] e rest rv s v u o = rw (handle_unversioned e rv s u) (refl, refl)
  consume_unversioned (x ∷ es) e rest rv s v u o =
      let (vx, ves) = (and-eq-true_iff (is_versioned x) (all is_versioned es)).0 v in
      let (handled, is_open, sent) = handle_lem x rv s vx o in
      let (result, sent_after) =
        consume_unversioned es e rest (version_after rv x) (handle timing key x rv s).1 ves u
          is_open in
      rw
        (go_on_ok (consume timing key (yielded (es ++ e ∷ rest))) (handle timing key x rv s)
          handled)
        (result, sent_after ∙ ap (asked key.resource_sync es) sent)
