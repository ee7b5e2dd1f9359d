-- ===== src/Controller/Status.antt =====
-- The status that `reconcile` of src/controller.rs writes.
use mathlib.Core.Option
use sinker.Prelude.{
  ◌≡◌, refl, ◌∙◌, String, Bool, true, false, not, ◌&&◌, Option, none, some, [], ◌∷◌, inl, inr,
  Bool-cases, if◌then◌else◌, ◌==◌, find,
}
use mathlib.Core.Bool.{and-false}
use sinker.Result.{Result, ok, err, panic, is_err}
use sinker.Error.{Error}
use sinker.Error.Message.{to_string}
use sinker.Kube.{Time, Condition, Action}
use sinker.Kube.Libraries.{Libraries}
use sinker.Resources.{ResourceSync, ResourceSyncStatus}
use sinker.ResourceExtensions.{has_been_deleted}
use sinker.Controller.{
  failing_condition, succeeded_reason, sync_failing_transition_time, reconcile_status,
}

-- What a result says in the condition: its value, reason and message.
abbrev value_of : Result Error Action → String
value_of r = if is_err r then "True" else "False"

abbrev reason_of : Result Error Action → String
reason_of r = if is_err r then failing_condition else succeeded_reason

abbrev message_of : Libraries → Result Error Action → String
message_of lib (err e) = to_string lib e
message_of lib _ = "Sync succeeded"

-- The status with one condition, of the result's value.
abbrev pub status_of :
    Libraries
    → Time
    → ResourceSync
    → Option ResourceSyncStatus
    → Result Error Action
    → ResourceSyncStatus
status_of lib now sync live result = record {
  conditions = some (
      record {
        last_transition_time = sync_failing_transition_time now live (value_of result);
        message = message_of lib result;
        observed_generation = sync.metadata.generation;
        reason = reason_of result;
        status = value_of result;
        type_ = failing_condition;
      }
      ∷ []);
}

-- The status is that of the result, but where a sync that is being deleted was reconciled without an
-- error: then none is written.
pub reconcile_status_lem :
    (lib : Libraries) (now : Time) (sync : ResourceSync) (live : Option ResourceSyncStatus)
    (result : Result Error Action)
    → reconcile_status lib now sync live result ≡ (
        if not (is_err result) && has_been_deleted sync
        then none
        else some (status_of lib now sync live result))
unfolding reconcile_status
reconcile_status_lem lib now sync live (err e) = refl
reconcile_status_lem lib now sync live (ok a) = refl
reconcile_status_lem lib now sync live panic = refl

pub status_written :
    (lib : Libraries) (now : Time) (sync : ResourceSync) (live : Option ResourceSyncStatus)
    (result : Result Error Action)
    → has_been_deleted sync ≡ false
    → reconcile_status lib now sync live result ≡ some (status_of lib now sync live result)
status_written lib now sync live result d =
    reconcile_status_lem lib now sync live result ∙ rw (d, and-false (not (is_err result)))

-- The transition time in a status.
pub transition_time : Option ResourceSyncStatus → Option Time
transition_time none = none
transition_time (some s) = elim s.conditions [
  | none ↦ none
  | some cs ↦ Option.map (λ c. c.last_transition_time) (find (λ c. c.type_ == failing_condition) cs)
]

same_value :
    (r r' : Result Error Action)
    → (value_of r == value_of r') ≡ (if is_err r then is_err r' else not (is_err r'))
same_value r r' = elim (Bool-cases (is_err r)) [
  | inl e ↦ elim (Bool-cases (is_err r')) [ inl f ↦ rw (e, f) | inr f ↦ rw (e, f) ]
  | inr e ↦ elim (Bool-cases (is_err r')) [ inl f ↦ rw (e, f) | inr f ↦ rw (e, f) ]
]

kept :
    (c : Condition) (t : Time) (b : Bool)
    → some (
        Option.get_or
          (Option.map (λ (x : Condition). x.last_transition_time) (if b then some c else none))
          t)
      ≡ (if b then some c.last_transition_time else some t)
kept c t true = refl
kept c t false = refl

-- Of two reconciliations of syncs that are not being deleted, of which the second reads the status
-- of the first, the second keeps the transition time if both failed or both did not, and otherwise
-- records its own time.
pub transition_kept :
    (lib : Libraries) (t t' : Time) (sync sync' : ResourceSync) (live : Option ResourceSyncStatus)
    (r r' : Result Error Action)
    → has_been_deleted sync ≡ false
    → has_been_deleted sync' ≡ false
    → transition_time (reconcile_status lib t' sync' (reconcile_status lib t sync live r) r') ≡ (
        if if is_err r then is_err r' else not (is_err r')
        then transition_time (reconcile_status lib t sync live r)
        else some t')
unfolding transition_time sync_failing_transition_time Option.bind
transition_kept lib t t' sync sync' live r r' d d' = rw (status_written lib t sync live r d) (
    rw (status_written lib t' sync' (some (status_of lib t sync live r)) r' d')
      (rw (same_value r r') (kept _ _ (if is_err r then is_err r' else not (is_err r')))))
