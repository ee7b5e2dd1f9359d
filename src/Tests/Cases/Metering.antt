-- ===== src/Tests/Cases/Metering.antt =====
-- The unit tests of src/metrics.rs. An attempt that is polled first begins; one that returns or panics is
-- completed; one that is dropped is released.
use mathlib.Core.Option
use sinker.Prelude.{
  ◌≡◌, refl, ℕ, ◌+◌, String, Bool, true, false, List, [], ◌∷◌, map, length, if◌then◌else◌,
}
use sinker.Prelude.StringMap
use sinker.Result.{Result, ok, err, panic}
use sinker.Kube.{Action, await_change, requeue}
use sinker.Metrics.{ControllerMetrics, default_metrics, begin, complete, release}

-- `assert_state`: the gauge, the counters in the order of `OUTCOMES`, and how many times were observed
abbrev State : Type 0
State = ℕ × (List ℕ × ℕ)

abbrev outcomes : List String
outcomes = "success" ∷ "error" ∷ "requeue" ∷ "requeue_after" ∷ []

abbrev total_of : ControllerMetrics → String → ℕ
total_of m label = Option.get_or (StringMap.get label m.reconcile_total) 0

abbrev state_of : ControllerMetrics → State
state_of m = (m.active_workers, (map (total_of m) outcomes, length m.reconcile_time.observed))

-- `duration_sum`
abbrev sum_of : List ℕ → ℕ
sum_of [] = 0
sum_of (n ∷ ns) = n + sum_of ns

abbrev duration_sum : ControllerMetrics → ℕ
duration_sum m = sum_of m.reconcile_time.observed

-- `dashboard_series_exist_before_reconciliation_in_the_runtime_registry`, of the series' values
abbrev before_reconciliation : State × ℕ
before_reconciliation = (state_of default_metrics, duration_sum default_metrics)

before_reconciliation_pass : before_reconciliation ≡ ((0, (0 ∷ 0 ∷ 0 ∷ 0 ∷ [], 0)), 0)
unfolding StringMap.get
before_reconciliation_pass = refl

-- `completed_attempt_preserves_result_and_records_one_outcome`: while it runs, and after it. A number of
-- milliseconds is the shortest pause of the model.
abbrev result_cases : List (Result String Action)
result_cases =
    ok await_change
    ∷ err "reconciliation failed"
    ∷ ok (requeue 0)
    ∷ ok (requeue 1)
    ∷ ok (requeue 500)
    ∷ []

abbrev attempt : Result String Action → State × State
attempt result =
    let running = begin default_metrics in
    (state_of running, state_of (complete result 3 7 running))

abbrev one_outcome : List ℕ → State × State
one_outcome counts = ((1, (0 ∷ 0 ∷ 0 ∷ 0 ∷ [], 0)), (0, (counts, 1)))

result_cases_pass :
    map attempt result_cases
    ≡ map one_outcome (
        (1 ∷ 0 ∷ 0 ∷ 0 ∷ [])
        ∷ (0 ∷ 1 ∷ 0 ∷ 0 ∷ [])
        ∷ (0 ∷ 0 ∷ 1 ∷ 0 ∷ [])
        ∷ (0 ∷ 0 ∷ 0 ∷ 1 ∷ [])
        ∷ (0 ∷ 0 ∷ 0 ∷ 1 ∷ [])
        ∷ [])
unfolding begin complete StringMap.get
result_cases_pass = refl

-- `mixed_outcomes_accumulate_across_clones_without_touching_another_registry`
abbrev mixed_cases : List (Result String Action)
mixed_cases =
    ok await_change
    ∷ err "first failure"
    ∷ ok (requeue 500)
    ∷ ok (requeue 0)
    ∷ err "second failure"
    ∷ ok await_change
    ∷ ok (requeue 0)
    ∷ ok (requeue 9000)
    ∷ []

abbrev accumulate : ControllerMetrics → List (Result String Action) → List State
accumulate m [] = []
accumulate m (result ∷ results) =
    let m' = complete result 0 0 (begin m) in state_of m' ∷ accumulate m' results

mixed_cases_pass :
    accumulate default_metrics mixed_cases
    ≡ (0, (1 ∷ 0 ∷ 0 ∷ 0 ∷ [], 1))
      ∷ (0, (1 ∷ 1 ∷ 0 ∷ 0 ∷ [], 2))
      ∷ (0, (1 ∷ 1 ∷ 0 ∷ 1 ∷ [], 3))
      ∷ (0, (1 ∷ 1 ∷ 1 ∷ 1 ∷ [], 4))
      ∷ (0, (1 ∷ 2 ∷ 1 ∷ 1 ∷ [], 5))
      ∷ (0, (2 ∷ 2 ∷ 1 ∷ 1 ∷ [], 6))
      ∷ (0, (2 ∷ 2 ∷ 2 ∷ 1 ∷ [], 7))
      ∷ (0, (2 ∷ 2 ∷ 2 ∷ 2 ∷ [], 8))
      ∷ []
unfolding begin complete StringMap.get
mixed_cases_pass = refl

-- `overlapping_attempts_track_workers_duration_and_cancellation`: both attempts have begun, the first
-- returns a result and the second is dropped, in either order.
abbrev overlap_cases : List (Result String Action × Bool)
overlap_cases =
    (ok await_change, false)
    ∷ (ok await_change, true)
    ∷ (err "failed after awaiting work", false)
    ∷ (err "failed after awaiting work", true)
    ∷ []

abbrev overlap : Result String Action × Bool → List State × ℕ
overlap (result, cancel_first) =
    let both = begin (begin default_metrics) in
    let one = if cancel_first then release 2 5 both else complete result 1 5 both in
    let last = if cancel_first then complete result 1 9 one else release 2 9 one in
    (state_of both ∷ state_of one ∷ state_of last ∷ [], duration_sum last)

abbrev overlapped : List ℕ × Bool → List State × ℕ
overlapped (counts, cancel_first) = (
  (2, (0 ∷ 0 ∷ 0 ∷ 0 ∷ [], 0))
      ∷ (1, ((if cancel_first then 0 ∷ 0 ∷ 0 ∷ 0 ∷ [] else counts), 1))
      ∷ (0, (counts, 2))
      ∷ [],
  11,
)

overlap_cases_pass :
    map overlap overlap_cases
    ≡ map overlapped (
        (1 ∷ 0 ∷ 0 ∷ 0 ∷ [], false)
        ∷ (1 ∷ 0 ∷ 0 ∷ 0 ∷ [], true)
        ∷ (0 ∷ 1 ∷ 0 ∷ 0 ∷ [], false)
        ∷ (0 ∷ 1 ∷ 0 ∷ 0 ∷ [], true)
        ∷ [])
unfolding begin complete release StringMap.get
overlap_cases_pass = refl

-- `slow_attempt_records_seconds_and_the_infinite_bucket`, of the number of observations and their sum
abbrev slow_attempt : State × ℕ
slow_attempt = let m = release 5 80 (begin default_metrics) in (state_of m, duration_sum m)

slow_attempt_pass : slow_attempt ≡ ((0, (0 ∷ 0 ∷ 0 ∷ 0 ∷ [], 1)), 75)
unfolding begin release StringMap.get
slow_attempt_pass = refl

-- `panic_unwinding_releases_worker_without_claiming_a_result`: another attempt has begun before.
abbrev unwound : List State
unwound =
    let other = begin default_metrics in
    let both = begin other in
    let one = complete {E = Unit {0}} panic 1 2 both in
    state_of both ∷ state_of one ∷ state_of (release 0 3 one) ∷ []

unwound_pass :
    unwound
    ≡ (2, (0 ∷ 0 ∷ 0 ∷ 0 ∷ [], 0))
      ∷ (1, (0 ∷ 0 ∷ 0 ∷ 0 ∷ [], 1))
      ∷ (0, (0 ∷ 0 ∷ 0 ∷ 0 ∷ [], 2))
      ∷ []
unfolding begin complete release StringMap.get
unwound_pass = refl
