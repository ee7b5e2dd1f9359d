-- ===== src/Metrics.antt =====
-- src/metrics.rs: the collectors, and the attempts that use them. A histogram keeps the list of what it
-- has observed beside its bounds, all in milliseconds.
pub mod Balance
pub mod Registry
use sinker.Prelude.{
  ◌≡◌, ℕ, ◌+◌, ◌-◌, ◌≤◌, String, Bool, true, false, Option, none, some, List, [], ◌∷◌, ◌++◌, nat_eq,
  ◌==◌, if◌then◌else◌,
}
use sinker.Prelude.StringMap.{StringMap}
use sinker.Result.{Result, ok, err, panic}
use sinker.Kube.{Action, await_change, requeue, Time}

-- The upper bounds of the buckets, and the observations, newest first.
pub record Histogram : Type 0 where
  pub buckets : List ℕ
  pub observed : List ℕ

pub record ControllerMetrics : Type 0 where
  pub active_workers : ℕ
  pub reconcile_total : StringMap ℕ
  pub reconcile_time : Histogram

-- `ControllerMetrics::default`: the four outcomes are exposed at zero.
abbrev pub zeroed : List String → StringMap ℕ
zeroed [] = []
zeroed (result ∷ results) = (result, 0) ∷ zeroed results

abbrev pub results : List String
results = "success" ∷ "error" ∷ "requeue" ∷ "requeue_after" ∷ []

abbrev pub bucket_bounds : List ℕ
bucket_bounds =
    5 ∷ 10 ∷ 25 ∷ 50 ∷ 100 ∷ 150 ∷ 200 ∷ 250 ∷ 300 ∷ 350 ∷ 400 ∷ 450 ∷ 500 ∷ 600 ∷ 700 ∷ 800 ∷ 900
    ∷ 1000 ∷ 1250 ∷ 1500 ∷ 1750 ∷ 2000 ∷ 2500 ∷ 3000 ∷ 3500 ∷ 4000 ∷ 4500 ∷ 5000 ∷ 6000 ∷ 7000
    ∷ 8000 ∷ 9000 ∷ 10000 ∷ 15000 ∷ 20000 ∷ 25000 ∷ 30000 ∷ 40000 ∷ 50000 ∷ 60000 ∷ []

abbrev pub default_metrics : ControllerMetrics
default_metrics = record {
  active_workers = 0;
  reconcile_total = zeroed results;
  reconcile_time = record { buckets = bucket_bounds; observed = [] };
}

-- The label of an attempt's outcome. A panic has none.
abbrev pub label_of_action : Action → String
label_of_action await_change = "success"
label_of_action (requeue duration) = if nat_eq duration 0 then "requeue" else "requeue_after"

unfoldable pub outcome : {E : Type 0} → Result E Action → Option String
outcome (err e) = some "error"
outcome (ok action) = some (label_of_action action)
outcome panic = none

-- `get_or_create(...).inc()`
unfoldable pub increment : String → StringMap ℕ → StringMap ℕ
increment label [] = (label, 1) ∷ []
increment label ((l, n) ∷ totals) =
    let rest = increment label totals in if l == label then (l, n + 1) ∷ totals else (l, n) ∷ rest

-- The first poll of `instrument`: the worker counts from here on.
unfoldable pub begin : ControllerMetrics → ControllerMetrics
begin m = record m { active_workers = m.active_workers + 1 }

-- `ReconcileAttempt::drop`
unfoldable pub release : Time → Time → ControllerMetrics → ControllerMetrics
release started now m = record m {
  reconcile_time = record m.reconcile_time {
    observed = (now - started) ∷ m.reconcile_time.observed;
  };
  active_workers = m.active_workers - 1;
}

abbrev count : Option String → StringMap ℕ → StringMap ℕ
count none totals = totals
count (some label) totals = increment label totals

-- The end of `instrument` once the reconciliation has returned or panicked: the outcome is counted,
-- and the guard is dropped.
unfoldable pub complete :
    {E : Type 0} → Result E Action → Time → Time → ControllerMetrics → ControllerMetrics
unfolding outcome increment release
complete result started now m =
    release started now (record m { reconcile_total = count (outcome result) m.reconcile_total })

-- The collectors beside the times at which the attempts that still run have started.
pub record Attempts : Type 0 where
  pub metrics : ControllerMetrics
  pub running : List Time

abbrev pub idle : Attempts
idle = record { metrics = default_metrics; running = [] }

-- What may happen to the attempts, in any order: one is polled first, one that runs returns an action
-- or an error, or one that runs is dropped or unwinds. The numbers count the two ways to end.
pub data Reaches (E : Type 0) : ℕ → ℕ → Attempts → Type 0 where
  nothing : Reaches E 0 0 idle
  polled :
      {done gone : ℕ} {s : Attempts} (now : Time)
      → Reaches E done gone s
      → Reaches E done gone (record { metrics = begin s.metrics; running = now ∷ s.running })
  returned :
      {done gone : ℕ} {m : ControllerMetrics} (xs ys : List Time) (started now : Time)
      (result : Result E Action) (label : String)
      → outcome result ≡ some label
      → Reaches E done gone (record { metrics = m; running = xs ++ started ∷ ys })
      → Reaches E
          (done + 1)
          gone
          (record { metrics = complete result started now m; running = xs ++ ys })
  dropped :
      {done gone : ℕ} {m : ControllerMetrics} (xs ys : List Time) (started now : Time)
      → Reaches E done gone (record { metrics = m; running = xs ++ started ∷ ys })
      → Reaches E done (gone + 1) (record { metrics = release started now m; running = xs ++ ys })
