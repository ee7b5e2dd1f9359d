-- ===== src/Tests/Cases/Registering.antt =====
-- The unit tests of src/metrics.rs that read the registry.
use sinker.Prelude.{◌≡◌, refl, ℕ, String, true, List, [], ◌∷◌, ◌++◌, map, length, retain, all, leb}
use sinker.Result.{Result, ok, err}
use sinker.Kube.{Action, await_change, requeue}
use sinker.Metrics.{ControllerMetrics, default_metrics, bucket_bounds, begin, complete, release}
use sinker.Metrics.Registry.{
  Registry, no_collectors, register, create, write, exposed, dashboard, Sample, times, foreign,
  Owned, register_lem,
}

abbrev runtime_sample : Sample
runtime_sample = record {
  labels = [];
  name = "client_response_duration_seconds";
  series = times (record { buckets = []; observed = [] });
}

-- The registry after `RuntimeMetrics::register`.
abbrev runtime_registry : Registry
runtime_registry = foreign runtime_sample ∷ []

-- `dashboard_series_exist_before_reconciliation_in_the_runtime_registry`
abbrev registered : List Sample
registered =
    let (_, (registry, shared)) = register runtime_registry no_collectors in exposed shared registry

registered_pass : registered ≡ runtime_sample ∷ dashboard default_metrics
unfolding register create write
registered_pass = refl

-- How many observations a bucket has, of those at most its bound.
abbrev bucket : ControllerMetrics → ℕ → ℕ
bucket m bound = length (retain (λ t. leb t bound) m.reconcile_time.observed)

-- The rest of the first test: the bounds of the classic controller-runtime, in milliseconds, and no
-- observation in any bucket.
abbrev classic_bounds : List ℕ
classic_bounds =
    5 ∷ 10 ∷ 25 ∷ 50 ∷ 100 ∷ 150 ∷ 200 ∷ 250 ∷ 300 ∷ 350 ∷ 400 ∷ 450 ∷ 500 ∷ 600 ∷ 700 ∷ 800 ∷ 900
    ∷ 1000 ∷ 1250 ∷ 1500 ∷ 1750 ∷ 2000 ∷ 2500 ∷ 3000 ∷ 3500 ∷ 4000 ∷ 4500 ∷ 5000 ∷ 6000 ∷ 7000
    ∷ 8000 ∷ 9000 ∷ 10000 ∷ 15000 ∷ 20000 ∷ 25000 ∷ 30000 ∷ 40000 ∷ 50000 ∷ 60000 ∷ []

abbrev initial_buckets : List (ℕ × ℕ)
initial_buckets =
    let (handle, (_, shared)) = register runtime_registry no_collectors in
    let m = shared.cell handle in map (λ bound. (bound, bucket m bound)) m.reconcile_time.buckets

initial_buckets_pass : initial_buckets ≡ map (λ bound. (bound, 0)) classic_bounds
unfolding register create write
initial_buckets_pass = refl

-- `slow_attempt_records_seconds_and_the_infinite_bucket`: 75 seconds are in no finite bucket.
abbrev slow_buckets : List ℕ
slow_buckets =
    let m = release 5 75005 (begin default_metrics) in map (bucket m) m.reconcile_time.buckets

slow_buckets_pass : all (λ n. leb n 0) slow_buckets ≡ true
unfolding begin release
slow_buckets_pass = refl

-- `mixed_outcomes_accumulate_across_clones_without_touching_another_registry`: two registrations, of
-- which the first is measured through, and what both registries expose then.
abbrev measured : List (Result String Action) → ControllerMetrics → ControllerMetrics
measured [] m = m
measured (result ∷ results) m = measured results (complete result 0 0 (begin m))

abbrev mixed : List (Result String Action) → List Sample × List Sample
mixed results =
    let (handle, (registry, one)) = register [] no_collectors in
    let (_, (unrelated_registry, two)) = register [] one in
    let shared = write handle (measured results (two.cell handle)) two in
    (exposed shared registry, exposed shared unrelated_registry)

abbrev mixed_results : List (Result String Action)
mixed_results = ok await_change ∷ err "first failure" ∷ ok (requeue 500) ∷ ok (requeue 0) ∷ []

mixed_pass : mixed mixed_results ≡ (
  dashboard (record {
    active_workers = 0;
    reconcile_total = ("success", 1) ∷ ("error", 1) ∷ ("requeue", 1) ∷ ("requeue_after", 1) ∷ [];
    reconcile_time = record { buckets = bucket_bounds; observed = 0 ∷ 0 ∷ 0 ∷ 0 ∷ [] };
  }),
  dashboard default_metrics,
)
unfolding register create write begin complete
mixed_pass = refl

register_lem_example :
    (exposed (create no_collectors).1 (register runtime_registry no_collectors).1.0
      ≡ runtime_sample ∷ [] ++ dashboard default_metrics)
    × (exposed
          (write 0 (begin default_metrics) (create no_collectors).1)
          (register runtime_registry no_collectors).1.0
        ≡ runtime_sample ∷ [] ++ dashboard (begin default_metrics))
    × Owned 1 (register runtime_registry no_collectors).1.0
unfolding register create
register_lem_example = register_lem runtime_registry no_collectors (begin default_metrics) tt
