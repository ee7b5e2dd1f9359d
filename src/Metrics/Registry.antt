-- ===== src/Metrics/Registry.antt =====
-- `ControllerMetrics::register` of src/metrics.rs. The collectors of a `ControllerMetrics` are shared by
-- its clones, so a handle is a number, by which they are found among all that have been created. A
-- registry is what has been registered in it, in order, with the labels of the sub-registry.
use sinker.Prelude.{
  ◌≡◌, refl, ap, ◌∙◌, ℕ, suc, ◌<◌, String, List, [], ◌∷◌, ◌++◌, nat_eq, if◌then◌else◌, arith,
}
use sinker.Prelude.StringMap.{StringMap}
use sinker.Metrics.{ControllerMetrics, Histogram, default_metrics}

abbrev pub Handle : Type 0
Handle = ℕ

pub record Shared : Type 0 where
  pub next : Handle
  pub cell : Handle → ControllerMetrics

abbrev pub no_collectors : Shared
no_collectors = record { next = 0; cell = λ _. default_metrics }

unfoldable pub write : Handle → ControllerMetrics → Shared → Shared
write h m s = record s { cell = λ i. if nat_eq h i then m else s.cell i }

-- Which collector of a handle is registered.
pub data Collector : Type 0 where
  active_workers reconcile_total reconcile_time : Collector

pub record Family : Type 0 where
  pub labels : StringMap String
  pub name : String
  pub help : String
  pub handle : Handle
  pub collector : Collector

-- What a scrape has of a family.
pub data Series : Type 0 where
  level : ℕ → Series
  totals : StringMap ℕ → Series
  times : Histogram → Series

pub record Sample : Type 0 where
  pub labels : StringMap String
  pub name : String
  pub series : Series

-- A family of the controller, or one that another crate has registered, with what it exposes itself.
pub data Entry : Type 0 where
  family : Family → Entry
  foreign : Sample → Entry

abbrev pub Registry : Type 0
Registry = List Entry

-- `ControllerMetrics::default`
unfoldable pub create : Shared → Handle × Shared
unfolding write
create s = (s.next, write s.next default_metrics (record s { next = suc s.next }))

abbrev pub sub_registry_label : StringMap String
sub_registry_label = ("controller", "resourcesync") ∷ []

abbrev pub dashboard_family : String → String → Handle → Collector → Entry
dashboard_family name help handle collector = family (record {
  labels = sub_registry_label;
  name = name;
  help = help;
  handle = handle;
  collector = collector;
})

-- What a handle is registered as.
abbrev pub families : Handle → Registry
families h =
    dashboard_family "controller_runtime_active_workers"
      "Number of ResourceSync reconciliations currently running" h active_workers
    ∷ dashboard_family "controller_runtime_reconcile"
        "Number of completed ResourceSync reconciliations by result" h reconcile_total
    ∷ dashboard_family "controller_runtime_reconcile_time_seconds"
        "Time spent reconciling a ResourceSync in seconds" h reconcile_time
    ∷ []

unfoldable pub register : Registry → Shared → Handle × (Registry × Shared)
unfolding create
register registry s = let (h, s') = create s in (h, (registry ++ families h, s'))

abbrev pub read : Collector → ControllerMetrics → Series
read active_workers m = level m.active_workers
read reconcile_total m = totals m.reconcile_total
read reconcile_time m = times m.reconcile_time

abbrev pub sample : Family → ControllerMetrics → Sample
sample f m = record { labels = f.labels; name = f.name; series = read f.collector m }

abbrev pub exposed : Shared → Registry → List Sample
exposed s [] = []
exposed s (family f ∷ entries) = sample f (s.cell f.handle) ∷ exposed s entries
exposed s (foreign own ∷ entries) = own ∷ exposed s entries

abbrev dashboard_sample : String → Series → Sample
dashboard_sample name series = record { labels = sub_registry_label; name = name; series = series }

-- The series that the dashboard reads, at the values of some collectors.
abbrev pub dashboard : ControllerMetrics → List Sample
dashboard m =
    dashboard_sample "controller_runtime_active_workers" (level m.active_workers)
    ∷ dashboard_sample "controller_runtime_reconcile" (totals m.reconcile_total)
    ∷ dashboard_sample "controller_runtime_reconcile_time_seconds" (times m.reconcile_time)
    ∷ []

-- Every collector that a registry has has been created.
abbrev pub Owned : Handle → Registry → Type 0
Owned next [] = Unit
Owned next (family f ∷ entries) = (f.handle < next) × Owned next entries
Owned next (foreign own ∷ entries) = Owned next entries

exposed-append : (s : Shared) (r q : Registry) → exposed s (r ++ q) ≡ exposed s r ++ exposed s q
exposed-append s [] q = refl
exposed-append s (family f ∷ r) q =
    ap (λ samples. sample f (s.cell f.handle) ∷ samples) (exposed-append s r q)
exposed-append s (foreign own ∷ r) q = ap (λ samples. own ∷ samples) (exposed-append s r q)

exposed-write :
    (s : Shared) (h : Handle) (m : ControllerMetrics) (r : Registry)
    → Owned h r
    → exposed (write h m s) r ≡ exposed s r
unfolding write
exposed-write s h m [] o = refl
exposed-write s h m (family f ∷ r) o = ground (arith, exposed-write s h m r o.1)
exposed-write s h m (foreign own ∷ r) o = ap (λ samples. own ∷ samples) (exposed-write s h m r o)

-- What another registry exposes of older collectors is not changed by a registration, nor by what is
-- measured through the handle that it returns.
pub register-apart :
    (registry other : Registry) (s : Shared) (m : ControllerMetrics)
    → Owned s.next other
    → let (h, (_, s')) = register registry s in
      (exposed s' other ≡ exposed s other) × (exposed (write h m s') other ≡ exposed s other)
unfolding register
register-apart registry other s m o =
    let created = exposed-write (record s { next = suc s.next }) s.next default_metrics other o in
    (created, exposed-write (create s).1 s.next m other o ∙ created)

-- What is registered last in a registry is what it exposes last.
families-exposed :
    (s : Shared) (h : Handle) (m : ControllerMetrics)
    → exposed (write h m s) (families h) ≡ dashboard m
unfolding write
families-exposed s h m = ground arith

Owned-later : (n : Handle) (r : Registry) → Owned n r → Owned (suc n) r
Owned-later n [] o = tt
Owned-later n (family f ∷ r) (o, os) = (omega arith, Owned-later n r os)
Owned-later n (foreign own ∷ r) o = Owned-later n r o

Owned-append : (n : Handle) (r q : Registry) → Owned n r → Owned n q → Owned n (r ++ q)
Owned-append n [] q o p = p
Owned-append n (family f ∷ r) q (o, os) p = (o, Owned-append n r q os p)
Owned-append n (foreign own ∷ r) q o p = Owned-append n r q o p

-- After a registration the registry exposes what it did before and the dashboard's series, whatever is
-- then measured through the handle that the registration returns, and before anything is measured it
-- exposes them at zero. All its collectors exist.
pub register_lem :
    (registry : Registry) (s : Shared) (m : ControllerMetrics)
    → Owned s.next registry
    → let (h, (registry', s')) = register registry s in
      (exposed s' registry' ≡ exposed s registry ++ dashboard default_metrics)
      × (exposed (write h m s') registry' ≡ exposed s registry ++ dashboard m)
      × Owned s'.next registry'
unfolding register create
register_lem registry s m o =
    let s' = (create s).1 in
    let (before, after) = register-apart registry registry s m o in
    (
      exposed-append s' registry (families s.next)
          ∙ ap (λ samples. samples ++ exposed s' (families s.next)) before
          ∙ ap (λ samples. exposed s registry ++ samples)
              (families-exposed (record s { next = suc s.next }) s.next default_metrics),
      exposed-append (write s.next m s') registry (families s.next)
          ∙ ap (λ samples. samples ++ exposed (write s.next m s') (families s.next)) after
          ∙ ap (λ samples. exposed s registry ++ samples) (families-exposed s' s.next m),
      Owned-append (suc s.next) registry (families s.next) (Owned-later s.next registry o)
          (omega arith),
    )
