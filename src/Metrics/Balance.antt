-- ===== src/Metrics/Balance.antt =====
-- What the collectors of src/metrics.rs add up to.
use mathlib.Core.Option
use sinker.Prelude.{
  eq_iff, ℕ, suc, ◌+◌, String, ◌≡◌, refl, some, List, [], ◌∷◌, ◌++◌, length, arith, ◌==◌,
  if◌then◌else◌,
}
use sinker.Prelude.StringMap
use sinker.Prelude.StringMap.{StringMap}
use sinker.Result.{Result}
use sinker.Kube.{Action, Time}
use sinker.Metrics.{
  ControllerMetrics, Attempts, Reaches, nothing, polled, returned, dropped, begin, release,
  complete, outcome, increment,
}

abbrev pub sum : StringMap ℕ → ℕ
sum [] = 0
sum ((l, n) ∷ totals) = n + sum totals

sum-increment :
    (label : String) (totals : StringMap ℕ) → sum (increment label totals) ≡ sum totals + 1
unfolding increment
sum-increment label [] = refl
sum-increment label ((l, n) ∷ totals) = ground (arith, sum-increment label totals)

length-remove :
    (xs : List Time) (x : Time) (ys : List Time) → length (xs ++ x ∷ ys) ≡ suc (length (xs ++ ys))
length-remove [] x ys = refl
length-remove (z ∷ xs) x ys = ground (arith, length-remove xs x ys)

-- In every state that attempts can reach, the gauge is the number of attempts that run, the counters
-- add up to the attempts that returned, and a time was observed for every attempt that ended, by
-- returning or by being dropped.
pub Reaches-balanced :
    {E : Type 0} {done gone : ℕ} {s : Attempts}
    → Reaches E done gone s
    → (s.metrics.active_workers ≡ length s.running)
      × (sum s.metrics.reconcile_total ≡ done)
      × (length s.metrics.reconcile_time.observed ≡ done + gone)
unfolding begin release complete
Reaches-balanced nothing = (refl, refl, refl)
Reaches-balanced (polled now r) = ground (arith, Reaches-balanced r)
Reaches-balanced (returned {m = m} xs ys started now result label e r) = ground (
  arith,
  e,
  Reaches-balanced r,
  length-remove xs started ys,
  sum-increment label m.reconcile_total,
)
Reaches-balanced (dropped xs ys started now r) =
    ground (arith, Reaches-balanced r, length-remove xs started ys)

-- The count of a label, zero if it has never been used.
pub counted : String → StringMap ℕ → ℕ
counted label totals = Option.get_or (StringMap.get label totals) 0

counted-increment :
    (label other : String) (totals : StringMap ℕ)
    → counted other (increment label totals)
      ≡ (if label == other then counted other totals + 1 else counted other totals)
unfolding counted increment StringMap.get
counted-increment label other [] = ground arith
counted-increment label other ((l, n) ∷ totals) = ground (
  arith,
  counted-increment label other totals,
  eq_iff label other,
  eq_iff l label,
  eq_iff l other,
)

-- An attempt that returns counts once under its outcome and under no other label.
pub counted-complete :
    {E : Type 0} (result : Result E Action) (label other : String) (started now : Time)
    (m : ControllerMetrics)
    → outcome result ≡ some label
    → counted other (complete result started now m).reconcile_total ≡ (
        if label == other
        then counted other m.reconcile_total + 1
        else counted other m.reconcile_total)
unfolding complete release
counted-complete result label other started now m e =
    rw e (counted-increment label other m.reconcile_total)
