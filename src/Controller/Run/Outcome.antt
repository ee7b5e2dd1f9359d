-- ===== src/Controller/Run/Outcome.antt =====
-- What a run of src/controller.rs has done when it ends, and when it ends by returning.
use sinker.Prelude.{
  ℕ, ◌+◌, ◌≡◌, refl, ap, ◌∙◌, String, Option, none, some, inl, inr, List, [], ◌∷◌, length, map,
  ◌==◌, if◌then◌else◌, Option-cases, arith,
}
use sinker.Result.{Result, ok, err, panic}
use sinker.Error.{Error}
use sinker.Kube.{KubeError, Action, requeue, Time}
use sinker.Kube.Libraries.{Libraries}
use sinker.Resources.{ResourceSync}
use sinker.RemoteWatcherManager.{new, stop_all}
use sinker.RemoteWatcherManager.WellFormed.{new-IsWellFormed}
use sinker.RemoteWatcherManager.Stopped.{stop_all_lem}
use sinker.Server.{Request, list_syncs, Server, World}
use sinker.ResourceExtensions.{Connections}
use sinker.Metrics.{ControllerMetrics, outcome, begin, complete, release}
use sinker.Metrics.Balance.{counted, counted-complete}
use sinker.Controller.Reconcile.{reconcile}
use sinker.Controller.Metered.{reconcile_with_metrics}
use sinker.Controller.Managed.{Managed, reconcile-Managed}
use sinker.Controller.Run.Turns.{each, reconcile_each-Keeps}
use sinker.Controller.Run.{
  Ended, exited, returned, panicked, Controlled, every_sync, next_action, then_reconcile,
  reconcile_each, shut_down, once_listed, run_with_metrics,
}

-- The action that kube takes up after a reconciliation: the returned one, or five seconds after an error
-- the next. A panic has none.
abbrev pub taken : Result Error Action → Option Action
taken (ok action) = some action
taken (err e) = some (requeue 5000)
taken panic = none

-- How many of the results have a label.
abbrev pub hit : String → Option String → ℕ
hit label none = 0
hit label (some l) = if l == label then 1 else 0

abbrev pub tally : String → List (Result Error Action) → ℕ
tally label [] = 0
tally label (r ∷ rs) = hit label (outcome r) + tally label rs

uncounted :
    (r : Result Error Action) (label : String) (started now : Time) (m : ControllerMetrics)
    → outcome r ≡ none
    → counted label (complete r started now m).reconcile_total ≡ counted label m.reconcile_total
unfolding complete release
uncounted r label started now m e = rw e refl

counted-attempt :
    (r : Result Error Action) (label : String) (started now : Time) (m : ControllerMetrics)
    → counted label (complete r started now m).reconcile_total
      ≡ counted label m.reconcile_total + hit label (outcome r)
counted-attempt r label started now m = elim (Option-cases (outcome r)) [
  | inl e ↦ ground (arith, uncounted r label started now m e, e)
  | inr (l, e) ↦ ground (arith, counted-complete r l label started now m e, e)
]

-- An attempt that has ended leaves the gauge as it was, one more time, and its outcome counted.
attempt_lem :
    (r : Result Error Action) (started now : Time) (m : ControllerMetrics)
    → let m' = complete r started now (begin m) in
      (m'.active_workers ≡ m.active_workers)
      × (length m'.reconcile_time.observed ≡ length m.reconcile_time.observed + 1)
unfolding begin complete release
attempt_lem r started now m = (omega arith, omega arith)

begin-total : (m : ControllerMetrics) → (begin m).reconcile_total ≡ m.reconcile_total
unfolding begin
begin-total m = refl

module _ {C K G : Type 0} (lib : Libraries) (net : Connections C K G) (server : Server C) where
  -- The ResourceSyncs reconciled one after another, without collectors: the results, and the world after.
  abbrev pub turns : List ResourceSync → C → World C → List (Result Error Action) × World C
  turns [] client w = ([], w)
  turns (sync ∷ syncs) client w =
      let (result, now) = reconcile lib net server sync client w in
      let (results, last) = turns syncs client now in (result ∷ results, last)

  reconcile_each-Managed :
      (syncs : List ResourceSync) (client : C) (s : Controlled C)
      → Managed s.world
      → Managed (reconcile_each lib net server syncs client s).1.world
  reconcile_each-Managed syncs client s =
      reconcile_each-Keeps lib net server Managed syncs client s
        (each syncs (λ sync. reconcile-Managed lib net server sync client))

  -- The state after the first turn.
  abbrev after : ResourceSync → C → Controlled C → Controlled C
  after sync client s =
      let ((_, world), metrics) =
        reconcile_with_metrics lib net server sync client s.world s.metrics in
      record { world = world; metrics = metrics }

  -- A turn that leads to an orderly end has an action, and is followed by turns that lead to one.
  then_reconcile_lem :
      (next : Result Error Action) (later : Ended × Controlled C) (now : Controlled C)
      (actions : List Action)
      → (then_reconcile next later now).0 ≡ returned actions
      → (action : Action) × (rest : List Action) × (next ≡ ok action)
        × (later.0 ≡ returned rest)
        × (actions ≡ action ∷ rest)
        × ((then_reconcile next later now).1 ≡ later.1)
  then_reconcile_lem (ok action) (returned rest, last) now actions h =
      (action, rest, refl, refl, cc h, refl)
  then_reconcile_lem (ok action) (exited n, last) now actions h = cc
  then_reconcile_lem (ok action) (panicked, last) now actions h = cc
  then_reconcile_lem (err e) later now actions h = cc
  then_reconcile_lem panic later now actions h = cc

  next_action-taken :
      (sync : ResourceSync) (r : Result Error Action) (action : Action)
      → next_action sync r ≡ ok action
      → taken r ≡ some action
  next_action-taken sync (ok a) action h = cc h
  next_action-taken sync (err e) action h = cc h
  next_action-taken sync panic action h = cc

  -- What the reconciliations have left, against those without collectors.
  pub record Ran (syncs : List ResourceSync) (client : C) (before last : Controlled C)
      (actions : List Action) : Type 0 where
    pub acted : map taken (turns syncs client before.world).0 ≡ map some actions
    pub sent : last.world.history ≡ (turns syncs client before.world).1.history
    pub counts :
        (label : String)
        → counted label last.metrics.reconcile_total
          ≡ counted label before.metrics.reconcile_total
            + tally label (turns syncs client before.world).0
    pub timed :
        length last.metrics.reconcile_time.observed
        ≡ length before.metrics.reconcile_time.observed + length syncs
    pub idle : last.metrics.active_workers ≡ before.metrics.active_workers

  reconcile_each-Ran :
      (syncs : List ResourceSync) (client : C) (s : Controlled C) (actions : List Action)
      → (reconcile_each lib net server syncs client s).0 ≡ returned actions
      → Ran syncs client s (reconcile_each lib net server syncs client s).1 actions
  unfolding reconcile_each reconcile_with_metrics
  reconcile_each-Ran [] client s actions h = record {
    acted = cc h;
    sent = refl;
    counts = λ label. omega arith;
    timed = omega arith;
    idle = refl;
  }
  reconcile_each-Ran (sync ∷ syncs) client s actions h =
      let now = after sync client s in
      let ran = reconcile lib net server sync client s.world in
      let (action, rest, next, ended, all_taken, same) =
        then_reconcile_lem (next_action sync ran.0) (reconcile_each lib net server syncs client now)
          now actions h in
      let later = reconcile_each-Ran syncs client now rest ended in
      let started = server.now s.world.history in
      let ends = server.now ran.1.history in
      let (workers, observed) = attempt_lem ran.0 started ends s.metrics in
      record {
        acted =
            rw (next_action-taken sync ran.0 action next, all_taken)
              (ap (λ rs. some action ∷ rs) later.acted);
        sent = ap (λ (last : Controlled C). last.world.history) same ∙ later.sent;
        counts = λ label.
            ap (λ (last : Controlled C). counted label last.metrics.reconcile_total) same
            ∙ later.counts label
            ∙ rw (counted-attempt ran.0 label started ends (begin s.metrics), begin-total)
                (omega arith);
        timed =
            ap (λ (last : Controlled C). length last.metrics.reconcile_time.observed) same
            ∙ later.timed
            ∙ rw observed (omega arith);
        idle =
            ap (λ (last : Controlled C). last.metrics.active_workers) same ∙ later.idle ∙ workers;
      }

  shut_down_lem :
      (r : Ended × Controlled C) (actions : List Action)
      → (shut_down r).0 ≡ returned actions
      → (r.0 ≡ returned actions)
        × ((shut_down r).1
            ≡ record r.1 { world = record r.1.world { manager = stop_all r.1.world.manager } })
  shut_down_lem (returned taken, s) actions h = (h, refl)
  shut_down_lem (exited n, s) actions h = cc
  shut_down_lem (panicked, s) actions h = cc

  once_listed_lem :
      (listed : Result KubeError (Unit {0})) (syncs : List ResourceSync) (client : C)
      (s : Controlled C) (actions : List Action)
      → Managed s.world
      → (once_listed lib net server listed syncs client s).0 ≡ returned actions
      → let last = (once_listed lib net server listed syncs client s).1 in
        Ran syncs client s last actions
        × (last.world.manager.watchers ≡ [])
        × (last.world.manager.running ≡ [])
  once_listed_lem (ok _) syncs client s actions managed h =
      let each_turn = reconcile_each lib net server syncs client s in
      let (ended, same) = shut_down_lem each_turn actions h in
      let ran = reconcile_each-Ran syncs client s actions ended in
      let kept = reconcile_each-Managed syncs client s managed in
      let (watchers, running) = stop_all_lem each_turn.1.world.manager kept.managed in
      rw same (
        record {
          acted = ran.acted;
          sent = ran.sent;
          counts = ran.counts;
          timed = ran.timed;
          idle = ran.idle;
        },
        watchers,
        running,
      )
  once_listed_lem (err e) syncs client s actions managed h = cc
  once_listed_lem panic syncs client s actions managed h = cc

  -- The state of a run that starts its turns: the ResourceSyncs have been listed once.
  abbrev pub listed_once : C → List (Request C) → ControllerMetrics → Controlled C
  listed_once client history m = record {
    world = record { history = list_syncs (every_sync client) 1 ∷ history; manager = new };
    metrics = m;
  }

  -- However the servers answer, a run that returns, which is one that could list the ResourceSyncs and
  -- did not panic, has reconciled the ResourceSyncs handed over, in their order: its actions are those
  -- of the reconciliations, after an error another one in five seconds, and its requests after the
  -- listing are theirs. Each label's counter has gone up by the number of reconciliations with that
  -- outcome, one time has been observed for each, and the gauge is as it was. No watcher and no task of
  -- one is left.
  pub run_with_metrics_lem :
      (syncs : List ResourceSync) (client : C) (history : List (Request C)) (m : ControllerMetrics)
      (actions : List Action)
      → (run_with_metrics lib net server syncs client history m).0 ≡ returned actions
      → let last = (run_with_metrics lib net server syncs client history m).1 in
        Ran syncs client (listed_once client history m) last actions
        × (last.world.manager.watchers ≡ [])
        × (last.world.manager.running ≡ [])
  unfolding run_with_metrics
  run_with_metrics_lem syncs client history m actions h =
      once_listed_lem (server.answer history (list_syncs (every_sync client) 1)) syncs client _
        actions (record { managed = new-IsWellFormed }) h
