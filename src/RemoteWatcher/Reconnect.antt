-- ===== src/RemoteWatcher/Reconnect.antt =====
-- Reconnecting in src/remote_watcher.rs, at the version that the connection before has come to.
use mathlib.Core.Bool.{and-eq-true_iff}
use mathlib.Core.Path.{fun_ext}
use sinker.Prelude.{String, ◌&&◌, true, ◌≡◌, refl, sym, ap, ◌∙◌, List, [], ◌∷◌, ◌++◌, all, arith}
use sinker.Result.{Result, ok, err, panic}
use sinker.Error.{Error}
use sinker.Kube.{KubeError}
use sinker.Kube.Libraries.{Libraries}
use sinker.RemoteWatcherManager.{RemoteWatcherKey}
use sinker.Server.{Server, World, NamespacedApi}
use sinker.ResourceExtensions.{Connections}
use sinker.RemoteWatcher.{
  WatchEvent, Backoff, Progress, Connection, go_on, handle, consume, listen, watch, locate, start,
  send_reconcile, send_reconcile_on_success,
}
use sinker.RemoteWatcher.Listening.{
  is_versioned, yielded, last_version, asked, consume_lem, go_on_ok,
}

abbrev pub events : List (List WatchEvent) → List WatchEvent
events [] = []
events (xs ∷ xss) = xs ++ events xss

-- Each connection yields its events where it is opened at the last version before it. At any other
-- version nothing is known of what it answers.
abbrev pub Resumes : String → List Connection → List (List WatchEvent) → Type 0
Resumes rv [] [] = Unit
Resumes rv (connection ∷ later) (es ∷ ess) =
    (connection rv ≡ ok (yielded es)) × Resumes (last_version rv es) later ess
Resumes rv [] (es ∷ ess) = ⊥
Resumes rv (connection ∷ later) [] = ⊥

yielded-append : (xs ys : List WatchEvent) → yielded (xs ++ ys) ≡ yielded xs ++ yielded ys
yielded-append [] ys = refl
yielded-append (x ∷ xs) ys = ap (λ r. ok x ∷ r) (yielded-append xs ys)

all_versioned-append :
    (xs ys : List WatchEvent)
    → all is_versioned (xs ++ ys) ≡ (all is_versioned xs && all is_versioned ys)
all_versioned-append [] ys = refl
all_versioned-append (x ∷ xs) ys = ground (arith, all_versioned-append xs ys)

module _ {B : Type 0} (timing : Backoff B) (key : RemoteWatcherKey) where
  go_on_assoc :
      (f g : String → Progress B → Result Error String × Progress B)
      (r : Result Error String × Progress B)
      → go_on timing key g (go_on timing key f r)
        ≡ go_on timing key (λ rv s. go_on timing key g (f rv s)) r
  go_on_assoc f g (ok rv, s) = refl
  go_on_assoc f g (err e, s) = refl
  go_on_assoc f g (panic, s) = refl

  -- A stream is consumed in parts.
  consume-append :
      (xs ys : List (Result KubeError WatchEvent)) (rv : String) (s : Progress B)
      → consume timing key (xs ++ ys) rv s
        ≡ go_on timing key (consume timing key ys) (consume timing key xs rv s)
  unfolding consume
  consume-append [] ys rv s = refl
  consume-append (ok e ∷ xs) ys rv s =
      ap (λ f. go_on timing key f (handle timing key e rv s))
        (fun_ext λ rv'. fun_ext λ s'. consume-append xs ys rv' s')
      ∙ sym (go_on_assoc (consume timing key xs) (consume timing key ys) (handle timing key e rv s))
  consume-append (err e ∷ xs) ys rv s = refl
  consume-append (panic ∷ xs) ys rv s = refl

  -- Watching over an open channel resumes each connection at the last version of the one before: where
  -- each connection yields events with their versions if opened at that version, whatever it would
  -- answer at another, the watch is the reading of one stream with all their events. So no event is lost
  -- or read twice.
  pub watch-Resumes :
      (connections : List Connection) (ess : List (List WatchEvent)) (rv : String) (s : Progress B)
      → Resumes rv connections ess
      → all is_versioned (events ess) ≡ true
      → s.is_open ≡ true
      → watch timing key connections rv s ≡ consume timing key (yielded (events ess)) rv s
  unfolding watch listen consume
  watch-Resumes [] [] rv s h v o = refl
  watch-Resumes (connection ∷ later) (es ∷ ess) rv s (here, there) v o =
      let (ves, vess) =
        (and-eq-true_iff (all is_versioned es) (all is_versioned (events ess))).0
          (sym (all_versioned-append es (events ess)) ∙ v) in
      let (result, is_open, _) = consume_lem timing key es rv s ves o in
      let resumed =
        watch-Resumes later ess (last_version rv es) (consume timing key (yielded es) rv s).1 there
          vess is_open in
      rw
        (
          here,
          yielded-append es (events ess),
          consume-append (yielded es) (yielded (events ess)) rv s,
        )
        (go_on_ok timing key (watch timing key later) (consume timing key (yielded es) rv s) result
          ∙ resumed
          ∙ sym (
              go_on_ok timing key (consume timing key (yielded (events ess)))
                (consume timing key (yielded es) rv s) result))
  watch-Resumes [] (es ∷ ess) rv s h v o = absurd h
  watch-Resumes (connection ∷ later) [] rv s h v o = absurd h

module _ {C K G B : Type 0} (lib : Libraries) (net : Connections C K G) (server : Server C)
    (timing : Backoff B) (key : RemoteWatcherKey) where
  -- Over an open channel, a start that finds its object sends one reconcile, and one more for
  -- each event that asks for one of the events, with their versions, that its connections yield: the
  -- first where it is opened at the object's version, each later one at the last version before it. It
  -- returns the last version.
  pub start_lem :
      (client : C) (connections : List Connection) (ess : List (List WatchEvent)) (w : World C)
      (s : Progress B) {api : NamespacedApi C} {rv : String}
      → (locate lib net server key client w).0 ≡ ok (api, rv)
      → Resumes rv connections ess
      → all is_versioned (events ess) ≡ true
      → s.is_open ≡ true
      → let (result, s') = (start lib net server key timing client connections w s).0 in
        (result ≡ ok (last_version rv (events ess)))
        × (s'.sent ≡ asked key.resource_sync (events ess) (key.resource_sync ∷ s.sent))
  unfolding start send_reconcile_on_success send_reconcile
  start_lem client connections ess w s {rv = rv} located resumes versioned o =
      let s' = send_reconcile_on_success timing key s in
      let (is_open, sent) = sent_on_start in
      let (result, _, sent_after) = consume_lem timing key (events ess) rv s' versioned is_open in
      rw (located, watch-Resumes timing key connections ess rv s' resumes versioned is_open)
        (result, sent_after ∙ ap (asked key.resource_sync (events ess)) sent)
    where
      sent_on_start :
          ((send_reconcile_on_success timing key s).is_open ≡ true)
          × ((send_reconcile_on_success timing key s).sent ≡ key.resource_sync ∷ s.sent)
      sent_on_start = ground arith
