-- ===== src/Exec/Oblivious.antt =====
-- Effects that do not look at the watches: what they return and send does not depend on the watcher
-- manager, and what they do to it are calls that depend on the requests alone. One rule for each way to
-- build an effect.
use sinker.Prelude.{◌≡◌, refl, ap, sym, ◌∙◌, Bool, true, false, List, [], ◌∷◌, ◌++◌, if◌then◌else◌}
use sinker.Kube.{ObjectRef}
use sinker.Result.{Result, ok, err, panic, map_err}
use sinker.RemoteWatcherManager.{
  RemoteWatcherKey, RemoteWatcherManager, add_if_not_exists, stop_and_remove_if_exists,
}
use sinker.RemoteWatcherManager.Interleaved.{Call, start, stop, call, calls, AllOf}
use sinker.Server.{Request, Server, World}
use sinker.Exec.{
  Exec, caught, continue, pure, raise, lift, try, convert, send, clock, manage, ◌>>=◌, ◌>>◌,
}

abbrev pub world : {C : Type 0} → List (Request C) → RemoteWatcherManager → World C
world history manager = record { history = history; manager = manager }

-- What an effect does after some requests: calls for one ResourceSync, whatever the manager is.
pub record Effect {C E A : Type 0} (ref : ObjectRef) (m : Exec C E A) (history : List (Request C))
    : Type 0 where
  pub result : Result E A
  pub sent : List (Request C)
  pub made : List Call
  pub own : AllOf ref made
  pub same :
      (manager : RemoteWatcherManager)
      → m (world history manager) ≡ (result, world sent (calls made manager))

pub record Oblivious {C E A : Type 0} (ref : ObjectRef) (m : Exec C E A) : Type 0 where
  pub at : (history : List (Request C)) → Effect ref m history

AllOf-append :
    (ref : ObjectRef) (cs ds : List Call) → AllOf ref cs → AllOf ref ds → AllOf ref (cs ++ ds)
AllOf-append ref [] ds own later = later
AllOf-append ref (c ∷ cs) ds (e, own) later = (e, AllOf-append ref cs ds own later)

calls-append :
    (cs ds : List Call) (m : RemoteWatcherManager) → calls (cs ++ ds) m ≡ calls ds (calls cs m)
unfolding calls
calls-append [] ds m = refl
calls-append (c ∷ cs) ds m = calls-append cs ds (call c m)

module _ {C E A : Type 0} {ref : ObjectRef} where
  -- An effect that neither sends nor calls the manager.
  still : (m : Exec C E A) (r : Result E A) → ((w : World C) → m w ≡ (r, w)) → Oblivious ref m
  unfolding calls
  still m r e = record {
    at = λ history. record {
      result = r;
      sent = history;
      made = [];
      own = tt;
      same = λ manager. e (world history manager);
    };
  }

  pub Oblivious-pure : (a : A) → Oblivious ref (pure {C = C} {E = E} a)
  unfolding pure
  Oblivious-pure a = still _ (ok a) (λ w. refl)

  pub Oblivious-raise : (e : E) → Oblivious ref (raise {C = C} {A = A} e)
  unfolding raise
  Oblivious-raise e = still _ (err e) (λ w. refl)

  pub Oblivious-lift : (r : Result E A) → Oblivious ref (lift {C = C} r)
  unfolding lift
  Oblivious-lift r = still _ r (λ w. refl)

  pub Oblivious-if :
      (b : Bool) (m n : Exec C E A)
      → Oblivious ref m
      → Oblivious ref n
      → Oblivious ref (if b then m else n)
  Oblivious-if true m n hm hn = hm
  Oblivious-if false m n hm hn = hn

module _ {C E : Type 0} {ref : ObjectRef} where
  pub Oblivious-clock : (server : Server C) → Oblivious ref (clock {E = E} server)
  unfolding clock calls
  Oblivious-clock server = record {
    at = λ history. record {
      result = ok (server.now history);
      sent = history;
      made = [];
      own = tt;
      same = λ manager. refl;
    };
  }

  pub Oblivious-start :
      (key : RemoteWatcherKey)
      → key.resource_sync ≡ ref
      → Oblivious {C = C} ref (manage {E = E} (add_if_not_exists key))
  unfolding manage calls call
  Oblivious-start key e = record {
    at = λ history. record {
      result = ok tt;
      sent = history;
      made = start key ∷ [];
      own = (e, tt);
      same = λ manager. refl;
    };
  }

  pub Oblivious-stop :
      (key : RemoteWatcherKey)
      → key.resource_sync ≡ ref
      → Oblivious {C = C} ref (manage {E = E} (stop_and_remove_if_exists key))
  unfolding manage calls call
  Oblivious-stop key e = record {
    at = λ history. record {
      result = ok tt;
      sent = history;
      made = stop key ∷ [];
      own = (e, tt);
      same = λ manager. refl;
    };
  }

pub Oblivious-send :
    {C : Type 0} {ref : ObjectRef} (server : Server C) (r : Request C)
    → Oblivious ref (send server r)
unfolding send calls
Oblivious-send server r = record {
  at = λ history. record {
    result = server.answer history r;
    sent = r ∷ history;
    made = [];
    own = tt;
    same = λ manager. refl;
  };
}

module _ {C E F A : Type 0} {ref : ObjectRef} where
  pub Oblivious-try : (m : Exec C E A) → Oblivious ref m → Oblivious ref (try {F = F} m)
  unfolding try
  Oblivious-try m s = record {
    at = λ history.
        let e = s.at history in
        record {
          result = caught e.result;
          sent = e.sent;
          made = e.made;
          own = e.own;
          same = λ manager. rw e.same;
        };
  }

  pub Oblivious-convert :
      (g : E → F) (m : Exec C E A) → Oblivious ref m → Oblivious ref (convert g m)
  unfolding convert
  Oblivious-convert g m s = record {
    at = λ history.
        let e = s.at history in
        record {
          result = map_err g e.result;
          sent = e.sent;
          made = e.made;
          own = e.own;
          same = λ manager. rw e.same;
        };
  }

module _ {C E A B : Type 0} {ref : ObjectRef} where
  -- What follows an effect, by its outcome.
  followed :
      (r : Result E A) (sent : List (Request C)) (made : List Call) (own : AllOf ref made)
      (f : A → Exec C E B)
      → ((a : A) → Oblivious ref (f a))
      → (later : Result E B) × (all : List (Request C)) × (more : List Call) × AllOf ref more
        × ((manager : RemoteWatcherManager)
            → continue r f (world sent (calls made manager))
              ≡ (later, world all (calls more manager)))
  followed (ok a) sent made own f sf =
      let e = (sf a).at sent in
      (
        e.result,
        e.sent,
        made ++ e.made,
        AllOf-append ref made e.made own e.own,
        λ manager.
            e.same (calls made manager)
            ∙ ap (λ n. (e.result, world e.sent n)) (sym (calls-append made e.made manager)),
      )
  followed (err x) sent made own f sf = (err x, sent, made, own, λ manager. refl)
  followed panic sent made own f sf = (panic, sent, made, own, λ manager. refl)

  pub Oblivious-bind :
      (m : Exec C E A) (f : A → Exec C E B)
      → Oblivious ref m
      → ((a : A) → Oblivious ref (f a))
      → Oblivious ref (m >>= f)
  unfolding ◌>>=◌
  Oblivious-bind m f sm sf = record {
    at = λ history.
        let e = sm.at history in
        let (later, all, more, own, same) = followed e.result e.sent e.made e.own f sf in
        record {
          result = later;
          sent = all;
          made = more;
          own = own;
          same = λ manager. rw e.same (same manager);
        };
  }

  pub Oblivious-then :
      (m : Exec C E A) (k : Exec C E B) → Oblivious ref m → Oblivious ref k → Oblivious ref (m >> k)
  unfolding ◌>>◌
  Oblivious-then m k sm sk = Oblivious-bind m (λ _. k) sm (λ _. sk)

pub ruleset oblivious_rules = (
  Oblivious-pure, Oblivious-raise, Oblivious-lift, Oblivious-if, Oblivious-clock, Oblivious-send,
  Oblivious-try, Oblivious-convert, Oblivious-bind, Oblivious-then,
)
