-- ===== src/Exec/Sends.antt =====
-- Which requests an effect sends: the histories all of whose requests pass a test.
use sinker.Prelude.{◌≡◌, Bool, true, all}
use sinker.Server.{Request, Server, World}
use sinker.RemoteWatcherManager.{RemoteWatcherManager}
use sinker.Exec.{Exec, send, manage}
use sinker.Exec.Keeps.{
  Keeps, Keeps-pure, Keeps-raise, Keeps-lift, Keeps-if, Keeps-clock, Keeps-try, Keeps-convert,
  Keeps-bind, Keeps-then,
}

-- Every request so far passes a test.
pub record Sent {C : Type 0} (p : Request C → Bool) (w : World C) : Type 0 where
  pub passed : all p w.history ≡ true

-- Every request that an effect sends passes a test.
abbrev pub Sends : {C E A : Type 0} → (Request C → Bool) → Exec C E A → Type 0
Sends p m = Keeps (Sent p) m

module _ {C E : Type 0} {p : Request C → Bool} where
  pub Sends-manage :
      (f : RemoteWatcherManager → RemoteWatcherManager) → Keeps (Sent p) (manage {E = E} f)
  unfolding manage
  Sends-manage f = record { at = λ w h. record { passed = h.passed } }

module _ {C : Type 0} {p : Request C → Bool} where
  pub Sends-send : (server : Server C) (r : Request C) → p r ≡ true → Keeps (Sent p) (send server r)
  unfolding send
  Sends-send server r e = record { at = λ w h. record { passed = rw e h.passed } }

pub ruleset sends_rules = (
  Keeps-pure, Keeps-raise, Keeps-lift, Keeps-if, Keeps-clock, Keeps-try, Keeps-convert, Keeps-bind,
  Keeps-then, Sends-manage, Sends-send,
)
