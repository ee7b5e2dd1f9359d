-- ===== src/Exec/Bounded.antt =====
-- How many requests an effect sends at most: one rule for each way to build an effect.
use sinker.Prelude.{Bool, true, false, if◌then◌else◌, ℕ, suc, ◌+◌, ◌≤◌, length, arith}
use sinker.Result.{Result, ok, err, panic}
use sinker.Server.{Request, Server, World}
use sinker.RemoteWatcherManager.{RemoteWatcherManager}
use sinker.Exec.{Exec, continue, pure, raise, lift, try, convert, send, clock, manage, ◌>>=◌, ◌>>◌}

-- Whatever the servers answer, at most `n` requests are sent.
pub record Bounded {C E A : Type 0} (n : ℕ) (m : Exec C E A) : Type 0 where
  pub at : (w : World C) → length (m w).1.history ≤ length w.history + n

module _ {C E A : Type 0} {n : ℕ} where
  pub Bounded-pure : (a : A) → Bounded n (pure {C = C} {E = E} a)
  unfolding pure
  Bounded-pure a = record { at = λ w. omega arith }

  pub Bounded-raise : (e : E) → Bounded n (raise {C = C} {A = A} e)
  unfolding raise
  Bounded-raise e = record { at = λ w. omega arith }

  pub Bounded-lift : (r : Result E A) → Bounded n (lift {C = C} r)
  unfolding lift
  Bounded-lift r = record { at = λ w. omega arith }

  pub Bounded-if :
      (b : Bool) (m k : Exec C E A) → Bounded n m → Bounded n k → Bounded n (if b then m else k)
  Bounded-if true m k hm hk = hm
  Bounded-if false m k hm hk = hk

module _ {C E : Type 0} {n : ℕ} where
  pub Bounded-clock : (server : Server C) → Bounded n (clock {E = E} server)
  unfolding clock
  Bounded-clock server = record { at = λ w. omega arith }

  pub Bounded-manage :
      (f : RemoteWatcherManager → RemoteWatcherManager) → Bounded n (manage {C = C} {E = E} f)
  unfolding manage
  Bounded-manage f = record { at = λ w. omega arith }

module _ {C E F A : Type 0} {n : ℕ} where
  pub Bounded-try : (m : Exec C E A) → Bounded n m → Bounded n (try {F = F} m)
  unfolding try
  Bounded-try m s = record { at = s.at }

  pub Bounded-convert : (g : E → F) (m : Exec C E A) → Bounded n m → Bounded n (convert g m)
  unfolding convert
  Bounded-convert g m s = record { at = s.at }

pub Bounded-send :
    {C : Type 0} {n : ℕ} (server : Server C) (r : Request C) → Bounded (suc n) (send server r)
unfolding send
Bounded-send server r = record { at = λ w. omega arith }

module _ {C E A B : Type 0} (a b : ℕ) where
  -- A chain sends at most what its parts do.
  pub Bounded-bind :
      (m : Exec C E A) (f : A → Exec C E B)
      → Bounded a m
      → ((x : A) → Bounded b (f x))
      → Bounded (a + b) (m >>= f)
  unfolding ◌>>=◌
  Bounded-bind m f sm sf = record { at = λ w. go (m w) (length w.history) (sm.at w) }
    where
      go :
          (r : Result E A × World C) (k : ℕ)
          → length r.1.history ≤ k + a
          → length (continue r.0 f r.1).1.history ≤ k + (a + b)
      go (ok x, w) k h = omega (arith, (sf x).at w)
      go (err e, w) k h = omega arith
      go (panic, w) k h = omega arith

  pub Bounded-then :
      (m : Exec C E A) (k : Exec C E B) → Bounded a m → Bounded b k → Bounded (a + b) (m >> k)
  unfolding ◌>>◌
  Bounded-then m k sm sk = Bounded-bind m (λ _. k) sm (λ _. sk)

module _ {C E A B : Type 0} {b : ℕ} where
  -- The same for a first part that sends nothing, or one request.
  pub Bounded-after :
      (m : Exec C E A) (f : A → Exec C E B)
      → Bounded 0 m
      → ((x : A) → Bounded b (f x))
      → Bounded b (m >>= f)
  Bounded-after m f sm sf = record { at = λ w. omega (arith, (Bounded-bind 0 b m f sm sf).at w) }

  pub Bounded-next :
      (m : Exec C E A) (f : A → Exec C E B)
      → Bounded 1 m
      → ((x : A) → Bounded b (f x))
      → Bounded (suc b) (m >>= f)
  Bounded-next m f sm sf = record { at = λ w. omega (arith, (Bounded-bind 1 b m f sm sf).at w) }

  pub Bounded-after_then :
      (m : Exec C E A) (k : Exec C E B) → Bounded 0 m → Bounded b k → Bounded b (m >> k)
  unfolding ◌>>◌
  Bounded-after_then m k sm sk = Bounded-after m (λ _. k) sm (λ _. sk)

  pub Bounded-next_then :
      (m : Exec C E A) (k : Exec C E B) → Bounded 1 m → Bounded b k → Bounded (suc b) (m >> k)
  unfolding ◌>>◌
  Bounded-next_then m k sm sk = Bounded-next m (λ _. k) sm (λ _. sk)

pub ruleset bounded_rules = (
  Bounded-pure, Bounded-raise, Bounded-lift, Bounded-if, Bounded-clock, Bounded-manage, Bounded-try,
  Bounded-convert, Bounded-send, Bounded-after, Bounded-next, Bounded-after_then, Bounded-next_then,
)
