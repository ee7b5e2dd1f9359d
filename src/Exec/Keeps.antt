-- ===== src/Exec/Keeps.antt =====
-- Invariants of effects over the world: one rule for each way to build an effect.
use sinker.Prelude.{◌≡◌, refl, Bool, true, false, ◌∷◌, if◌then◌else◌}
use sinker.Result.{Result, ok, err, panic}
use sinker.Kube.{KubeError}
use sinker.Server.{Request, Response, Server, World}
use sinker.Exec.{Exec, continue, pure, raise, lift, try, convert, send, clock, ◌>>=◌, ◌>>◌}

-- Whatever the servers answer and however the effect ends, it leaves a world with the property in one
-- with the property.
pub record Keeps {C E A : Type 0} (P : World C → Type 0) (m : Exec C E A) : Type 0 where
  pub at : (w : World C) → P w → P (m w).1

module _ {C E A : Type 0} {P : World C → Type 0} where
  pub Keeps-pure : (a : A) → Keeps P (pure {E = E} a)
  unfolding pure
  Keeps-pure a = record { at = λ w h. h }

  pub Keeps-raise : (e : E) → Keeps P (raise {A = A} e)
  unfolding raise
  Keeps-raise e = record { at = λ w h. h }

  pub Keeps-lift : (r : Result E A) → Keeps P (lift r)
  unfolding lift
  Keeps-lift r = record { at = λ w h. h }

  pub Keeps-if :
      (b : Bool) (m n : Exec C E A)
      → (b ≡ true → Keeps P m)
      → (b ≡ false → Keeps P n)
      → Keeps P (if b then m else n)
  Keeps-if true m n hm hn = hm refl
  Keeps-if false m n hm hn = hn refl

module _ {C E : Type 0} {P : World C → Type 0} where
  pub Keeps-clock : (server : Server C) → Keeps P (clock {E = E} server)
  unfolding clock
  Keeps-clock server = record { at = λ w h. h }

module _ {C E F A : Type 0} {P : World C → Type 0} where
  pub Keeps-try : (m : Exec C E A) → Keeps P m → Keeps P (try {F = F} m)
  unfolding try
  Keeps-try m s = record { at = s.at }

  pub Keeps-convert : (g : E → F) (m : Exec C E A) → Keeps P m → Keeps P (convert g m)
  unfolding convert
  Keeps-convert g m s = record { at = s.at }

module _ {C E A B : Type 0} {P : World C → Type 0} where
  -- What holds where a part has ended holds where the rest has.
  pub Keeps-continue :
      (r : Result E A × World C) (f : A → Exec C E B)
      → ((a : A) → Keeps P (f a))
      → P r.1
      → P (continue r.0 f r.1).1
  Keeps-continue (ok a, w) f sf h = (sf a).at w h
  Keeps-continue (err e, w) f sf h = h
  Keeps-continue (panic, w) f sf h = h

  pub Keeps-bind :
      (m : Exec C E A) (f : A → Exec C E B)
      → Keeps P m
      → ((a : A) → Keeps P (f a))
      → Keeps P (m >>= f)
  unfolding ◌>>=◌
  Keeps-bind m f sm sf = record { at = λ w h. Keeps-continue (m w) f sf (sm.at w h) }

  pub Keeps-then : (m : Exec C E A) (k : Exec C E B) → Keeps P m → Keeps P k → Keeps P (m >> k)
  unfolding ◌>>◌
  Keeps-then m k sm sk = Keeps-bind m (λ _. k) sm (λ _. sk)

-- A request, whatever is answered, and what follows it.
pub Keeps-after_send :
    {C E B : Type 0} {P : World C → Type 0} (server : Server C) (g : KubeError → E) (r : Request C)
    (f : Response r → Exec C E B) (w : World C)
    → ((a : Response r) → Keeps P (f a))
    → P (record w { history = r ∷ w.history })
    → P ((convert g (send server r) >>= f) w).1
unfolding ◌>>=◌ convert send
Keeps-after_send server g r f w sf h = Keeps-continue (convert g (send server r) w) f sf h

pub ruleset keeps_rules = (
  Keeps-pure, Keeps-raise, Keeps-lift, Keeps-if, Keeps-clock, Keeps-try, Keeps-convert, Keeps-bind,
  Keeps-then,
)
