-- ===== src/Exec/Calm.antt =====
-- Effects that do not panic: one rule for each way to build an effect.
use sinker.Prelude.{◌≡◌, refl, Bool, true, false, if◌then◌else◌, Option, none, some, List}
use sinker.Result.{Result, ok, err, panic, map_err, ok_or}
use sinker.Server.{Request, Server, World}
use sinker.RemoteWatcherManager.{RemoteWatcherManager}
use sinker.Exec.{
  Exec, caught, continue, pure, raise, lift, try, convert, send, clock, manage, ◌>>=◌, ◌>>◌,
}

-- An outcome that is no panic.
abbrev pub returns : {E A : Type 0} → Result E A → Bool
returns (ok _) = true
returns (err _) = true
returns panic = false

-- In no world does the effect panic.
pub record Calm {C E A : Type 0} (m : Exec C E A) : Type 0 where
  pub at : (w : World C) → returns (m w).0 ≡ true

-- The servers' answers are answers or errors.
abbrev pub IsCalm : {C : Type 0} → Server C → Type 0
IsCalm {C} server =
    (history : List (Request C)) (r : Request C) → returns (server.answer history r) ≡ true

pub returns-ok_or : {E A : Type 0} (o : Option A) (x : E) → returns (ok_or o x) ≡ true
returns-ok_or none x = refl
returns-ok_or (some a) x = refl

pub returns-map_err :
    {E F A : Type 0} (g : E → F) (r : Result E A) → returns r ≡ true → returns (map_err g r) ≡ true
returns-map_err g (ok a) h = refl
returns-map_err g (err x) h = refl
returns-map_err g panic h = cc

module _ {C E A : Type 0} where
  pub Calm-pure : (a : A) → Calm (pure {C = C} {E = E} a)
  unfolding pure
  Calm-pure a = record { at = λ w. refl }

  pub Calm-raise : (x : E) → Calm (raise {C = C} {A = A} x)
  unfolding raise
  Calm-raise x = record { at = λ w. refl }

  pub Calm-lift : (r : Result E A) → returns r ≡ true → Calm (lift {C = C} r)
  unfolding lift
  Calm-lift r h = record { at = λ w. h }

  pub Calm-if : (b : Bool) (m n : Exec C E A) → Calm m → Calm n → Calm (if b then m else n)
  Calm-if true m n hm hn = hm
  Calm-if false m n hm hn = hn

module _ {C E : Type 0} where
  pub Calm-clock : (server : Server C) → Calm (clock {E = E} server)
  unfolding clock
  Calm-clock server = record { at = λ w. refl }

  pub Calm-manage :
      (f : RemoteWatcherManager → RemoteWatcherManager) → Calm (manage {C = C} {E = E} f)
  unfolding manage
  Calm-manage f = record { at = λ w. refl }

pub Calm-send :
    {C : Type 0} (server : Server C) (r : Request C) → IsCalm server → Calm (send server r)
unfolding send
Calm-send server r h = record { at = λ w. h w.history r }

pub Calm-convert : {C E F A : Type 0} (g : E → F) (m : Exec C E A) → Calm m → Calm (convert g m)
unfolding convert
Calm-convert g m s = record { at = λ w. returns-map_err g (m w).0 (s.at w) }

module _ {C E A B : Type 0} where
  pub Calm-bind :
      (m : Exec C E A) (f : A → Exec C E B) → Calm m → ((a : A) → Calm (f a)) → Calm (m >>= f)
  unfolding ◌>>=◌
  Calm-bind m f sm sf = record { at = λ w. go (m w) (sm.at w) }
    where
      go : (r : Result E A × World C) → returns r.0 ≡ true → returns (continue r.0 f r.1).0 ≡ true
      go (ok a, w) h = (sf a).at w
      go (err x, w) h = refl
      go (panic, w) h = cc

  pub Calm-then : (m : Exec C E A) (k : Exec C E B) → Calm m → Calm k → Calm (m >> k)
  unfolding ◌>>◌
  Calm-then m k sm sk = Calm-bind m (λ _. k) sm (λ _. sk)

  -- A `match` on the outcome of a call sees no panic.
  pub Calm-match :
      {F : Type 0} (m : Exec C F A) (f : Result F A → Exec C E B)
      → Calm m
      → ((r : Result F A) → returns r ≡ true → Calm (f r))
      → Calm (try m >>= f)
  unfolding ◌>>=◌ try
  Calm-match {F} m f sm sf = record { at = λ w. go (m w) (sm.at w) }
    where
      go :
          (r : Result F A × World C)
          → returns r.0 ≡ true
          → returns (continue (caught r.0) f r.1).0 ≡ true
      go (ok a, w) h = (sf (ok a) refl).at w
      go (err x, w) h = (sf (err x) refl).at w
      go (panic, w) h = cc

pub ruleset calm_rules = (
  Calm-pure, Calm-raise, Calm-lift, Calm-if, Calm-clock, Calm-manage, Calm-send, Calm-convert,
  Calm-match, Calm-bind, Calm-then, returns-ok_or, returns-map_err,
)
