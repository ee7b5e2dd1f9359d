-- ===== src/Exec/Ensures.antt =====
-- What an effect keeps of the world together with what holds of the value that it returns: one rule for
-- each way to build an effect.
use sinker.Prelude.{◌≡◌, refl, Bool, true, false, Option, none, some, List, if◌then◌else◌}
use sinker.Kube.{KubeError}
use sinker.Result.{Result, ok, err, panic, map_err, ok_or, unwrap}
use sinker.Server.{Request, Response, Server, World}
use sinker.Exec.{Exec, caught, continue, pure, raise, lift, try, convert, send, ◌>>=◌, ◌>>◌}
use sinker.Exec.Keeps.{Keeps}

-- A value that is returned has the property.
abbrev pub Yields : {E A : Type 0} → (A → Type 0) → Result E A → Type 0
Yields Q (ok a) = Q a
Yields Q (err e) = Unit
Yields Q panic = Unit

pub record Ensures {C E A : Type 0} (P : World C → Type 0) (Q : A → Type 0) (m : Exec C E A)
    : Type 0 where
  pub at : (w : World C) → P w → P (m w).1 × Yields Q (m w).0

-- Nothing is said of the value.
abbrev pub Any : {A : Type 0} → A → Type 0
Any _ = Unit

module _ {C E A : Type 0} {P : World C → Type 0} {Q : A → Type 0} where
  pub Ensures-pure : (a : A) → Q a → Ensures P Q (pure {E = E} a)
  unfolding pure
  Ensures-pure a q = record { at = λ w h. (h, q) }

  pub Ensures-raise : (e : E) → Ensures P Q (raise e)
  unfolding raise
  Ensures-raise e = record { at = λ w h. (h, tt) }

  pub Ensures-lift : (r : Result E A) → Yields Q r → Ensures P Q (lift r)
  unfolding lift
  Ensures-lift r y = record { at = λ w h. (h, y) }

  pub Ensures-if :
      (b : Bool) (m n : Exec C E A)
      → Ensures P Q m
      → Ensures P Q n
      → Ensures P Q (if b then m else n)
  Ensures-if true m n hm hn = hm
  Ensures-if false m n hm hn = hn

  pub Ensures-Keeps : (m : Exec C E A) → Ensures P Q m → Keeps P m
  Ensures-Keeps m s = record { at = λ w h. (s.at w h).0 }

pub Keeps-Ensures :
    {C E A : Type 0} {P : World C → Type 0} (m : Exec C E A) → Keeps P m → Ensures P Any m
Keeps-Ensures {C} {E} {A} {P} m s = record { at = λ w h. (s.at w h, any (m w).0) }
  where
    any : (r : Result E A) → Yields Any r
    any (ok a) = tt
    any (err e) = tt
    any panic = tt

module _ {C E F A : Type 0} {P : World C → Type 0} {Q : A → Type 0} where
  pub Ensures-try : (m : Exec C E A) → Ensures P Q m → Ensures P (Yields Q) (try {F = F} m)
  unfolding try
  Ensures-try m s = record { at = λ w h. ((s.at w h).0, go (m w).0 (s.at w h).1) }
    where
      go : (r : Result E A) → Yields Q r → Yields (Yields Q) (caught {F = F} r)
      go (ok a) y = y
      go (err e) y = tt
      go panic y = tt

  pub Ensures-convert : (g : E → F) (m : Exec C E A) → Ensures P Q m → Ensures P Q (convert g m)
  unfolding convert
  Ensures-convert g m s = record { at = λ w h. ((s.at w h).0, go (m w).0 (s.at w h).1) }
    where
      go : (r : Result E A) → Yields Q r → Yields Q (map_err g r)
      go (ok a) y = y
      go (err e) y = tt
      go panic y = tt

module _ {C E A B : Type 0} {P : World C → Type 0} (Q : A → Type 0) {R : B → Type 0} where
  pub Ensures-bind :
      (m : Exec C E A) (f : A → Exec C E B)
      → Ensures P Q m
      → ((a : A) → Q a → Ensures P R (f a))
      → Ensures P R (m >>= f)
  unfolding ◌>>=◌
  Ensures-bind m f sm sf = record { at = λ w h. go (m w) (sm.at w h) }
    where
      go :
          (r : Result E A × World C)
          → P r.1 × Yields Q r.0
          → P (continue r.0 f r.1).1 × Yields R (continue r.0 f r.1).0
      go (ok a, w) (h, q) = (sf a q).at w h
      go (err e, w) (h, q) = (h, tt)
      go (panic, w) (h, q) = (h, tt)

  pub Ensures-then :
      (m : Exec C E A) (k : Exec C E B) → Ensures P Q m → Ensures P R k → Ensures P R (m >> k)
  unfolding ◌>>◌
  Ensures-then m k sm sk = Ensures-bind m (λ _. k) sm (λ _ _. sk)

-- The value of a call is what a server has answered to it after some requests.
pub Ensures-send :
    {C : Type 0} (server : Server C) (r : Request C)
    → Ensures
        (λ _. Unit {0})
        (λ a. (history : List (Request C)) × (server.answer history r ≡ ok a))
        (send server r)
unfolding send
Ensures-send {C} server r = record { at = λ w h. (tt, go w (server.answer w.history r) refl) }
  where
    go :
        (w : World C) (x : Result KubeError (Response r))
        → server.answer w.history r ≡ x
        → Yields (λ a. (history : List (Request C)) × (server.answer history r ≡ ok a)) x
    go w (ok a) e = (w.history, e)
    go w (err x) e = tt
    go w panic e = tt

-- What holds of the value alone holds of it beside an invariant.
pub Ensures-value :
    {C E A : Type 0} {P : World C → Type 0} {Q : A → Type 0} (m : Exec C E A)
    → Keeps P m
    → Ensures (λ _. Unit {0}) Q m
    → Ensures P Q m
Ensures-value m kept value = record { at = λ w h. (kept.at w h, (value.at w tt).1) }

-- A property of a value that follows from another.
pub Ensures-weaken :
    {C E A : Type 0} {P : World C → Type 0} {Q R : A → Type 0} (m : Exec C E A)
    → ((a : A) → Q a → R a)
    → Ensures P Q m
    → Ensures P R m
Ensures-weaken {E = E} {A = A} {Q = Q} {R = R} m f s = record {
  at = λ w h. ((s.at w h).0, go (m w).0 (s.at w h).1);
}
  where
    go : (r : Result E A) → Yields Q r → Yields R r
    go (ok a) q = f a q
    go (err e) q = tt
    go panic q = tt

-- The value of a result that is a value.
pub Yields-map_err :
    {E F A : Type 0} (f : E → F) (r : Result E A) → Yields (λ a. r ≡ ok a) (map_err f r)
Yields-map_err f (ok a) = refl
Yields-map_err f (err e) = tt
Yields-map_err f panic = tt

pub Yields-ok_or : {E A : Type 0} (o : Option A) (e : E) → Yields (λ a. o ≡ some a) (ok_or o e)
Yields-ok_or none e = tt
Yields-ok_or (some a) e = refl

pub Yields-unwrap :
    (E : Type 0) {A : Type 0} (o : Option A) → Yields (λ a. o ≡ some a) (unwrap {E = E} o)
Yields-unwrap E none = tt
Yields-unwrap E (some a) = refl
