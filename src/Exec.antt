-- ===== src/Exec.antt =====
-- Asynchronous functions: they may send requests, change the watchers, return an error or panic.
pub mod Keeps
pub mod Sends
pub mod Bounded
pub mod Calm
pub mod Ensures
pub mod Oblivious
use sinker.Prelude.{◌≡◌, ◌∷◌}
use sinker.Result.{Result, ok, err, panic, map_err, is_ok, is_error, is_panic, Result-cases}
use sinker.Kube.{KubeError, Time}
use sinker.Server.{Request, Response, Server, World}
use sinker.RemoteWatcherManager.{RemoteWatcherManager}

abbrev pub Exec : Type 0 → Type 0 → Type 0 → Type 0
Exec C E A = World C → Result E A × World C

module _ {C E A : Type 0} where
  unfoldable pub pure : A → Exec C E A
  pure a w = (Result.ok a, w)

  unfoldable pub raise : E → Exec C E A
  raise e w = (err e, w)

  unfoldable pub lift : Result E A → Exec C E A
  lift r w = (r, w)

-- The outcome of a call as a value, for a `match` on it; a panic goes on.
abbrev pub caught : {E F A : Type 0} → Result E A → Result F (Result E A)
caught (ok a) = ok (ok a)
caught (err e) = ok (err e)
caught panic = panic

module _ {C E F A : Type 0} where
  unfoldable pub try : Exec C E A → Exec C F (Result E A)
  try m w = let (r, w') = m w in (caught r, w')

  -- `.await.map_err(...)?`
  unfoldable pub convert : (E → F) → Exec C E A → Exec C F A
  convert g m w = let (r, w') = m w in (map_err g r, w')

module _ {C E A B : Type 0} where
  abbrev pub continue : Result E A → (A → Exec C E B) → Exec C E B
  continue (ok a) f w = f a w
  continue (err e) f w = (err e, w)
  continue panic f w = (panic, w)

  infixl 5 ◌>>=◌
  unfoldable pub ◌>>=◌ : Exec C E A → (A → Exec C E B) → Exec C E B
  unfolding pure raise lift
  ◌>>=◌ m f w = let (r, w') = m w in continue r f w'

  infixl 5 ◌>>◌
  unfoldable pub ◌>>◌ : Exec C E A → Exec C E B → Exec C E B
  unfolding ◌>>=◌
  m >> k = m >>= λ _. k

module _ {C : Type 0} where
  unfoldable pub send : Server C → (r : Request C) → Exec C KubeError (Response r)
  send server r w = (server.answer w.history r, record w { history = r ∷ w.history })

  unfoldable pub clock : {E : Type 0} → Server C → Exec C E Time
  clock server w = (ok (server.now w.history), w)

  -- A call of the remote watcher manager.
  unfoldable pub manage :
      {E : Type 0} → (RemoteWatcherManager → RemoteWatcherManager) → Exec C E (Unit {0})
  manage f w = (ok tt, record w { manager = f w.manager })

-- Inversion of a run that succeeds: the first call succeeded, and the rest ran from where it ended.
pub >>=-eq-ok :
    {C E A B : Type 0} (m : Exec C E A) (f : A → Exec C E B) (w : World C) {b : B}
    → ((m >>= f) w).0 ≡ ok b
    → (a : A) × ((m w).0 ≡ ok a) × ((m >>= f) w ≡ f a (m w).1) × ((f a (m w).1).0 ≡ ok b)
unfolding ◌>>=◌
>>=-eq-ok m f w h = elim (Result-cases (m w).0) [
  | is_ok a e ↦ (a, e, rw e, rw e at h)
  | is_error x e ↦ cc (rw e at h)
  | is_panic e ↦ cc (rw e at h)
]
