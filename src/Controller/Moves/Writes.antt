-- ===== src/Controller/Moves/Writes.antt =====
-- The requests of src/controller.rs that change an object, and effects that send no further one.
use sinker.Prelude.{◌≡◌, ap, Bool, true, false, List, ◌∷◌, retain}
use sinker.Error.{Error, kube_error}
use sinker.RemoteWatcherManager.{RemoteWatcherManager}
use sinker.Server.{Request, Response, delete, apply, patch_finalizers, Server, World}
use sinker.Exec.{Exec, send, manage, convert, ◌>>=◌}
use sinker.Exec.Keeps.{Keeps, Keeps-after_send}

module _ {C : Type 0} where
  -- The requests that change an object other than the status.
  abbrev pub is_write : Request C → Bool
  is_write (delete _ _ _) = true
  is_write (apply _ _ _ _ _) = true
  is_write (patch_finalizers _ _ _) = true
  is_write _ = false

  abbrev pub writes : List (Request C) → List (Request C)
  writes = retain is_write

  -- The writes are those.
  pub record Written (sent : List (Request C)) (w : World C) : Type 0 where
    pub are : writes w.history ≡ sent

  pub Written-send :
      {sent : List (Request C)} (server : Server C) (r : Request C)
      → is_write r ≡ false
      → Keeps (Written sent) (send server r)
  unfolding send
  Written-send server r e = record { at = λ w h. record { are = rw e h.are } }

  pub Written-manage :
      {E : Type 0} {sent : List (Request C)} (f : RemoteWatcherManager → RemoteWatcherManager)
      → Keeps {E = E} (Written sent) (manage f)
  unfolding manage
  Written-manage f = record { at = λ w h. record { are = h.are } }

-- A write, and what follows it and writes nothing.
pub Written-after :
    {C B : Type 0} {sent : List (Request C)} (server : Server C) (r : Request C)
    (rest_of : Response r → Exec C Error B) (w : World C)
    → is_write r ≡ true
    → ((a : Response r) → Keeps (Written (r ∷ sent)) (rest_of a))
    → Written sent w
    → Written (r ∷ sent) ((convert kube_error (send server r) >>= rest_of) w).1
Written-after server r rest_of w e after h =
    Keeps-after_send {P = Written (r ∷ _)} server kube_error r rest_of w after
      (record { are = rw e (ap (λ rs. r ∷ rs) h.are) })
