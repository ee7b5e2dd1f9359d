-- ===== src/Controller/Apart.antt =====
-- The watches of other ResourceSyncs through a reconciliation of src/controller.rs.
use sinker.Prelude.{◌≡◌, ap, sym, ◌∙◌, ℕ, List, [], ◌∷◌, ◌++◌}
use sinker.Kube.Libraries.{Libraries}
use sinker.Resources.{ResourceSync}
use sinker.RemoteWatcherManager.{RemoteWatcherKey, RemoteWatcherManager}
use sinker.RemoteWatcherManager.Interleaved.{
  Call, start, stop, call, calls, AllOf, calls-snoc, AllOf-snoc,
}
use sinker.RemoteWatcherManager.Undisturbed.{Running, Running-start, Running-stop}
use sinker.Server.{Server}
use sinker.Exec.Keeps.{Keeps}
use sinker.ResourceExtensions.{Connections}
use sinker.Controller.Reconcile.{reconcile}
use sinker.Controller.Managing.{Manages, reconcile-Manages}

-- The manager has come from another by calls for one ResourceSync.
pub record Own (lib : Libraries) (sync : ResourceSync) (m₀ m : RemoteWatcherManager) : Type 0 where
  pub made : List Call
  pub own : AllOf (lib.object_ref sync.metadata) made
  pub reached : m ≡ calls made m₀

module _ (lib : Libraries) (sync : ResourceSync) (m₀ : RemoteWatcherManager) where
  Own-call :
      (c : Call) (m : RemoteWatcherManager)
      → AllOf (lib.object_ref sync.metadata) (c ∷ [])
      → Own lib sync m₀ m
      → Own lib sync m₀ (call c m)
  Own-call c m (e, _) h = record {
    made = h.made ++ c ∷ [];
    own = AllOf-snoc (lib.object_ref sync.metadata) h.made c h.own e;
    reached = ap (call c) h.reached ∙ sym (calls-snoc h.made c m₀);
  }

module _ {C K G : Type 0} (lib : Libraries) (net : Connections C K G) (server : Server C)
    (sync : ResourceSync) where
  -- Whatever the servers answer, a watch of another ResourceSync that runs goes on running under the
  -- same task through a reconciliation.
  pub reconcile-Running :
      (k : RemoteWatcherKey) (task : ℕ) (c : C)
      → ¬ (lib.object_ref sync.metadata ≡ k.resource_sync)
      → Keeps (Manages (Running k task)) (reconcile lib net server sync c)
  reconcile-Running k task c other =
      reconcile-Manages lib net server sync
        (record {
          started = λ key m own. Running-start k key task m (λ e. other (sym own ∙ e));
          stopped = λ key m own. Running-stop k key task m (λ e. other (sym own ∙ e));
        })
        c

  -- What a reconciliation does to the watches are calls of the manager for its own ResourceSync.
  pub reconcile-Own :
      (m₀ : RemoteWatcherManager) (c : C)
      → Keeps (Manages (Own lib sync m₀)) (reconcile lib net server sync c)
  unfolding call
  reconcile-Own m₀ c =
      reconcile-Manages lib net server sync
        (record {
          started = λ key m own. Own-call lib sync m₀ (start key) m (own, tt);
          stopped = λ key m own. Own-call lib sync m₀ (stop key) m (own, tt);
        })
        c
