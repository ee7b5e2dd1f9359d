-- ===== src/Controller/Managed.antt =====
-- The watcher manager through a reconciliation of src/controller.rs.
use sinker.Kube.Libraries.{Libraries}
use sinker.Resources.{ResourceSync}
use sinker.RemoteWatcherManager.WellFormed.{
  IsWellFormed, add_if_not_exists-IsWellFormed, stop_and_remove_if_exists-IsWellFormed,
}
use sinker.Server.{Server, World}
use sinker.Exec.Keeps.{Keeps}
use sinker.ResourceExtensions.{Connections}
use sinker.Controller.Reconcile.{reconcile}
use sinker.Controller.Managing.{Manages, reconcile-Manages}

abbrev pub Managed : {C : Type 0} → World C → Type 0
Managed = Manages IsWellFormed

module _ {C K G : Type 0} (lib : Libraries) (net : Connections C K G) (server : Server C)
    (sync : ResourceSync) where
  -- However it ends, a reconciliation keeps the watcher manager well formed.
  pub reconcile-Managed : (c : C) → Keeps Managed (reconcile lib net server sync c)
  reconcile-Managed = reconcile-Manages lib net server sync (record {
    started = λ key m _. add_if_not_exists-IsWellFormed key m;
    stopped = λ key m _. stop_and_remove_if_exists-IsWellFormed key m;
  })
