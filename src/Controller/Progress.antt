-- ===== src/Controller/Progress.antt =====
-- How far two reconciliations of src/controller.rs bring a ResourceSync that has just been made.
use sinker.Prelude.{◌≡◌, String, false, Option, some, List, ◌++◌}
use sinker.Result.{ok}
use sinker.Kube.{DynamicObject}
use sinker.Kube.Libraries.{Libraries}
use sinker.Resources.{ResourceSync}
use sinker.Server.{Request, Server, World, NamespacedApi, ParentApi}
use sinker.ResourceExtensions.{Connections, has_been_deleted, parent_api}
use sinker.ResourceExtensions.Finalizers.{patched, with_ours}
use sinker.Controller.Reconcile.{source_and_target_apis, reconcile}
use sinker.Controller.Moves.Writes.{writes}
use sinker.Controller.Lifecycle.{Life}

-- A ResourceSync with our finalizer added, and one that has just been made, with what is in the place of
-- its target.
abbrev pub guarded : ResourceSync → ResourceSync
guarded sync = patched (with_ours sync) sync

abbrev pub fresh : ResourceSync → Option DynamicObject → Life
fresh sync there = record { sync = sync; gone = false; target = there; written = false }

module _ {C K G : Type 0} (lib : Libraries) (net : Connections C K G) (server : Server C) (c : C)
    (name ns : String) where
  -- The writes of a reconciliation of an active sync, by whether it has our finalizer.
  module _ (sync : ResourceSync) (source target : NamespacedApi C) (w : World C)
      (sent : List (Request C)) (named : sync.metadata.name ≡ some name)
      (placed : sync.metadata.namespace ≡ some ns)
      (resolved : (source_and_target_apis lib net server sync c ns w).0 ≡ ok (source, target))
      (active : has_been_deleted sync ≡ false)
      (written : writes (reconcile lib net server sync c w).1.history
        ≡ sent ++ writes w.history) where
    abbrev before : List (Request C)
    before = (source_and_target_apis lib net server sync c ns w).1.history

    abbrev parent : ParentApi C
    parent = parent_api sync c
