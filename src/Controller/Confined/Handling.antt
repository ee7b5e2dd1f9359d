-- ===== src/Controller/Confined/Handling.antt =====
-- The handlers of src/controller.rs stay within what the ResourceSync names.
use sinker.Prelude.{◌≡◌, refl, inl, inr, String, true, not, Option, none, some, List}
use sinker.Result.{Result, ok, err, panic}
use sinker.Error.{Error, name_required, namespace_required}
use sinker.Kube.{Action, KubeError, api, other, DynamicObject}
use sinker.Kube.Libraries.{Libraries}
use sinker.Resources.{ResourceSync, ResourceSyncStatus}
use sinker.Server.{
  get, delete, apply, patch_finalizers, get_status, patch_status, Propagation, Server,
  NamespacedApi, ParentApi,
}
use sinker.RemoteWatcherManager.{RemoteWatcherManager}
use sinker.Exec.{Exec, send, manage, clock, lift, try, ◌>>=◌, ◌>>◌}
use sinker.Exec.Keeps.{Keeps, Keeps-if, keeps_rules}
use sinker.Exec.Ensures.{
  Yields, Yields-ok_or, Ensures-lift, Ensures-bind, Ensures-try, Ensures-Keeps, Keeps-Ensures,
}
use sinker.ResourceExtensions.{
  Connections, has_been_deleted, has_target_finalizer, parent_api,
  start_remote_watches_if_not_watching, stop_remote_watches_if_watching,
}
use sinker.Controller.{sync_group, reconcile_status}
use sinker.Controller.Reconcile.{
  stop_watches_and_remove_resource_sync_finalizers, delete_target, reconcile_deleted_resource,
  add_target_finalizer, reconcile_normally, reconcile_with, reconcile_helper, live_status,
  write_status, reconcile,
}
use sinker.Controller.Confined.{Confined, Own, Leads, Resolved}
use sinker.Controller.Confined.Resolving.{sends, resolves-Confined}

module _ {C K G : Type 0} (lib : Libraries) (net : Connections C K G) (server : Server C)
    (sync : ResourceSync) (client : C) where
  manages :
      {E : Type 0} (f : RemoteWatcherManager → RemoteWatcherManager)
      → Keeps (Confined lib net server sync client) (manage {E = E} f)
  unfolding manage
  manages f = record { at = λ w h. record { within = h.within } }

  starts :
      Keeps
        (Confined lib net server sync client)
        (start_remote_watches_if_not_watching lib {E = Error} sync)
  unfolding start_remote_watches_if_not_watching
  starts = search (keeps_rules, manages)

  stops :
      Keeps
        (Confined lib net server sync client)
        (stop_remote_watches_if_watching lib {E = Error} sync)
  unfolding stop_remote_watches_if_watching
  stops = search (keeps_rules, manages)

  module _ (name : String) (parent : ParentApi C) (own : Own sync client parent name) where
    patches :
        (finalizers : List String)
        → Keeps
            (Confined lib net server sync client)
            (send server (patch_finalizers parent name finalizers))
    patches finalizers =
        sends lib net server sync client (patch_finalizers parent name finalizers) own

    stop_and_remove-Confined :
        Keeps
          (Confined lib net server sync client)
          (stop_watches_and_remove_resource_sync_finalizers lib net server sync name parent)
    unfolding stop_watches_and_remove_resource_sync_finalizers
    stop_and_remove-Confined = search (keeps_rules, stops, patches) depth 30

    add_target_finalizer-Confined :
        Keeps
          (Confined lib net server sync client)
          (add_target_finalizer lib net server sync name parent)
    unfolding add_target_finalizer
    add_target_finalizer-Confined = search (keeps_rules, patches) depth 30

    module _ (target : NamespacedApi C)
        (at : Leads lib net server sync client sync.spec.target target) where
      reads :
          Keeps
            (Confined lib net server sync client)
            (send server (get target sync.spec.target.resource_ref.name))
      reads =
          sends lib net server sync client (get target sync.spec.target.resource_ref.name)
            (inr (at, refl))

      deletes :
          (propagation : Propagation)
          → Keeps
              (Confined lib net server sync client)
              (send server (delete target sync.spec.target.resource_ref.name propagation))
      deletes propagation =
          sends lib net server sync client
            (delete target sync.spec.target.resource_ref.name propagation) (at, refl)

      delete_target-Confined :
          (found : Result KubeError DynamicObject)
          → Keeps
              (Confined lib net server sync client)
              (delete_target lib net server sync name target parent found)
      unfolding delete_target
      delete_target-Confined (ok found) = search (keeps_rules, starts, deletes) depth 30
      delete_target-Confined (err (api code text)) =
          search (keeps_rules, stop_and_remove-Confined) depth 30
      delete_target-Confined (err (other text)) = search keeps_rules
      delete_target-Confined panic = search keeps_rules

      reconcile_deleted-Confined :
          Keeps
            (Confined lib net server sync client)
            (reconcile_deleted_resource lib net server sync name target parent)
      unfolding reconcile_deleted_resource
      reconcile_deleted-Confined =
          search (keeps_rules, stop_and_remove-Confined, reads, delete_target-Confined) depth 30

      applies :
          (o : DynamicObject)
          → Keeps
              (Confined lib net server sync client)
              (send server (apply target sync.spec.target.resource_ref.name sync_group true o))
      applies o =
          sends lib net server sync client
            (apply target sync.spec.target.resource_ref.name sync_group true o)
            ((at, refl), refl, refl)

      module _ (source : NamespacedApi C)
          (from : Leads lib net server sync client sync.spec.source source) where
        reads_source :
            Keeps
              (Confined lib net server sync client)
              (send server (get source sync.spec.source.resource_ref.name))
        reads_source =
            sends lib net server sync client (get source sync.spec.source.resource_ref.name)
              (inl (from, refl))

        reconcile_normally-Confined :
            Keeps
              (Confined lib net server sync client)
              (reconcile_normally lib net server sync name source target)
        unfolding reconcile_normally
        reconcile_normally-Confined = search (keeps_rules, starts, applies, reads_source) depth 30

    reconcile_with-Confined :
        (apis : Result Error (NamespacedApi C × NamespacedApi C))
        → Yields (Resolved lib net server sync client) apis
        → Keeps
            (Confined lib net server sync client)
            (reconcile_with lib net server sync name parent apis)
    unfolding reconcile_with
    reconcile_with-Confined (ok (source, target)) (from, at) =
        Keeps-if (has_been_deleted sync) _ _ (λ _. reconcile_deleted-Confined target at)
          (λ _.
            Keeps-if (not (has_target_finalizer sync)) _ _ (λ _. add_target_finalizer-Confined)
              (λ _. reconcile_normally-Confined target at source from))
    reconcile_with-Confined (err e) y = search (keeps_rules, stop_and_remove-Confined)
    reconcile_with-Confined panic y = search keeps_rules

    live_status-Confined :
        (result : Result Error Action)
        → Keeps
            (Confined lib net server sync client)
            (live_status lib net server sync name parent result)
    unfolding live_status
    live_status-Confined result =
        search (keeps_rules, sends lib net server sync client (get_status parent name) own)

    write_status-Confined :
        (status : Option ResourceSyncStatus)
        → Keeps
            (Confined lib net server sync client)
            (write_status lib net server parent name status)
    write_status-Confined none = search keeps_rules
    write_status-Confined (some status) =
        search (keeps_rules, sends lib net server sync client (patch_status parent name status) own)

  reconcile_helper-Confined :
      (name : String) (parent : ParentApi C)
      → Own sync client parent name
      → Keeps
          (Confined lib net server sync client)
          (reconcile_helper lib net server sync client name parent)
  unfolding reconcile_helper
  reconcile_helper-Confined name parent own = Ensures-Keeps _ (
      Ensures-bind (λ ns. sync.metadata.namespace ≡ some ns) _ _
        (Ensures-lift _ (Yields-ok_or sync.metadata.namespace namespace_required))
        λ ns here.
          Ensures-bind (Yields (Resolved lib net server sync client)) _ _
            (Ensures-try _ (resolves-Confined lib net server sync client ns here))
            λ apis y. Keeps-Ensures _ (reconcile_with-Confined name parent own apis y))

  -- What a reconciliation does once it has the name.
  module _ (name : String) (is_name : sync.metadata.name ≡ some name) where
    abbrev parent : ParentApi C
    parent = parent_api sync client

    abbrev named_reconcile : Exec C Error Action
    named_reconcile = do
      result ← try (reconcile_helper lib net server sync client name parent)
      live ← live_status lib net server sync name parent result
      now ← clock server
      write_status lib net server parent name (reconcile_status lib now sync live result)
      lift result

    helped :
        Keeps
          (Confined lib net server sync client)
          (reconcile_helper lib net server sync client name parent)
    helped = reconcile_helper-Confined name parent (refl, is_name)

    read :
        (result : Result Error Action)
        → Keeps
            (Confined lib net server sync client)
            (live_status lib net server sync name parent result)
    read = live_status-Confined name parent (refl, is_name)

    reported :
        (status : Option ResourceSyncStatus)
        → Keeps
            (Confined lib net server sync client)
            (write_status lib net server parent name status)
    reported = write_status-Confined name parent (refl, is_name)

    named : Keeps (Confined lib net server sync client) named_reconcile
    named = search (keeps_rules, helped, read, reported) depth 40

  -- Whatever the servers answer, a reconciliation stays within what the ResourceSync names. It reads the
  -- kubeconfig Secrets of its two references with the controller's own client, each in the namespace
  -- that the reference gives or by default in the ResourceSync's. It reads the source and the target,
  -- deletes the target, and applies the target by force under Sinker's field manager, each by the name
  -- and through the API of its reference. That API is of the kind to which the server's discovery leads
  -- from the reference's type, and has the controller's own client, or the one of the kubeconfig at the
  -- reference's key of such a Secret. It is in the ResourceSync's namespace where the reference has no
  -- cluster, else in the namespace that the cluster reference gives or in the client's default one, and
  -- in none for a kind that has none. Finalizers and status are read and written of the ResourceSync
  -- itself alone.
  pub reconcile-Confined :
      Keeps (Confined lib net server sync client) (reconcile lib net server sync client)
  unfolding reconcile
  reconcile-Confined = Ensures-Keeps _ (
      Ensures-bind (λ name. sync.metadata.name ≡ some name) _ _
        (Ensures-lift _ (Yields-ok_or sync.metadata.name name_required))
        λ name is_name. Keeps-Ensures _ (named name is_name))
