-- ===== src/Controller/Moves.antt =====
-- What a reconciliation of src/controller.rs is meant to do, as one move of an abstract controller: the
-- writes that it sends are those of the move that the sync, its target and its source call for.
pub mod Refinement
pub mod Writes
use sinker.Prelude.{
  ◌≡◌, refl, sym, ap, ◌∙◌, String, Bool, true, false, not, ◌&&◌, ◌||◌, Option, none, some, List, [],
  ◌∷◌, ◌++◌, retain, nat_eq, Bool-cases, inl, inr, if◌then◌else◌,
}
use sinker.Result.{
  Result, ok, err, panic, map_err, ◌>>=◌ as ◌>>>=◌, is_ok, is_error, is_panic, Result-cases, is_err,
}
use sinker.Error.{Error, kube_error, resource_not_found_error}
use sinker.Kube.{KubeError, api, other, DynamicObject, Action, await_change}
use sinker.Kube.Libraries.{Libraries}
use sinker.Resources.{ResourceSync, has_disable_target_deletion_option_enabled}
use sinker.RemoteWatcherManager.{RemoteWatcherManager}
use sinker.Server.{
  Request, Response, get_secret, apiserver_version, pinned_kind, get, delete, apply,
  patch_finalizers, get_status, patch_status, list_syncs, Propagation, Server, World, NamespacedApi,
  ParentApi,
}
use sinker.Exec.{Exec, pure, send, manage, try, lift, raise, convert, ◌>>=◌, ◌>>◌}
use sinker.Exec.Keeps.{Keeps, Keeps-lift, Keeps-continue, Keeps-after_send, keeps_rules}
use sinker.ResourceExtensions.{
  Connections, is_some, has_been_deleted, has_target_finalizer,
  start_remote_watches_if_not_watching, stop_remote_watches_if_watching, parent_api,
}
use sinker.ResourceExtensions.Finalizers.{without_ours, with_ours}
use sinker.Controller.{sync_group}
use sinker.Controller.Reconcile.{
  delete_type, target_for, own_local_target, delete_target, reconcile_deleted_resource,
  add_target_finalizer, reconcile_normally, reconcile_with,
  stop_watches_and_remove_resource_sync_finalizers,
}
use sinker.Controller.Deletion.{release_lem}
use sinker.Controller.Moves.Writes.{Written, Written-manage, Written-after}

-- The moves: none, adding our finalizer, giving it up, writing the target, and deleting it.
pub data Move : Type 0 where
  rest guard let_go : Move
  write : DynamicObject → Move
  remove : Propagation → Move

-- The move for a target that is to go away, by the answer to its read.
abbrev on_target : Result KubeError DynamicObject → Move
on_target (ok t) =
    if is_some t.metadata.deletion_timestamp
    then rest
    else remove (delete_type t.metadata.finalizers)
on_target (err (api code _)) = if nat_eq code 404 then let_go else rest
on_target (err (other _)) = rest
on_target panic = rest

-- The move for a target that is to be a copy, by the object that it is to be.
abbrev on_source : Result Error DynamicObject → Move
on_source (ok t) = write t
on_source (err _) = rest
on_source panic = rest

-- By whether the sync is deleted, has our finalizer, and leaves its target.
abbrev pub move :
    Bool → Bool → Bool → Result KubeError DynamicObject → Result Error DynamicObject → Move
move true false leaves found made = rest
move true true true found made = let_go
move true true false found made = on_target found
move false false leaves found made = guard
move false true leaves found made = on_source made

module _ {C K G : Type 0} (lib : Libraries) (net : Connections C K G) (server : Server C)
    (sync : ResourceSync) (name : String) (parent : ParentApi C)
    (source target : NamespacedApi C) where
  abbrev target_name : String
  target_name = sync.spec.target.resource_ref.name

  abbrev source_name : String
  source_name = sync.spec.source.resource_ref.name

  -- The object that the target is to be, by the answer to the read of the source.
  abbrev pub wanted : List (Request C) → Result Error DynamicObject
  wanted history =
      map_err (resource_not_found_error source_name source.ar.kind)
        (server.answer history (get source source_name))
      >>>= target_for lib sync target
      >>>= own_local_target sync name sync.spec.target.cluster

  -- The move that is called for where those requests have been sent.
  abbrev pub called_for : List (Request C) → Move
  called_for history =
      move (has_been_deleted sync) (has_target_finalizer sync)
        (has_disable_target_deletion_option_enabled sync)
        (server.answer history (get target target_name)) (wanted history)

  abbrev pub requests_of : Move → List (Request C)
  requests_of rest = []
  requests_of guard = patch_finalizers parent name (with_ours sync) ∷ []
  requests_of let_go = patch_finalizers parent name (without_ours sync) ∷ []
  requests_of (write object) = apply target target_name sync_group true object ∷ []
  requests_of (remove propagation) = delete target target_name propagation ∷ []

  start-Written :
      {E : Type 0} {sent : List (Request C)}
      → Keeps {C = C} {E = E} (Written sent) (start_remote_watches_if_not_watching lib sync)
  unfolding start_remote_watches_if_not_watching
  start-Written = search (keeps_rules, Written-manage)

  await-Written :
      {sent : List (Request C)}
      → Keeps {C = C} {E = Error}
          (Written sent)
          (start_remote_watches_if_not_watching lib sync >> pure await_change)
  await-Written = search (keeps_rules, start-Written)

  release-Written :
      {sent : List (Request C)} (w : World C)
      → Written sent w
      → Written
          (requests_of let_go ++ sent)
          (stop_watches_and_remove_resource_sync_finalizers lib net server sync name parent w).1
  release-Written w h =
      rw release_lem
        (record { are = ap (λ rs. patch_finalizers parent name (without_ours sync) ∷ rs) h.are })

  delete_target-Written :
      {sent : List (Request C)} (found : Result KubeError DynamicObject) (w : World C)
      → Written sent w
      → Written
          (requests_of (on_target found) ++ sent)
          (delete_target lib net server sync name target parent found w).1
  unfolding delete_target ◌>>◌
  delete_target-Written (ok t) w h = elim (Bool-cases (is_some t.metadata.deletion_timestamp)) [
    | inl deleting ↦ rw (deleting, delete_target) (await-Written.at w h)
    | inr there ↦
        rw (there, delete_target)
          (Written-after server (delete target target_name (delete_type t.metadata.finalizers)) _ w
            refl (λ _. await-Written) h)
  ]
  delete_target-Written (err (api code text)) w h = elim (Bool-cases (nat_eq code 404)) [
    | inl gone ↦ rw (gone, delete_target) (release-Written w h)
    | inr there ↦ rw (there, delete_target) (unfold raise in record { are = h.are })
  ]
  delete_target-Written (err (other text)) w h = unfold raise in record { are = h.are }
  delete_target-Written panic w h = unfold lift in record { are = h.are }

  guard-Written :
      {sent : List (Request C)} (w : World C)
      → Written sent w
      → Written
          (requests_of guard ++ sent)
          (add_target_finalizer lib net server sync name parent w).1
  unfolding add_target_finalizer ◌>>◌
  guard-Written w h =
      Written-after server (patch_finalizers parent name (with_ours sync)) _ w refl
        (λ _. Keeps-lift _) h

  normally-Written :
      {sent : List (Request C)} (w : World C)
      → Written sent w
      → Written
          (requests_of (on_source (wanted w.history)) ++ sent)
          (reconcile_normally lib net server sync name source target w).1
  unfolding reconcile_normally ◌>>=◌ ◌>>◌ convert send lift
  normally-Written w h = elim (Result-cases (server.answer w.history (get source source_name))) [
    | is_ok found read ↦ elim (Result-cases (target_for lib sync target found)) [
      | is_ok copied made ↦
          elim (Result-cases (own_local_target sync name sync.spec.target.cluster copied)) [
            | is_ok object owned ↦
                rw (read, made, owned)
                  (Written-after server (apply target target_name sync_group true object) _ _ refl
                    (λ _. await-Written) (record { are = h.are }))
            | is_error x e ↦ rw (read, made, e) (record { are = h.are })
            | is_panic e ↦ rw (read, made, e) (record { are = h.are })
          ]
      | is_error x e ↦ rw (read, e) (record { are = h.are })
      | is_panic e ↦ rw (read, e) (record { are = h.are })
    ]
    | is_error x e ↦ rw e (record { are = h.are })
    | is_panic e ↦ rw e (record { are = h.are })
  ]

  deleted-Written :
      {sent : List (Request C)} (w : World C)
      → Written sent w
      → Written
          (requests_of (
              move true
                (has_target_finalizer sync)
                (has_disable_target_deletion_option_enabled sync)
                (server.answer w.history (get target target_name))
                (wanted w.history))
            ++ sent)
          (reconcile_deleted_resource lib net server sync name target parent w).1
  unfolding reconcile_deleted_resource ◌>>=◌ try send
  deleted-Written w h = elim (Bool-cases (has_target_finalizer sync)) [
    | inr gone ↦ rw (gone, reconcile_deleted_resource) (record { are = h.are })
    | inl ours ↦ elim (Bool-cases (has_disable_target_deletion_option_enabled sync)) [
      | inl leaves ↦ rw (ours, leaves, reconcile_deleted_resource) (release-Written w h)
      | inr deletes ↦ elim (Result-cases (server.answer w.history (get target target_name))) [
        | is_ok t e ↦
            rw (ours, deletes, e, reconcile_deleted_resource)
              (delete_target-Written (ok t) _ (record { are = h.are }))
        | is_error x e ↦
            rw (ours, deletes, e, reconcile_deleted_resource)
              (delete_target-Written (err x) _ (record { are = h.are }))
        | is_panic e ↦ rw (ours, deletes, e, reconcile_deleted_resource) (record { are = h.are })
      ]
    ]
  ]

  pub reconcile_with-Written :
      {sent : List (Request C)} (w : World C)
      → Written sent w
      → Written
          (requests_of (called_for w.history) ++ sent)
          (reconcile_with lib net server sync name parent (ok (source, target)) w).1
  unfolding reconcile_with
  reconcile_with-Written w h = elim (Bool-cases (has_been_deleted sync)) [
    | inl deleted ↦ rw (deleted, reconcile_with) (deleted-Written w h)
    | inr active ↦ elim (Bool-cases (has_target_finalizer sync)) [
      | inr bare ↦ rw (active, bare, reconcile_with) (guard-Written w h)
      | inl ours ↦ rw (active, ours, reconcile_with) (normally-Written w h)
    ]
  ]
