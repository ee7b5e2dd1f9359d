-- ===== src/Controller/Lifecycle.antt =====
-- The life of a ResourceSync and its target under src/controller.rs, as a step relation: reconciliations
-- of the sync, and some of what users and other clients do in between. A reconciliation is one step here: it sees the sync and the target as they are, and the write
-- that it sends is done when it ends. One whose write is refused changes nothing, so it is no step. The
-- reference to the target leads to one object throughout. A sync that asks to leave its target, one that
-- is deleted by force while an end cannot be resolved, and others who take our finalizer away are no part
-- of it: each may leave a target behind.
use mathlib.Core.List.{append_cancel_right}
use sinker.Prelude.{
  ◌≡◌, refl, sym, ap, ◌∙◌, String, Bool, true, false, Option, none, some, List, [], ◌∷◌, ◌++◌, ◌&&◌,
  Bool-cases, inl, inr, subst,
}
use sinker.Result.{Result, ok, err, panic}
use sinker.Error.{Error}
use sinker.Kube.{KubeError, api, DynamicObject}
use sinker.Kube.Libraries.{Libraries}
use sinker.Resources.{
  ResourceSync, has_force_delete_option_enabled, has_disable_target_deletion_option_enabled,
}
use sinker.Server.{Request, get, apply, patch_finalizers, Server, World, NamespacedApi, ParentApi}
use sinker.ResourceExtensions.{
  Connections, is_some, has_been_deleted, has_target_finalizer, parent_api,
}
use sinker.ResourceExtensions.Finalizers.{patched, pushed}
use sinker.Controller.Reconcile.{source_and_target_apis, reconcile}
use sinker.Controller.Moves.{move, requests_of, wanted}
use sinker.Controller.Moves.Writes.{writes}
use sinker.Controller.Moves.Refinement.{reconcile-called_for, reconcile-unresolved}

-- The sync, whether it is gone, the target object, and whether the controller has written that object.
pub record Life : Type 0 where
  pub sync : ResourceSync
  pub gone : Bool
  pub target : Option DynamicObject
  pub written : Bool

-- What a read of the target answers.
abbrev view : Option DynamicObject → Result KubeError DynamicObject
view none = err (api 404 "not found")
view (some t) = ok t

-- What a write does. An object whose deletion is asked for goes later.
abbrev perform : {C : Type 0} → Request C → Life → Life
perform (patch_finalizers _ _ finalizers) s = record s { sync = patched finalizers s.sync }
perform (apply _ _ _ _ object) s = record s { target = some object; written = true }
perform _ s = s

abbrev pub perform_all : {C : Type 0} → List (Request C) → Life → Life
perform_all [] s = s
perform_all (r ∷ rs) s = perform r (perform_all rs s)

module _ {C K G : Type 0} (lib : Libraries) (net : Connections C K G) (server : Server C) where
  -- The states that a sync which does not ask to leave its target may come to.
  pub data Reachable : Life → Type 0 where
    -- A sync is made, whether or not an object is there that the controller has not written.
    begun :
        (sync : ResourceSync) (target : Option DynamicObject)
        → has_disable_target_deletion_option_enabled sync ≡ false
        → Reachable (record { sync = sync; gone = false; target = target; written = false })
    -- It is reconciled.
    reconciled :
        {s : Life} (c : C) (name ns : String) (source target : NamespacedApi C) (w : World C)
        (sent : List (Request C))
        → Reachable s
        → s.gone ≡ false
        → s.sync.metadata.name ≡ some name
        → s.sync.metadata.namespace ≡ some ns
        → (source_and_target_apis lib net server s.sync c ns w).0 ≡ ok (source, target)
        → server.answer
            (source_and_target_apis lib net server s.sync c ns w).1.history
            (get target s.sync.spec.target.resource_ref.name)
          ≡ view s.target
        → writes (reconcile lib net server s.sync c w).1.history ≡ sent ++ writes w.history
        → Reachable (perform_all sent s)
    -- It is reconciled while its source or its target cannot be resolved, and is not deleted by force.
    unresolved :
        {s : Life} (c : C) (name ns : String) (e : Error) (w : World C) (sent : List (Request C))
        → Reachable s
        → s.sync.metadata.name ≡ some name
        → s.sync.metadata.namespace ≡ some ns
        → (source_and_target_apis lib net server s.sync c ns w).0 ≡ err e
        → (has_force_delete_option_enabled s.sync && has_been_deleted s.sync) ≡ false
        → writes (reconcile lib net server s.sync c w).1.history ≡ sent ++ writes w.history
        → Reachable (perform_all sent s)
    -- A user edits it or marks it for deletion; our finalizer and the target that it names stay.
    edited :
        {s : Life} (sync : ResourceSync)
        → Reachable s
        → sync.spec.target ≡ s.sync.spec.target
        → has_target_finalizer sync ≡ has_target_finalizer s.sync
        → has_disable_target_deletion_option_enabled sync ≡ false
        → Reachable (record s { sync = sync })
    -- A sync that is marked for deletion and has no finalizer of ours may go.
    finished :
        {s : Life}
        → Reachable s
        → has_been_deleted s.sync ≡ true
        → has_target_finalizer s.sync ≡ false
        → Reachable (record s { gone = true })
    -- Others change the target object, remove it, or make another.
    changed :
        {s : Life} (before after : DynamicObject)
        → Reachable s
        → s.target ≡ some before
        → Reachable (record s { target = some after })
    vanished : {s : Life} → Reachable s → Reachable (record s { target = none; written = false })
    made :
        {s : Life} (object : DynamicObject)
        → Reachable s
        → s.target ≡ none
        → Reachable (record s { target = some object; written = false })

-- An object that the controller has written is there, and has a sync with our finalizer; a sync that is
-- gone has none.
record Guarded (s : Life) : Type 0 where
  pub guarded : s.written ≡ true → has_target_finalizer s.sync ≡ true
  pub there : s.written ≡ true → (t : DynamicObject) × (s.target ≡ some t)
  pub kept : s.gone ≡ true → has_target_finalizer s.sync ≡ false
  pub deletes : has_disable_target_deletion_option_enabled s.sync ≡ false

module _ {C K G : Type 0} (lib : Libraries) (net : Connections C K G) (server : Server C)
    (name : String) (parent : ParentApi C) (source target : NamespacedApi C) where
  module _ (s : Life) (here : s.gone ≡ false) (g : Guarded s) where
    -- Each move that is called for keeps the invariant.
    move-Guarded :
        (deleted ours : Bool) (seen : Option DynamicObject) (wanted : Result Error DynamicObject)
        → has_target_finalizer s.sync ≡ ours
        → s.target ≡ seen
        → Guarded (
            perform_all
              (requests_of lib net server s.sync name parent source target
                (move deleted ours false (view seen) wanted))
              s)
    unfolding has_target_finalizer has_disable_target_deletion_option_enabled
    move-Guarded true false seen wanted bare e = g
    move-Guarded true true none wanted ours absent = record {
      guarded = λ w. let (t, e) = g.there w in cc (e, absent);
      there = g.there;
      kept = λ gone. cc (gone, here);
      deletes = g.deletes;
    }
    move-Guarded true true (some t) wanted ours e =
        elim (Bool-cases (is_some t.metadata.deletion_timestamp)) [
          | inl leaving ↦ rw leaving g
          | inr there ↦ rw there g
        ]
    move-Guarded false false seen wanted bare e = record {
      guarded = λ _. pushed s.sync;
      there = g.there;
      kept = λ gone. cc (gone, here);
      deletes = g.deletes;
    }
    move-Guarded false true seen (ok object) ours e = record {
      guarded = λ _. ours;
      there = λ _. (object, refl);
      kept = λ gone. cc (gone, here);
      deletes = g.deletes;
    }
    move-Guarded false true seen (err x) ours e = g
    move-Guarded false true seen panic ours e = g

module _ {C K G : Type 0} (lib : Libraries) (net : Connections C K G) (server : Server C) where
  Reachable-Guarded : {s : Life} → Reachable lib net server s → Guarded s
  Reachable-Guarded (begun sync target enabled) = record {
    guarded = λ e. cc e;
    there = λ e. cc e;
    kept = λ e. cc e;
    deletes = enabled;
  }
  Reachable-Guarded
        (reconciled {s} c name ns source target w sent reached here named placed resolved seen
          written) =
      let g = Reachable-Guarded reached in
      let parent = parent_api s.sync c in
      let before = (source_and_target_apis lib net server s.sync c ns w).1.history in
      let object = wanted lib net server s.sync name parent source target before in
      let sends = requests_of lib net server s.sync name parent source target in
      let deleted = has_been_deleted s.sync in
      let ours = has_target_finalizer s.sync in
      let sent_for : sent ≡ sends (move deleted ours false (view s.target) object) =
        append_cancel_right sent _ (writes w.history) (
          sym written
          ∙ reconcile-called_for lib net server s.sync c name ns source target w named placed
              resolved)
        ∙ ap
            (λ leaves. sends (
              move deleted ours leaves
                (server.answer before (get target s.sync.spec.target.resource_ref.name)) object))
            g.deletes
        ∙ ap (λ answer. sends (move deleted ours false answer object)) seen in
      subst (λ rs. Guarded (perform_all rs s)) (sym sent_for)
        (move-Guarded lib net server name parent source target s here g deleted ours s.target object
          refl refl)
  Reachable-Guarded
        (unresolved {s} c name ns e w sent reached named placed refused unforced written) =
      let nothing : sent ≡ [] = append_cancel_right sent [] (writes w.history) (
        sym written
        ∙ reconcile-unresolved lib net server s.sync c name ns e w named placed refused unforced) in
      subst (λ rs. Guarded (perform_all rs s)) (sym nothing) (Reachable-Guarded reached)
  Reachable-Guarded (edited sync reached same ours enabled) =
      let g = Reachable-Guarded reached in
      record {
        guarded = λ w. ours ∙ g.guarded w;
        there = g.there;
        kept = λ gone. ours ∙ g.kept gone;
        deletes = enabled;
      }
  Reachable-Guarded (finished reached deleted bare) =
      let g = Reachable-Guarded reached in
      record { guarded = g.guarded; there = g.there; kept = λ _. bare; deletes = g.deletes }
  Reachable-Guarded (changed before after reached e) =
      let g = Reachable-Guarded reached in
      record { guarded = g.guarded; there = λ _. (after, refl); kept = g.kept; deletes = g.deletes }
  Reachable-Guarded (vanished reached) =
      let g = Reachable-Guarded reached in
      record { guarded = λ e. cc e; there = λ e. cc e; kept = g.kept; deletes = g.deletes }
  Reachable-Guarded (made object reached e) =
      let g = Reachable-Guarded reached in
      record { guarded = λ e. cc e; there = λ e. cc e; kept = g.kept; deletes = g.deletes }

  -- In each state that comes about by the steps of `Reachable`, an object that the controller has written
  -- has a sync that is not gone and has our finalizer. The steps are: the sync is made; a reconciliation
  -- that resolves both ends reads the target object of the state and has its write done; one that cannot
  -- resolve them, of a sync that is not deleted by force, sends its requests; a user edits the sync or
  -- marks it for deletion, without changing which target it names or whether it has our
  -- finalizer, and without asking to leave the target; a sync that is marked and has no finalizer of ours
  -- goes; and others change, remove or make the target object.
  pub written-has_target_finalizer :
      {s : Life}
      → Reachable lib net server s
      → s.written ≡ true
      → (s.gone ≡ false) × (has_target_finalizer s.sync ≡ true)
  written-has_target_finalizer {s} reached written =
      let g = Reachable-Guarded reached in
      let ours = g.guarded written in
      elim (Bool-cases s.gone) [ inl gone ↦ cc (ours, g.kept gone) | inr here ↦ (here, ours) ]
