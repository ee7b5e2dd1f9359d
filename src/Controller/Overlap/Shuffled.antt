-- ===== src/Controller/Overlap/Shuffled.antt =====
-- Two reconciliations of src/controller.rs that overlap, of different ResourceSyncs.
use sinker.Prelude.{◌≡◌, refl, ap, sym, ◌∙◌, inl, inr, true, false, List, [], ◌∷◌, Bool-cases}
use sinker.Result.{Result}
use sinker.Error.{Error}
use sinker.Kube.{ObjectRef, Action}
use sinker.Kube.Libraries.{Libraries}
use sinker.Resources.{ResourceSync}
use sinker.RemoteWatcherManager.{RemoteWatcherKey, RemoteWatcherManager}
use sinker.RemoteWatcherManager.Interleaved.{
  Call, key_of, calls, of_sync, same_sync, same_sync_iff, is_watching, AllOf, calls-of_sync,
}
use sinker.Server.{Request, Server, World}
use sinker.Exec.Oblivious.{Effect, world}
use sinker.ResourceExtensions.{Connections}
use sinker.Controller.Reconcile.{reconcile}

-- One sequence of the calls of two reconciliations, each in its own order.
pub data Shuffle : List Call → List Call → List Call → Type 0 where
  done : Shuffle [] [] []
  left : {c : Call} {xs ys zs : List Call} → Shuffle xs ys zs → Shuffle (c ∷ xs) ys (c ∷ zs)
  right : {c : Call} {xs ys zs : List Call} → Shuffle xs ys zs → Shuffle xs (c ∷ ys) (c ∷ zs)

own_call :
    (c : Call) (ref : ObjectRef)
    → (key_of c).resource_sync ≡ ref
    → same_sync (key_of c).resource_sync ref ≡ true
own_call c ref e = (same_sync_iff (key_of c).resource_sync ref).1 e

foreign_call :
    (c : Call) (ref other : ObjectRef)
    → ¬ (other ≡ ref)
    → (key_of c).resource_sync ≡ other
    → same_sync (key_of c).resource_sync ref ≡ false
foreign_call c ref other apart e = elim (Bool-cases (same_sync (key_of c).resource_sync ref)) [
  | inr foreign ↦ foreign
  | inl own ↦ absurd (apart (sym e ∙ (same_sync_iff (key_of c).resource_sync ref).0 own))
]

-- The calls for one ResourceSync are those of its reconciliation.
of_sync-Shuffle :
    (ref other : ObjectRef) {xs ys zs : List Call}
    → ¬ (other ≡ ref)
    → Shuffle xs ys zs
    → AllOf ref xs
    → AllOf other ys
    → of_sync ref zs ≡ xs
of_sync-Shuffle ref other apart done own foreign = refl
of_sync-Shuffle ref other apart (left {c = c} s) own foreign =
    rw (own_call c ref own.0) (ap (λ cs. c ∷ cs) (of_sync-Shuffle ref other apart s own.1 foreign))
of_sync-Shuffle ref other apart (right {c = c} s) own foreign =
    rw (foreign_call c ref other apart foreign.0) (of_sync-Shuffle ref other apart s own foreign.1)

module _ {C K G : Type 0} (lib : Libraries) (net : Connections C K G)
    (this_server other_server : Server C) (this other : ResourceSync) (c : C) where
  -- Where two reconciliations of different ResourceSyncs overlap, whatever the servers answer to each
  -- and however the calls of the manager that they make interleave, a key of the one is watched in the
  -- end exactly if it is after that reconciliation alone. (`mine` and `theirs` are what the two do,
  -- which `reconcile-Oblivious` gives for every reconciliation.)
  pub overlap-is_watching :
      {before after : List (Request C)}
      → ¬ (lib.object_ref other.metadata ≡ lib.object_ref this.metadata)
      → (mine : Effect (lib.object_ref this.metadata) (reconcile lib net this_server this c) before)
      → (theirs : Effect
          (lib.object_ref other.metadata)
          (reconcile lib net other_server other c)
          after)
      → (made : List Call) → Shuffle mine.made theirs.made made
      → (k : RemoteWatcherKey) → k.resource_sync ≡ lib.object_ref this.metadata
      → (m : RemoteWatcherManager)
      → is_watching k (calls made m)
        ≡ is_watching k (reconcile lib net this_server this c (world before m)).1.manager
  overlap-is_watching apart mine theirs made shuffled k e m =
      calls-of_sync made k m
      ∙ ap (λ ref. is_watching k (calls (of_sync ref made) m)) e
      ∙ ap (λ cs. is_watching k (calls cs m))
          (of_sync-Shuffle (lib.object_ref this.metadata) (lib.object_ref other.metadata) apart
            shuffled mine.own theirs.own)
      ∙ sym (ap (λ (r : Result Error Action × World C). is_watching k r.1.manager) (mine.same m))
