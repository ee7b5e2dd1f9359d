-- ===== src/Controller/Moves/Refinement.antt =====
-- A whole reconciliation of src/controller.rs as one move of the abstract controller.
use sinker.Prelude.{false, ◌&&◌, ◌≡◌, refl, String, some, List, ◌++◌}
use sinker.Result.{Result, ok, err, is_ok, is_error, is_panic, Result-cases}
use sinker.Error.{Error}
use sinker.Kube.{Action}
use sinker.Kube.Libraries.{Libraries}
use sinker.Resources.{ResourceSync, has_force_delete_option_enabled}
use sinker.Server.{
  Request, Server, World, NamespacedApi, ParentApi, get_secret, apiserver_version, pinned_kind, get,
  get_status, patch_status,
}
use sinker.Exec.{try, lift, raise, clock, ◌>>=◌, ◌>>◌}
use sinker.Exec.Keeps.{Keeps, keeps_rules}
use sinker.ResourceExtensions.{
  Connections, has_been_deleted, parent_api, start_remote_watches_if_not_watching,
  stop_remote_watches_if_watching,
}
use sinker.Controller.{reconcile_status}
use sinker.Controller.Reconcile.{
  source_and_target_apis, reconcile_with, reconcile_helper, live_status, write_status, reconcile,
}
use sinker.Controller.Rules.{Ordinary, apis-Keeps, live_status-Keeps, write_status-Keeps}
use sinker.Controller.Moves.{called_for, requests_of, reconcile_with-Written}
use sinker.Controller.Moves.Writes.{writes, Written, Written-send, Written-manage}

module _ {C K G : Type 0} (lib : Libraries) (net : Connections C K G) (server : Server C)
    (sync : ResourceSync) where
  stop-Written :
      {E : Type 0} {sent : List (Request C)}
      → Keeps {C = C} {E = E} (Written sent) (stop_remote_watches_if_watching lib sync)
  unfolding stop_remote_watches_if_watching
  stop-Written = search (keeps_rules, Written-manage)

  start-Written :
      {E : Type 0} {sent : List (Request C)}
      → Keeps {C = C} {E = E} (Written sent) (start_remote_watches_if_not_watching lib sync)
  unfolding start_remote_watches_if_not_watching
  start-Written = search (keeps_rules, Written-manage)

  ordinary : (sent : List (Request C)) → Ordinary lib server sync (Written sent)
  ordinary sent = record {
    secrets = λ c ns n. Written-send server (get_secret c ns n) refl;
    versions = λ c. Written-send server (apiserver_version c) refl;
    kinds = λ c gvk. Written-send server (pinned_kind c gvk) refl;
    gets = λ a n. Written-send server (get a n) refl;
    statuses = λ a n. Written-send server (get_status a n) refl;
    reports = λ a n s. Written-send server (patch_status a n s) refl;
    starts = start-Written;
    stops = stop-Written;
  }

  -- What follows the handler.
  ending-Written :
      {sent : List (Request C)} (name : String) (parent : ParentApi C)
      (result : Result Error Action)
      → Keeps (Written sent) (do
        live ← live_status lib net server sync name parent result
        now ← clock server
        write_status lib net server parent name (reconcile_status lib now sync live result)
        lift result)
  ending-Written {sent} name parent result =
      search
        (
          keeps_rules,
          live_status-Keeps lib net server sync (ordinary sent),
          write_status-Keeps lib net server sync (ordinary sent),
        )
        depth 30

  module _ (c : C) (name ns : String) (source target : NamespacedApi C) (w : World C)
      (named : sync.metadata.name ≡ some name) (placed : sync.metadata.namespace ≡ some ns)
      (resolved : (source_and_target_apis lib net server sync c ns w).0 ≡ ok (source, target)) where
    abbrev pub found : World C
    found = (source_and_target_apis lib net server sync c ns w).1

    apis-Written : Written (writes w.history) found
    apis-Written =
        (apis-Keeps lib net server sync (ordinary (writes w.history)) c ns).at w
          (record { are = refl })

    helper-Written :
        let parent = parent_api sync c in
        Written
          (requests_of lib net server sync name parent source target
              (called_for lib net server sync name parent source target found.history)
            ++ writes w.history)
          (reconcile_helper lib net server sync c name parent w).1
    unfolding reconcile_helper ◌>>=◌ lift try
    helper-Written =
        simp (placed, resolved)
          (reconcile_with-Written lib net server sync name (parent_api sync c) source target found
            apis-Written)

    -- Where a named sync of a namespace has its source and its target resolved, the writes that its
    -- reconciliation adds to those sent before are exactly those of the move that is called for where
    -- they have been resolved, whatever is answered to the writes.
    pub reconcile-called_for :
        let parent = parent_api sync c in
        writes (reconcile lib net server sync c w).1.history
        ≡ requests_of lib net server sync name parent source target
            (called_for lib net server sync name parent source target found.history)
          ++ writes w.history
    unfolding reconcile ◌>>=◌ lift try
    reconcile-called_for =
        let parent = parent_api sync c in
        let ran = reconcile_helper lib net server sync c name parent w in
        elim (Result-cases ran.0) [
          | is_ok a e ↦
              simp (named, e) ((ending-Written name parent (ok a)).at ran.1 helper-Written).are
          | is_error x e ↦
              simp (named, e) ((ending-Written name parent (err x)).at ran.1 helper-Written).are
          | is_panic e ↦ simp (named, e) helper-Written.are
        ]

  -- Where the source or the target cannot be resolved, and the sync is not deleted by force, a
  -- reconciliation writes nothing.
  module _ (c : C) (name ns : String) (e : Error) (w : World C)
      (named : sync.metadata.name ≡ some name) (placed : sync.metadata.namespace ≡ some ns)
      (unresolved : (source_and_target_apis lib net server sync c ns w).0 ≡ err e)
      (unforced : (has_force_delete_option_enabled sync && has_been_deleted sync) ≡ false) where
    unresolved-Written :
        Written
          (writes w.history)
          (reconcile_helper lib net server sync c name (parent_api sync c) w).1
    unfolding reconcile_helper ◌>>=◌ lift try reconcile_with raise
    unresolved-Written =
        simp (placed, unresolved, unforced)
          (record {
            are =
                ((apis-Keeps lib net server sync (ordinary (writes w.history)) c ns).at w
                  (record { are = refl })).are;
          })

    pub reconcile-unresolved :
        writes (reconcile lib net server sync c w).1.history ≡ writes w.history
    unfolding reconcile ◌>>=◌ lift try
    reconcile-unresolved =
        let parent = parent_api sync c in
        let ran = reconcile_helper lib net server sync c name parent w in
        elim (Result-cases ran.0) [
          | is_ok a e ↦
              simp (named, e) ((ending-Written name parent (ok a)).at ran.1 unresolved-Written).are
          | is_error x e ↦
              simp (named, e) ((ending-Written name parent (err x)).at ran.1 unresolved-Written).are
          | is_panic e ↦ simp (named, e) unresolved-Written.are
        ]
