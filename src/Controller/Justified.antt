-- ===== src/Controller/Justified.antt =====
-- Why our finalizer is given up in src/controller.rs: only where the target was just seen to be absent.
use sinker.Prelude.{
  ◌≡◌, ◌⊎◌, ◌∙◌, ap, refl, String, Bool, true, false, List, [], ◌∷◌, nat_eq, Bool-cases, inl, inr,
}
use sinker.Result.{Result, ok, err, panic, is_ok, is_error, is_panic, Result-cases}
use sinker.Kube.{KubeError, api, other, DynamicObject}
use sinker.Kube.Libraries.{Libraries}
use sinker.Resources.{
  ResourceSync, has_force_delete_option_enabled, has_disable_target_deletion_option_enabled,
}
use sinker.Server.{
  Request, get_secret, apiserver_version, pinned_kind, get, delete, apply, patch_finalizers,
  get_status, patch_status, list_syncs, Server, World, NamespacedApi, ParentApi,
}
use sinker.Exec.{send, manage, raise, lift, ◌>>=◌, try}
use sinker.Exec.Keeps.{Keeps, keeps_rules}
use sinker.RemoteWatcherManager.{RemoteWatcherManager}
use sinker.ResourceExtensions.{
  Connections, finalizer, contains, has_target_finalizer, start_remote_watches_if_not_watching,
  stop_remote_watches_if_watching,
}
use sinker.ResourceExtensions.Finalizers.{with_ours, pushed}
use sinker.Controller.Reconcile.{
  delete_target, reconcile_deleted_resource, add_target_finalizer, reconcile_normally, reconcile,
}
use sinker.Controller.Rules.{Ordinary, reconcile-Led}
use sinker.Controller.Confined.{Leads, Resolved}
use sinker.Controller.Confined.Leading.{apis-Resolved}
use sinker.Controller.Deletion.{is_absent, release_lem}

module _ {C K G : Type 0} (lib : Libraries) (net : Connections C K G) (server : Server C)
    (sync : ResourceSync) (client : C) where
  abbrev name_of_target : String
  name_of_target = sync.spec.target.resource_ref.name

  -- The last request read the target, by its name and through an API to which its reference leads, and
  -- was answered that it is absent.
  abbrev pub SeenAbsent : List (Request C) → Type 0
  SeenAbsent (get a n ∷ rest) =
      Leads lib net server sync client sync.spec.target a
      × (n ≡ sync.spec.target.resource_ref.name)
      × (is_absent (server.answer rest (get a n)) ≡ true)
  SeenAbsent _ = ⊥

  -- Every list of finalizers without ours was written right after the target was seen to be absent.
  abbrev pub AllJustified : List (Request C) → Type 0
  AllJustified [] = Unit
  AllJustified (patch_finalizers a n fs ∷ rest) =
      ((contains finalizer fs ≡ true) ⊎ SeenAbsent rest) × AllJustified rest
  AllJustified (_ ∷ rest) = AllJustified rest

  pub record Justified (w : World C) : Type 0 where
    pub holds : AllJustified w.history

  abbrev P : World C → Type 0
  P = Justified

  abbrev other_than_patch : Request C → Bool
  other_than_patch (patch_finalizers _ _ _) = false
  other_than_patch _ = true

  Justified-send : (r : Request C) → other_than_patch r ≡ true → Keeps P (send server r)
  unfolding send
  Justified-send (get_secret c ns n) e = record { at = λ w h. record { holds = h.holds } }
  Justified-send (apiserver_version c) e = record { at = λ w h. record { holds = h.holds } }
  Justified-send (pinned_kind c gvk) e = record { at = λ w h. record { holds = h.holds } }
  Justified-send (get a n) e = record { at = λ w h. record { holds = h.holds } }
  Justified-send (delete a n p) e = record { at = λ w h. record { holds = h.holds } }
  Justified-send (apply a n m f o) e = record { at = λ w h. record { holds = h.holds } }
  Justified-send (patch_finalizers a n fs) e = cc
  Justified-send (get_status a n) e = record { at = λ w h. record { holds = h.holds } }
  Justified-send (patch_status a n s) e = record { at = λ w h. record { holds = h.holds } }
  Justified-send (list_syncs a n) e = record { at = λ w h. record { holds = h.holds } }

  Justified-manage :
      {E : Type 0} (f : RemoteWatcherManager → RemoteWatcherManager) → Keeps P (manage {E = E} f)
  unfolding manage
  Justified-manage f = record { at = λ w h. record { holds = h.holds } }

  Justified-guard :
      (a : ParentApi C) (n : String) → Keeps P (send server (patch_finalizers a n (with_ours sync)))
  unfolding send
  Justified-guard a n = record { at = λ w h. record { holds = (inl (pushed sync), h.holds) } }

  start-Justified : {E : Type 0} → Keeps P (start_remote_watches_if_not_watching lib {E = E} sync)
  unfolding start_remote_watches_if_not_watching
  start-Justified = search (keeps_rules, Justified-manage)

  stop-Justified : {E : Type 0} → Keeps P (stop_remote_watches_if_watching lib {E = E} sync)
  unfolding stop_remote_watches_if_watching
  stop-Justified = search (keeps_rules, Justified-manage)

  ordinary : Ordinary lib server sync P
  ordinary = record {
    secrets = λ c ns n. Justified-send (get_secret c ns n) refl;
    versions = λ c. Justified-send (apiserver_version c) refl;
    kinds = λ c gvk. Justified-send (pinned_kind c gvk) refl;
    gets = λ a n. Justified-send (get a n) refl;
    statuses = λ a n. Justified-send (get_status a n) refl;
    reports = λ a n s. Justified-send (patch_status a n s) refl;
    starts = start-Justified;
    stops = stop-Justified;
  }

  guard-Justified :
      (name : String) (parent : ParentApi C)
      → Keeps P (add_target_finalizer lib net server sync name parent)
  unfolding add_target_finalizer
  guard-Justified name parent = search (keeps_rules, Justified-guard) depth 30

  apply-Justified :
      (name : String) (source target : NamespacedApi C)
      → Keeps P (reconcile_normally lib net server sync name source target)
  unfolding reconcile_normally
  apply-Justified name source target =
      search (keeps_rules, Justified-send, start-Justified) depth 30

  delete-Justified :
      (name : String) (target : NamespacedApi C) (parent : ParentApi C) (found : DynamicObject)
      → Keeps P (delete_target lib net server sync name target parent (ok found))
  unfolding delete_target
  delete-Justified name target parent found =
      search (keeps_rules, Justified-send, start-Justified) depth 30

  -- What follows the read of the target, by its answer.
  delete_target-Justified :
      (name : String) (target : NamespacedApi C) (parent : ParentApi C)
      (found : Result KubeError DynamicObject) (w : World C)
      → Leads lib net server sync client sync.spec.target target
      → server.answer w.history (get target name_of_target) ≡ found
      → P w
      → P
          (delete_target lib net server sync name target parent found
            (record w { history = get target name_of_target ∷ w.history })).1
  unfolding delete_target
  delete_target-Justified name target parent (ok found) w led e h =
      (delete-Justified name target parent found).at _ (record { holds = h.holds })
  delete_target-Justified name target parent (err (api code text)) w led e h =
      let w' = record w { history = get target name_of_target ∷ w.history } in
      elim (Bool-cases (nat_eq code 404)) [
        | inl gone ↦
            rw (gone, delete_target)
              (rw (release_lem lib net server sync name parent w')
                (record { holds = (inr (led, refl, ap is_absent e ∙ gone), h.holds) }))
        | inr there ↦ rw (there, delete_target) (unfold raise in record { holds = h.holds })
      ]
  delete_target-Justified name target parent (err (other text)) w led e h =
      unfold raise in record { holds = h.holds }
  delete_target-Justified name target parent panic w led e h =
      unfold lift in record { holds = h.holds }

  reconcile_deleted-Justified :
      has_disable_target_deletion_option_enabled sync ≡ false
      → (name : String) (target : NamespacedApi C) (parent : ParentApi C)
      → Leads lib net server sync client sync.spec.target target
      → Keeps P (reconcile_deleted_resource lib net server sync name target parent)
  unfolding reconcile_deleted_resource ◌>>=◌ try send
  reconcile_deleted-Justified enabled name target parent led = record { at = λ w h. step w h }
    where
      step :
          (w : World C)
          → P w
          → P (reconcile_deleted_resource lib net server sync name target parent w).1
      step w h = elim (Bool-cases (has_target_finalizer sync)) [
        | inr gone ↦ rw (gone, reconcile_deleted_resource) (record { holds = h.holds })
        | inl ours ↦ elim (Result-cases (server.answer w.history (get target name_of_target))) [
          | is_ok a e ↦
              rw (ours, enabled, e, reconcile_deleted_resource)
                (delete_target-Justified name target parent (ok a) w led e h)
          | is_error x e ↦
              rw (ours, enabled, e, reconcile_deleted_resource)
                (delete_target-Justified name target parent (err x) w led e h)
          | is_panic e ↦
              rw (ours, enabled, e, reconcile_deleted_resource) (record { holds = h.holds })
        ]
      ]

  -- Whatever the servers answer, where neither deleting by force nor leaving the target is asked for, a
  -- reconciliation gives up our finalizer only right after a read of the target, by its name and through
  -- an API to which the target's reference leads, has answered that it is absent.
  pub reconcile-Justified :
      has_disable_target_deletion_option_enabled sync ≡ false
      → has_force_delete_option_enabled sync ≡ false
      → Keeps Justified (reconcile lib net server sync client)
  reconcile-Justified enabled unforced =
      reconcile-Led lib net server sync ordinary (Resolved lib net server sync client) client
        (λ ns here. apis-Resolved lib net server sync client ns here)
        (λ _ name source target parent led.
          reconcile_deleted-Justified enabled name target parent led.1)
        (λ _ force. cc (force, unforced)) (λ _. guard-Justified)
        (λ _ _ name source target _. apply-Justified name source target)
