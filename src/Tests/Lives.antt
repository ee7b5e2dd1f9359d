-- ===== src/Tests/Lives.antt =====
-- The moves of the controller, and the states that they lead to, at concrete servers.
use sinker.Prelude.{String, Option, ◌++◌, false, some, true, ℕ, none, List, [], ◌∷◌, ◌≡◌, refl}
use sinker.Result.{ok}
use sinker.Kube.{DynamicObject}
use sinker.Server.{apply, Request, get, patch_finalizers}
use sinker.Resources.{ResourceSync}
use sinker.Controller.Reconcile.{source_and_target_apis, reconcile, reconcile_deleted_resource}
use sinker.Controller.Moves.Writes.{writes}
use sinker.Controller.Moves.Refinement.{reconcile-called_for}
use sinker.Controller.Replica.{replica}
use sinker.Controller.Lifecycle.{Life, Reachable, begun, reconciled, written-has_target_finalizer}
use sinker.ResourceExtensions.{has_target_finalizer}
use sinker.Tests.Fixtures.{lib, net, sync, target_api, present, initial, source_config}
use sinker.ResourceExtensions.{finalizer, parent_api}
use sinker.Controller.Progress.{guarded}

-- The ends of the sync are resolved to `target_api`, and its only write is that of the target.
abbrev with_finalizers : Option (List String) → ResourceSync
with_finalizers fs = record sync { metadata = record sync.metadata { finalizers = fs } }

resolved :
    (fs : Option (List String))
    → (source_and_target_apis lib net present (with_finalizers fs) 0 "team-a" initial).0
      ≡ ok (target_api, target_api)
unfolding source_and_target_apis sinker.Exec.◌>>=◌ sinker.ResourceExtensions.Api.api_for
    sinker.ResourceExtensions.Api.cluster_client sinker.Resources.group_version_kind
    sinker.Exec.convert sinker.Exec.send sinker.ResourceExtensions.Api.resolve_namespace
    sinker.ResourceExtensions.Api.api_scope
resolved fs = refl

reconcile-called_for_example :
    writes (reconcile lib net present sync 0 initial).1.history
    ≡ apply target_api "target-config" "sinker.influxdata.io" true
        (replica sync "copy-config" "sync-uid" target_api source_config)
      ∷ []
unfolding sinker.ResourceExtensions.has_been_deleted sinker.ResourceExtensions.has_target_finalizer
    sinker.Controller.Reconcile.target_for sinker.Mapping.clone_resource
    sinker.Controller.Reconcile.own_local_target
reconcile-called_for_example =
    reconcile-called_for lib net present sync 0 "copy-config" "team-a" target_api target_api initial
      refl refl (resolved (some (finalizer ∷ [])))

-- The object that is there first is not the controller's; the reconciliation makes it so.
applied_once :
    writes (reconcile lib net present sync 0 initial).1.history
    ≡ (apply target_api "target-config" "sinker.influxdata.io" true
          (replica sync "copy-config" "sync-uid" target_api source_config)
        ∷ [])
      ++ []
unfolding sinker.ResourceExtensions.has_been_deleted has_target_finalizer
    sinker.Controller.Reconcile.target_for sinker.Mapping.clone_resource
    sinker.Controller.Reconcile.own_local_target
applied_once =
    reconcile-called_for lib net present sync 0 "copy-config" "team-a" target_api target_api initial
      refl refl (resolved (some (finalizer ∷ [])))

abbrev life : Life
life = record { sync = sync; gone = false; target = some source_config; written = false }

begun_life : Reachable lib net present life
unfolding sinker.Resources.has_disable_target_deletion_option_enabled
begun_life = begun sync (some source_config) refl

found_target :
    present.answer
      (source_and_target_apis lib net present sync 0 "team-a" initial).1.history
      (get target_api "target-config")
    ≡ ok source_config
found_target = refl

written-has_target_finalizer_example : (false ≡ false) × (has_target_finalizer sync ≡ true)
written-has_target_finalizer_example =
    written-has_target_finalizer lib net present
      (reconciled 0 "copy-config" "team-a" target_api target_api initial
        (apply target_api "target-config" "sinker.influxdata.io" true
            (replica sync "copy-config" "sync-uid" target_api source_config)
          ∷ [])
        begun_life refl refl refl (resolved (some (finalizer ∷ []))) found_target applied_once)
      refl

-- A sync that has just been made has no finalizer; the first reconciliation adds ours.
abbrev bare_sync : ResourceSync
bare_sync = with_finalizers none

abbrev copy : DynamicObject
copy = replica sync "copy-config" "sync-uid" target_api source_config

-- What the two write, and the states of the sync after each.
abbrev first_write : List (Request ℕ)
first_write = patch_finalizers (parent_api bare_sync 0) "copy-config" (finalizer ∷ []) ∷ []

abbrev second_write : List (Request ℕ)
second_write = apply target_api "target-config" "sinker.influxdata.io" true copy ∷ []

abbrev guarded_life : Life
guarded_life = record { sync = guarded bare_sync; gone = false; target = none; written = false }

abbrev copied_life : Life
copied_life = record { sync = guarded bare_sync; gone = false; target = some copy; written = true }
