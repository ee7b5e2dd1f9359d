-- ===== src/Tests/Confinement.antt =====
-- What a reconciliation leaves alone, at concrete servers and with another ResourceSync's watch.
use sinker.Prelude.{none, ne_of_test, ap, ◌≡◌, refl, some, List, [], ◌∷◌}
use sinker.Kube.{ObjectRef}
use sinker.Resources.{ResourceSync}
use sinker.RemoteWatcherManager.{RemoteWatcherKey, new}
use sinker.RemoteWatcherManager.Interleaved.{Call, calls, is_watching}
use sinker.RemoteWatcherManager.Undisturbed.{Running}
use sinker.Exec.Keeps.{Keeps}
use sinker.Exec.Oblivious.{Effect, world}
use sinker.Controller.Reconcile.{reconcile}
use sinker.Controller.Managing.{Manages}
use sinker.Controller.Overlap.{reconcile-Oblivious}
use sinker.Controller.Overlap.Shuffled.{Shuffle, done, left, right, overlap-is_watching}
use sinker.Controller.Apart.{reconcile-Running}
use sinker.Controller.Confined.{Confined}
use sinker.Controller.Confined.Handling.{reconcile-Confined}
use sinker.Tests.Fixtures.{lib, net, sync, present, absent, reference}

-- A sync whose source is in another cluster, in the namespace `remote` there, through a Secret of its own
-- namespace.
abbrev remote_sync : ResourceSync
remote_sync = record sync {
  spec = record sync.spec {
    source = record sync.spec.source {
      cluster = some (record {
        namespace = some "remote";
        kube_config = record {
          secret_ref = record { name = "credentials"; namespace = none; key = "config" };
        };
      });
    };
  };
}

reconcile-Confined_example :
    Keeps (Confined lib net present remote_sync 0) (reconcile lib net present remote_sync 0)
reconcile-Confined_example = reconcile-Confined lib net present remote_sync 0

abbrev other_sync : ObjectRef
other_sync = record { name = "copy-secret"; namespace = some "team-b" }

abbrev key : ObjectRef → RemoteWatcherKey
key ref = record { object = reference "source-config"; resource_sync = ref }

reconcile-Running_example :
    Keeps (Manages (Running (key other_sync) 3)) (reconcile lib net present sync 0)
reconcile-Running_example =
    reconcile-Running lib net present sync (key other_sync) 3 0
      (λ e. ne_of_test "copy-config" "copy-secret" refl (ap (λ (ref : ObjectRef). ref.name) e))

-- Two ResourceSyncs that overlap: their calls of the manager take turns.
abbrev sync_of_secret : ResourceSync
sync_of_secret = record sync {
  metadata = record sync.metadata { name = some "copy-secret"; namespace = some "team-b" };
}

alternate : List Call → List Call → List Call
alternate [] ys = ys
alternate (x ∷ xs) [] = x ∷ xs
alternate (x ∷ xs) (y ∷ ys) = x ∷ y ∷ alternate xs ys

only_left : (xs : List Call) → Shuffle xs [] xs
only_left [] = done
only_left (x ∷ xs) = left (only_left xs)

only_right : (ys : List Call) → Shuffle [] ys ys
only_right [] = done
only_right (y ∷ ys) = right (only_right ys)

alternating : (xs ys : List Call) → Shuffle xs ys (alternate xs ys)
unfolding alternate
alternating [] ys = only_right ys
alternating (x ∷ xs) [] = only_left (x ∷ xs)
alternating (x ∷ xs) (y ∷ ys) = left (right (alternating xs ys))

abbrev this_sync : ObjectRef
this_sync = record { name = "copy-config"; namespace = some "team-a" }

abbrev mine : Effect this_sync (reconcile lib net present sync 0) []
mine = (reconcile-Oblivious lib net present sync 0).at []

abbrev theirs : Effect other_sync (reconcile lib net absent sync_of_secret 0) []
theirs = (reconcile-Oblivious lib net absent sync_of_secret 0).at []

overlap-is_watching_example :
    is_watching (key this_sync) (calls (alternate mine.made theirs.made) new)
    ≡ is_watching (key this_sync) (reconcile lib net present sync 0 (world [] new)).1.manager
overlap-is_watching_example =
    overlap-is_watching lib net present absent sync sync_of_secret 0
      (λ e. ne_of_test "copy-secret" "copy-config" refl (ap (λ (ref : ObjectRef). ref.name) e)) mine
      theirs (alternate mine.made theirs.made) (alternating mine.made theirs.made) (key this_sync)
      refl new
