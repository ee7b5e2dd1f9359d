-- ===== src/Tests/Watchers.antt =====
-- The latest managed-fields entry of a small input.

use sinker.Prelude.{ℕ, String, true, some, [], ◌∷◌, ◌≡◌, refl}
use sinker.Kube.{ManagedFieldsEntry, ObjectMeta, default_meta}
use sinker.Filters.{was_last_modified_by}
use sinker.Filters.Latest.{was_last_modified_by_latest}

abbrev entry : String → ℕ → ManagedFieldsEntry
entry manager time = record { manager = some manager; time = some time }

abbrev edited : ObjectMeta
edited = record default_meta {
  managed_fields = some (entry "kubectl" 5 ∷ entry "sinker" 8 ∷ entry "helm" 3 ∷ []);
}

was_last_modified_by_latest_example : was_last_modified_by edited "sinker" ≡ some true
was_last_modified_by_latest_example =
    was_last_modified_by_latest (entry "sinker" 8) 8 refl edited "sinker" (entry "kubectl" 5 ∷ [])
      (entry "helm" 3 ∷ []) refl refl refl
