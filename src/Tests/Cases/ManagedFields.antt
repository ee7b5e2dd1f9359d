-- ===== src/Tests/Cases/ManagedFields.antt =====
-- The unit tests of src/filters.rs.

use sinker.Prelude.{◌≡◌, refl, String, Bool, true, false, Option, none, some, List, [], ◌∷◌, map}
use sinker.Kube.{ManagedFieldsEntry, default_meta, Time}
use sinker.Filters.{was_last_modified_by}
use sinker.Tests.Fixtures.{sync}

abbrev manager : String
manager = "sinker.influxdata.io"

abbrev other_manager : String
other_manager = "external-manager"

abbrev now : Time
now = 1700000000

abbrev entry : String → Option Time → ManagedFieldsEntry
entry name time = record { manager = some name; time = time }

-- `test_was_last_modified_by`
abbrev managed_fields_cases : List (Option (List ManagedFieldsEntry))
managed_fields_cases =
    none
    ∷ some []
    ∷ some (entry manager (some now) ∷ entry other_manager (some 0) ∷ [])
    ∷ some (entry other_manager (some now) ∷ entry manager (some 0) ∷ [])
    ∷ some (entry manager (some now) ∷ entry other_manager none ∷ [])
    ∷ []

abbrev ask : Option (List ManagedFieldsEntry) → Option Bool
ask fields = was_last_modified_by (record default_meta { managed_fields = fields }) manager

managed_fields_cases_pass :
    map ask managed_fields_cases ≡ none ∷ none ∷ some true ∷ some false ∷ none ∷ []
unfolding was_last_modified_by
managed_fields_cases_pass = refl

-- `latest_entry_wins_regardless_of_position`: an old entry of ours and the current one, both ways.
abbrev old : ManagedFieldsEntry
old = entry manager (some 0)

abbrev current : Option String → ManagedFieldsEntry
current name = record { manager = name; time = some now }

abbrev latest_entry_cases : List (List ManagedFieldsEntry)
latest_entry_cases =
    (old ∷ current none ∷ [])
    ∷ (current none ∷ old ∷ [])
    ∷ (old ∷ current (some manager) ∷ [])
    ∷ (current (some manager) ∷ old ∷ [])
    ∷ (old ∷ current (some "external") ∷ [])
    ∷ (current (some "external") ∷ old ∷ [])
    ∷ []

abbrev ask_sync : List ManagedFieldsEntry → Option Bool
ask_sync fields =
    was_last_modified_by (record sync.metadata { managed_fields = some fields }) manager

latest_entry_cases_pass :
    map ask_sync latest_entry_cases
    ≡ some false ∷ some false ∷ some true ∷ some true ∷ some false ∷ some false ∷ []
unfolding was_last_modified_by
latest_entry_cases_pass = refl
