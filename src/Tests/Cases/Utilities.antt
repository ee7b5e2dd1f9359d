-- ===== src/Tests/Cases/Utilities.antt =====
-- The unit tests of src/util.rs.
use sinker.Prelude.{◌≡◌, refl, String, List, [], ◌∷◌, map, ◌==◌}
use sinker.Result.{Result, ok}
use sinker.Error.{Error}
use sinker.Kube.{Action, requeue}
use sinker.Util.{with_item_removed, with_push, requeue_after, default_requeue_after}

-- `removing_items_preserves_other_items_and_order`
abbrev removal_cases : List (List String)
removal_cases =
    []
    ∷ ("first" ∷ "last" ∷ [])
    ∷ ("remove" ∷ "first" ∷ "remove" ∷ "last" ∷ [])
    ∷ ("remove" ∷ [])
    ∷ []

abbrev without_remove : List String → List String
without_remove input = with_item_removed ◌==◌ "remove" input

removal_cases_pass :
    map without_remove removal_cases
    ≡ [] ∷ ("first" ∷ "last" ∷ []) ∷ ("first" ∷ "last" ∷ []) ∷ [] ∷ []
unfolding with_item_removed
removal_cases_pass = refl

-- `with_push_appends_without_deduplicating`
abbrev pushed : List String
pushed = with_push (with_push (with_push [] "first") "second") "first"

pushed_pass : pushed ≡ "first" ∷ "second" ∷ "first" ∷ []
unfolding with_push
pushed_pass = refl

-- `requeue_macro_supports_default_seconds_and_subsecond_durations`
abbrev requeues : List (Result Error Action)
requeues = default_requeue_after ∷ requeue_after 12000 ∷ requeue_after 500 ∷ []

requeues_pass : requeues ≡ ok (requeue 5000) ∷ ok (requeue 12000) ∷ ok (requeue 500) ∷ []
requeues_pass = refl
