-- ===== src/Filters.antt =====
-- src/filters.rs: whether an object's latest managed-fields entry is a given manager's.
pub mod Latest
use sinker.Prelude.{
  ℕ, String, Bool, true, false, not, Option, none, some, List, [], ◌∷◌, any, leb, ◌==◌,
  if◌then◌else◌,
}
use sinker.Kube.{ManagedFieldsEntry, ObjectMeta}
use mathlib.Core.Option

abbrev pub is_none {ℓ} : {A : Type ℓ} → Option A → Bool
is_none none = true
is_none (some _) = false

-- `Option<&Time>` in Rust's order, where `None` is the least: whether the first is greater.
abbrev pub greater : Option ℕ → Option ℕ → Bool
greater none _ = false
greater (some t) none = true
greater (some t) (some u) = not (leb t u)

-- `Iterator::max_by_key` on the time: of several greatest entries the last.
unfoldable pub max_from : ManagedFieldsEntry → List ManagedFieldsEntry → ManagedFieldsEntry
max_from best [] = best
max_from best (e ∷ es) = max_from (if greater best.time e.time then best else e) es

unfoldable pub max_by_time : List ManagedFieldsEntry → Option ManagedFieldsEntry
unfolding max_from
max_by_time [] = none
max_by_time (e ∷ es) = some (max_from e es)

-- `field.manager == Some(manager.to_string())`
abbrev pub is_manager : Option String → String → Bool
is_manager none manager = false
is_manager (some m) manager = m == manager

abbrev last_manager : String → List ManagedFieldsEntry → Option Bool
last_manager manager entries =
    if any (λ e. is_none e.time) entries
    then none
    else Option.map (λ e. is_manager e.manager manager) (max_by_time entries)

unfoldable pub was_last_modified_by : ObjectMeta → String → Option Bool
unfolding max_by_time
was_last_modified_by meta manager = elim meta.managed_fields [
  | none ↦ none
  | some entries ↦ last_manager manager entries
]
