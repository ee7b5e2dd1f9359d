-- ===== src/Util.antt =====
-- src/util.rs. `eq` is the element type's `PartialEq`.
use sinker.Prelude.{Bool, not, List, [], ◌∷◌, ◌++◌, retain, ℕ}
use sinker.Result.{Result, ok}
use sinker.Kube.{Action, requeue}

module _ {ℓ} {A : Type ℓ} where
  unfoldable pub with_item_removed : (A → A → Bool) → A → List A → List A
  with_item_removed eq item = retain (λ i. not (eq i item))

  unfoldable pub with_push : List A → A → List A
  with_push items item = items ++ item ∷ []

-- `requeue_after!(duration)` and `requeue_after!()`, in milliseconds
abbrev pub requeue_after : {E : Type 0} → ℕ → Result E Action
requeue_after duration = ok (requeue duration)

abbrev pub default_requeue_after : {E : Type 0} → Result E Action
default_requeue_after = requeue_after 5000
