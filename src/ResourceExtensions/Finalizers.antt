-- ===== src/ResourceExtensions/Finalizers.antt =====
-- The lists of finalizers that src/controller.rs writes, read back by src/resource_extensions.rs.

use sinker.Prelude.{
  ◌≡◌, ◌≢◌, refl, String, true, false, not, some, List, [], ◌∷◌, ◌++◌, arith, any-append,
  any-retain, any-retain-not, eq_iff, eq_self, ◌==◌,
}
use sinker.Resources.{ResourceSync}
use sinker.Util.{with_item_removed, with_push}
use sinker.ResourceExtensions.{finalizer, contains, has_target_finalizer, finalizers_clone_or_empty}

-- A sync with its list of finalizers replaced, as the merge patch does.
abbrev pub patched : List String → ResourceSync → ResourceSync
patched fs sync = record sync { metadata = record sync.metadata { finalizers = some fs } }

abbrev pub without_ours : ResourceSync → List String
without_ours sync = with_item_removed (λ a b. a == b) finalizer (finalizers_clone_or_empty sync)

abbrev pub with_ours : ResourceSync → List String
with_ours sync = with_push (finalizers_clone_or_empty sync) finalizer

-- The first of these lists does not have our finalizer, and the second does.
pub removed : (sync : ResourceSync) → not (contains finalizer (without_ours sync)) ≡ true
unfolding with_item_removed
removed sync = rw (any-retain-not (λ i. i == finalizer) (finalizers_clone_or_empty sync))

pub pushed : (sync : ResourceSync) → contains finalizer (with_ours sync) ≡ true
unfolding with_push
pushed sync = ground (
  arith,
  any-append (λ i. i == finalizer) (finalizers_clone_or_empty sync) (finalizer ∷ []),
  eq_self finalizer,
)

-- After the patch that removes our finalizer no copy of it is left, and every other one is there
-- exactly if it was.
pub without_ours_lem :
    (sync : ResourceSync)
    → (has_target_finalizer (patched (without_ours sync) sync) ≡ false)
      × ((other : String)
          → other ≢ finalizer
          → contains other (without_ours sync) ≡ contains other (finalizers_clone_or_empty sync))
unfolding has_target_finalizer with_item_removed
without_ours_lem sync = (
  any-retain-not (λ i. i == finalizer) (finalizers_clone_or_empty sync),
  λ other ne.
      any-retain (λ i. not (i == finalizer)) (λ i. i == other)
        (λ x e. ground (arith, eq_iff x other, eq_iff x finalizer))
        (finalizers_clone_or_empty sync),
)

-- After the patch that adds our finalizer it is there, behind the ones that were.
pub with_ours_lem :
    (sync : ResourceSync)
    → (has_target_finalizer (patched (with_ours sync) sync) ≡ true)
      × (with_ours sync ≡ finalizers_clone_or_empty sync ++ finalizer ∷ [])
unfolding has_target_finalizer with_push
with_ours_lem sync = (
  ground (
    arith,
    any-append (λ i. i == finalizer) (finalizers_clone_or_empty sync) (finalizer ∷ []),
    eq_self finalizer,
  ),
  refl,
)
