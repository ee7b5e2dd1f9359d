-- ===== src/Mapping/Apply.antt =====
-- The loop of `apply_mappings` of src/mapping.rs.

use mathlib.Core.Bool.{and-eq-true_iff}
use sinker.Prelude.{
  any, all, String, ◌≡◌, refl, ◌∙◌, Bool, true, false, Option, none, some, List, [], ◌∷◌, ◌++◌,
  arith,
}
use sinker.Json.{Value}
use sinker.Result.{ok, ◌>>=◌, >>=-eq-ok, >>=_assoc, map_err}
use sinker.Error.{serialization_error}
use sinker.Kube.{DynamicObject}
use sinker.Kube.Libraries.{Libraries}
use sinker.Resources.{Gvkn, Mapping}
use sinker.Mapping.{
  strip_prefix, find_field_path, place, dispatch, apply_mapping, apply_each, set_or_fail,
}
use sinker.Mapping.FieldPath.{set_field_path, AddToPathError}
use sinker.Mapping.FieldPath.Readback.{
  fetch, diverge, fetch-set_field_path, fetch-set_field_path-diverge,
}

-- A mapping with neither path.
unfoldable pub is_empty : Mapping → Bool
is_empty m = elim m.from_field_path [
  | none ↦ elim m.to_field_path [ none ↦ true | some _ ↦ false ]
  | some _ ↦ false
]

-- Whether a mapping writes one payload path, apart from a given one.
abbrev leaves_path : String → Option String → Bool
leaves_path path none = false
leaves_path path (some to) = elim (strip_prefix "metadata." to) [
  | none ↦ diverge to path
  | some _ ↦ false
]

unfoldable pub leaves : String → Mapping → Bool
leaves path m = leaves_path path m.to_field_path

leaves_path-inv :
    (path : String) (to : Option String)
    → leaves_path path to ≡ true
    → (t : String) × (to ≡ some t) × (strip_prefix "metadata." t ≡ none) × (diverge t path ≡ true)
leaves_path-inv path none h = cc
leaves_path-inv path (some to) h = (to, refl, ground arith, ground arith)

leaves_inv :
    (path : String) (m : Mapping)
    → leaves path m ≡ true
    → (t : String) × (m.to_field_path ≡ some t)
      × (strip_prefix "metadata." t ≡ none)
      × (diverge t path ≡ true)
unfolding leaves
leaves_inv path m h = leaves_path-inv path m.to_field_path h

pub set_or_fail-eq-ok :
    (r : Value × Option AddToPathError) {v : Value}
    → set_or_fail r ≡ ok v
    → (r.0 ≡ v) × (r.1 ≡ none)
set_or_fail-eq-ok (root, none) h = ground arith
set_or_fail-eq-ok (root, some e) h = cc

module _ (lib : Libraries) (source : DynamicObject) (target_ref : Gvkn) (ns : Option String) where
  -- The mappings are applied in order: a list after another starts from what the first one made.
  pub apply_each-append :
      (ms ms' : List Mapping) (template : DynamicObject)
      → apply_each lib source target_ref ns (ms ++ ms') template ≡ (
          apply_each lib source target_ref ns ms template
          >>= apply_each lib source target_ref ns ms')
  unfolding apply_each
  apply_each-append [] ms' template = refl
  apply_each-append (m ∷ ms) ms' template = simp (apply_each-append ms ms', >>=_assoc)

  -- A mapping that succeeds has selected a value and dispatched it.
  pub apply_mapping-eq-ok :
      (m : Mapping) (template t : DynamicObject)
      → apply_mapping lib source target_ref ns m template ≡ ok t
      → (subtree : Value) × (find_field_path lib source m.from_field_path ≡ ok subtree)
        × (dispatch lib target_ref ns subtree template m.from_field_path m.to_field_path ≡ ok t)
  unfolding apply_mapping
  apply_mapping-eq-ok m template t h =
      let (subtree, found, rest) = >>=-eq-ok (find_field_path lib source m.from_field_path) _ h in
      let (_, _, dispatched) =
        >>=-eq-ok (map_err serialization_error (lib.object_to_text template)) _ rest in
      let (t', made, shown) =
        >>=-eq-ok (dispatch lib target_ref ns subtree template m.from_field_path m.to_field_path) _
          dispatched in
      let (_, _, same) = >>=-eq-ok (map_err serialization_error (lib.object_to_text t')) _ shown in
      (subtree, found, made ∙ same)

  apply_mapping-is_empty :
      (m : Mapping) (template t : DynamicObject)
      → apply_mapping lib source target_ref ns m template ≡ ok t
      → is_empty m ≡ false
  unfolding is_empty dispatch
  apply_mapping-is_empty m template t h =
      let (subtree, _, made) = apply_mapping-eq-ok m template t h in ground arith

  pub place-payload :
      (template t : DynamicObject) (to : String) (subtree : Value)
      → strip_prefix "metadata." to ≡ none
      → place lib template to subtree ≡ ok t
      → (set_field_path template.payload to subtree ≡ (t.payload, none))
        × (t.types ≡ template.types)
        × (t.metadata ≡ template.metadata)
  unfolding place
  place-payload template t to subtree outside h =
      let (v, written, same) =
        >>=-eq-ok (set_or_fail (set_field_path template.payload to subtree)) _
          (rw (outside, place) at h) in
      let (root, fine) = set_or_fail-eq-ok (set_field_path template.payload to subtree) written in
      ground arith

  pub dispatch-place :
      (subtree : Value) (template t : DynamicObject) (from : Option String) (to : String)
      → dispatch lib target_ref ns subtree template from (some to) ≡ ok t
      → place lib template to subtree ≡ ok t
  unfolding dispatch
  dispatch-place subtree template t none to h = h
  dispatch-place subtree template t (some _) to h = h

  apply_mapping-placed :
      (m : Mapping) (to : String) (template t : DynamicObject)
      → m.to_field_path ≡ some to
      → strip_prefix "metadata." to ≡ none
      → apply_mapping lib source target_ref ns m template ≡ ok t
      → (subtree : Value) × (find_field_path lib source m.from_field_path ≡ ok subtree)
        × (set_field_path template.payload to subtree ≡ (t.payload, none))
        × (t.types ≡ template.types)
        × (t.metadata ≡ template.metadata)
  apply_mapping-placed m to template t e outside h =
      let (subtree, found, made) = apply_mapping-eq-ok m template t h in
      let placed : place lib template to subtree ≡ ok t =
        dispatch-place subtree template t m.from_field_path to (rw e at made) in
      let (wrote, types, metadata) = place-payload template t to subtree outside placed in
      (subtree, found, wrote, types, metadata)

  apply_mapping-leaves :
      (path : String) (m : Mapping) (template t : DynamicObject)
      → leaves path m ≡ true
      → apply_mapping lib source target_ref ns m template ≡ ok t
      → (fetch path t.payload ≡ fetch path template.payload)
        × (t.types ≡ template.types)
        × (t.metadata ≡ template.metadata)
  apply_mapping-leaves path m template t l h =
      let (to, e, outside, apart) = leaves_inv path m l in
      let (subtree, _, wrote, types, metadata) = apply_mapping-placed m to template t e outside h in
      (
        ground (arith, fetch-set_field_path-diverge template.payload to path subtree, wrote),
        types,
        metadata,
      )

  -- A list of mappings that succeeds has no mapping without a path.
  pub apply_each-is_empty :
      (ms : List Mapping) (template t : DynamicObject)
      → apply_each lib source target_ref ns ms template ≡ ok t
      → any is_empty ms ≡ false
  unfolding apply_each
  apply_each-is_empty [] template t h = refl
  apply_each-is_empty (m ∷ ms) template t h =
      let (t', first, rest) = >>=-eq-ok (apply_mapping lib source target_ref ns m template) _ h in
      rw (apply_mapping-is_empty m template t' first) (apply_each-is_empty ms t' t rest)

  -- Where a list of mappings succeeds and the last one's destination lies in the payload, it holds
  -- in the result the value that the mapping selects in the source, whatever the mappings before
  -- it wrote.
  pub apply_each-last :
      (ms : List Mapping) (m : Mapping) (to : String) (template t : DynamicObject)
      → m.to_field_path ≡ some to
      → strip_prefix "metadata." to ≡ none
      → apply_each lib source target_ref ns (ms ++ m ∷ []) template ≡ ok t
      → (subtree : Value) × (find_field_path lib source m.from_field_path ≡ ok subtree)
        × (fetch to t.payload ≡ some subtree)
  unfolding apply_each
  apply_each-last [] m to template t e outside h =
      let (t', made, same) = >>=-eq-ok (apply_mapping lib source target_ref ns m template) _ h in
      let (subtree, found, wrote, _, _) =
        apply_mapping-placed m to template t e outside (made ∙ same) in
      (subtree, found, ground (arith, fetch-set_field_path template.payload to subtree, wrote))
  apply_each-last (x ∷ ms) m to template t e outside h =
      let (t', _, rest) = >>=-eq-ok (apply_mapping lib source target_ref ns x template) _ h in
      apply_each-last ms m to t' t e outside rest

  -- Mappings that succeed into payload paths apart from a given one keep what that path leads to,
  -- and the object's type and metadata.
  pub apply_each-leaves :
      (path : String) (ms : List Mapping) (template t : DynamicObject)
      → all (leaves path) ms ≡ true
      → apply_each lib source target_ref ns ms template ≡ ok t
      → (fetch path t.payload ≡ fetch path template.payload)
        × (t.types ≡ template.types)
        × (t.metadata ≡ template.metadata)
  unfolding apply_each
  apply_each-leaves path [] template t l h = ground arith
  apply_each-leaves path (m ∷ ms) template t l h =
      let (t', first, rest) = >>=-eq-ok (apply_mapping lib source target_ref ns m template) _ h in
      let (lm, lms) = (and-eq-true_iff (leaves path m) (all (leaves path) ms)).0 l in
      ground (
        arith,
        apply_mapping-leaves path m template t' lm first,
        apply_each-leaves path ms t' t lms rest,
      )
