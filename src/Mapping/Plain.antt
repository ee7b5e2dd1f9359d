-- ===== src/Mapping/Plain.antt =====
-- The metadata of the objects that src/mapping.rs makes where no mapping writes into them.
use mathlib.Core.Bool.{and-eq-true_iff}
use sinker.Prelude.{
  ◌≡◌, sym, subst, inl, inr, String, Bool, true, false, Option, none, some, List, [], ◌∷◌, all,
  arith, Option-cases,
}
use sinker.Result.{ok, >>=-eq-ok}
use sinker.Kube.{DynamicObject}
use sinker.Kube.Libraries.{Libraries, NewObject}
use sinker.Resources.{Gvkn, Mapping}
use sinker.Mapping.{strip_prefix, dispatch, apply_mapping, apply_each}
use sinker.Mapping.Apply.{apply_mapping-eq-ok, place-payload, dispatch-place}
use sinker.Mapping.Shape.{ok_injective, IsPlain, materialize-shape}

-- A destination is no path into the metadata.
abbrev outside_metadata : Option String → Bool
outside_metadata none = true
outside_metadata (some to) = elim (strip_prefix "metadata." to) [ none ↦ true | some _ ↦ false ]

abbrev pub leaves_metadata : Mapping → Bool
leaves_metadata m = outside_metadata m.to_field_path

outside_lem : (to : String) → outside_metadata (some to) ≡ true → strip_prefix "metadata." to ≡ none
outside_lem to l = ground arith

module _ (lib : Libraries) (new : NewObject lib) (source : DynamicObject) (target_ref : Gvkn)
    (ns : Option String) where
  -- A mapping into no path of the metadata keeps them plain.
  apply_mapping-IsPlain :
      (m : Mapping) (template t : DynamicObject)
      → leaves_metadata m ≡ true
      → IsPlain target_ref.name ns template.metadata
      → apply_mapping lib source target_ref ns m template ≡ ok t
      → IsPlain target_ref.name ns t.metadata
  unfolding dispatch
  apply_mapping-IsPlain m template t l plain h =
      let (subtree, found, made) = apply_mapping-eq-ok lib source target_ref ns m template t h in
      elim (Option-cases m.to_field_path) [
        | inr (to, e) ↦
            let placed =
              dispatch-place lib source target_ref ns subtree template t m.from_field_path to
                (rw e at made) in
            let (_, _, same) =
              place-payload lib source target_ref ns template t to subtree
                (outside_lem to (rw e at l)) placed in
            subst (IsPlain target_ref.name ns) (sym same) plain
        | inl whole ↦ elim (Option-cases m.from_field_path) [
          | inl bare ↦ cc (rw (bare, whole) at made)
          | inr (from, e) ↦
              let (_, _, _, anew) =
                materialize-shape lib new source target_ref ns subtree t (rw (e, whole) at made) in
              anew
        ]
      ]

  pub apply_each-IsPlain :
      (ms : List Mapping) (template t : DynamicObject)
      → all leaves_metadata ms ≡ true
      → IsPlain target_ref.name ns template.metadata
      → apply_each lib source target_ref ns ms template ≡ ok t
      → IsPlain target_ref.name ns t.metadata
  unfolding apply_each
  apply_each-IsPlain [] template t l plain h =
      subst (λ (o : DynamicObject). IsPlain target_ref.name ns o.metadata) (ok_injective h) plain
  apply_each-IsPlain (m ∷ ms) template t l plain h =
      let (t', first, rest) = >>=-eq-ok (apply_mapping lib source target_ref ns m template) _ h in
      let (lm, lms) = (and-eq-true_iff (leaves_metadata m) (all leaves_metadata ms)).0 l in
      apply_each-IsPlain ms t' t lms (apply_mapping-IsPlain m template t' lm plain first) rest
