-- ===== src/Mapping/Shape.antt =====
-- The type and the metadata of the objects that src/mapping.rs makes.
use sinker.Prelude.{
  ◌≡◌, refl, ap, sym, subst, ◌∙◌, ◌⊎◌, inl, inr, String, Option, none, some, List, [], ◌∷◌, ◌++◌,
  Option-cases,
}
use sinker.Json.{Value, index, as_str}
use sinker.Result.{Result, ok, >>=-eq-ok, map_err}
use sinker.Error.{Error, serialization_error}
use sinker.Kube.{DynamicObject, ApiResource, TypeMeta, ObjectMeta, default_meta}
use sinker.Kube.Libraries.{Libraries, NewObject}
use sinker.Resources.{Gvkn, Mapping}
use sinker.Mapping.{
  strip_prefix, find_field_path, get_ar_from_subtree, convert_metadata, materialize, place,
  dispatch, apply_mapping, apply_each, clone_resource, set_or_fail, cleanup_subtree,
}
use sinker.Mapping.FieldPath.{set_field_path}
use sinker.Mapping.Clone.{clone_resource_lem}
use sinker.Mapping.Apply.{apply_mapping-eq-ok, place-payload, dispatch-place}

abbrev pub type_of : ApiResource → Option TypeMeta
type_of ar = some (record { api_version = ar.api_version; kind = ar.kind })

pub ok_injective :
    {o t : DynamicObject} → ◌≡◌ {A = Result Error DynamicObject} (ok o) (ok t) → o ≡ t
ok_injective h = cc

-- Metadata with a name and a namespace, labels and annotations, and nothing else.
abbrev pub IsPlain : String → Option String → ObjectMeta → Type 0
IsPlain name ns meta = meta ≡ record default_meta {
  name = some name;
  namespace = ns;
  annotations = meta.annotations;
  labels = meta.labels;
}

module _ (lib : Libraries) (new : NewObject lib) (source : DynamicObject) (target_ref : Gvkn)
    (ns : Option String) where
  -- The object's type is that of an inner resource, which one of the mappings has selected in the
  -- source and put in the place of the whole object.
  pub record IsInner (ms : List Mapping) (o : DynamicObject) : Type 0 where
    pub mapping : Mapping
    pub before : List Mapping
    pub after : List Mapping
    pub subtree : Value
    pub inner : ApiResource
    pub listed : ms ≡ before ++ mapping ∷ after
    pub whole : mapping.to_field_path ≡ none
    pub selected : find_field_path lib source mapping.from_field_path ≡ ok subtree
    pub typed : get_ar_from_subtree lib subtree ≡ ok inner
    pub types : o.types ≡ type_of inner

  pub clone-shape :
      (s t : DynamicObject) (ar : ApiResource)
      → clone_resource lib s target_ref ns ar ≡ ok t
      → (t.types ≡ type_of ar) × IsPlain target_ref.name ns t.metadata
  clone-shape s t ar h =
      subst (λ o. (o.types ≡ type_of ar) × IsPlain target_ref.name ns o.metadata)
        (ok_injective (sym (clone_resource_lem lib new s target_ref ns ar) ∙ h)) (refl, refl)

  pub materialize-shape :
      (subtree : Value) (t : DynamicObject)
      → materialize lib subtree target_ref ns ≡ ok t
      → (inner : ApiResource) × (get_ar_from_subtree lib subtree ≡ ok inner)
        × (t.types ≡ type_of inner)
        × IsPlain target_ref.name ns t.metadata
  unfolding materialize
  materialize-shape subtree t h =
      let (inner, typed, rest) = >>=-eq-ok (get_ar_from_subtree lib subtree) _ h in
      let (meta, _, made) = >>=-eq-ok (convert_metadata (index subtree "metadata")) _ rest in
      let rest_of = cleanup_subtree subtree in
      let new_one =
        lib.new_object (lib.value_to_text (index (index rest_of "metadata") "name")) inner in
      let copied : DynamicObject = record new_one {
        payload = rest_of;
        metadata = record new_one.metadata {
          namespace = as_str (index (index rest_of "metadata") "namespace");
          annotations = meta.annotations;
          labels = meta.labels;
        };
      } in
      let (types, plain) = clone-shape copied t inner made in (inner, typed, types, plain)

  place-types :
      (template t : DynamicObject) (to : String) (subtree : Value)
      → place lib template to subtree ≡ ok t
      → t.types ≡ template.types
  unfolding place
  place-types template t to subtree h = elim (Option-cases (strip_prefix "metadata." to)) [
    | inl outside ↦ (place-payload lib source target_ref ns template t to subtree outside h).1
    | inr (path, inside) ↦
        let (metadata, _, rest) =
          >>=-eq-ok (map_err serialization_error (lib.meta_to_value template.metadata)) _
            (rw (inside, place) at h) in
        let (written, _, more) =
          >>=-eq-ok (set_or_fail (set_field_path metadata path subtree)) _ rest in
        let (parsed, _, made) =
          >>=-eq-ok (map_err serialization_error (lib.meta_from_value written)) _ more in
        sym (ap (λ (o : DynamicObject). o.types) (ok_injective made))
  ]

  -- A mapping keeps the type, or makes an object anew of what it has selected.
  apply_mapping-types :
      (m : Mapping) (ms : List Mapping) (template t : DynamicObject)
      → apply_mapping lib source target_ref ns m template ≡ ok t
      → (t.types ≡ template.types) ⊎ IsInner (m ∷ ms) t
  unfolding dispatch
  apply_mapping-types m ms template t h =
      let (subtree, found, made) = apply_mapping-eq-ok lib source target_ref ns m template t h in
      elim (Option-cases m.to_field_path) [
        | inr (to, e) ↦ inl (
            place-types template t to subtree (
              dispatch-place lib source target_ref ns subtree template t m.from_field_path to
                (rw e at made)))
        | inl whole ↦ elim (Option-cases m.from_field_path) [
          | inl bare ↦ cc (rw (bare, whole) at made)
          | inr (from, e) ↦
              let (inner, typed, types, _) = materialize-shape subtree t (rw (e, whole) at made) in
              inr (record {
                mapping = m;
                before = [];
                after = ms;
                subtree = subtree;
                inner = inner;
                listed = refl;
                whole = whole;
                selected = found;
                typed = typed;
                types = types;
              })
        ]
      ]

  later : (m : Mapping) (ms : List Mapping) (t : DynamicObject) → IsInner ms t → IsInner (m ∷ ms) t
  later m ms t i = record {
    mapping = i.mapping;
    before = m ∷ i.before;
    after = i.after;
    subtree = i.subtree;
    inner = i.inner;
    listed = ap (λ (xs : List Mapping). m ∷ xs) i.listed;
    whole = i.whole;
    selected = i.selected;
    typed = i.typed;
    types = i.types;
  }

  kept_type :
      (ms : List Mapping) (o t : DynamicObject) → t.types ≡ o.types → IsInner ms o → IsInner ms t
  kept_type ms o t e i = record {
    mapping = i.mapping;
    before = i.before;
    after = i.after;
    subtree = i.subtree;
    inner = i.inner;
    listed = i.listed;
    whole = i.whole;
    selected = i.selected;
    typed = i.typed;
    types = e ∙ i.types;
  }

  pub apply_each-types :
      (ms : List Mapping) (template t : DynamicObject)
      → apply_each lib source target_ref ns ms template ≡ ok t
      → (t.types ≡ template.types) ⊎ IsInner ms t
  unfolding apply_each
  apply_each-types [] template t h =
      inl (sym (ap (λ (o : DynamicObject). o.types) (ok_injective h)))
  apply_each-types (m ∷ ms) template t h =
      let (t', first, rest) = >>=-eq-ok (apply_mapping lib source target_ref ns m template) _ h in
      elim (apply_each-types ms t' t rest) [
        | inr i ↦ inr (later m ms t i)
        | inl same ↦ elim (apply_mapping-types m ms template t' first) [
          | inl kept ↦ inl (same ∙ kept)
          | inr i ↦ inr (kept_type (m ∷ ms) t' t same i)
        ]
      ]
