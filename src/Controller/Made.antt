-- ===== src/Controller/Made.antt =====
-- The type and the metadata of the object that src/controller.rs makes of a source, with mappings or
-- without.
use sinker.Prelude.{◌≡◌, ◌∙◌, ◌⊎◌, inl, inr, true, List, [], ◌∷◌, all}
use sinker.Result.{ok}
use sinker.Kube.{DynamicObject}
use sinker.Kube.Libraries.{Libraries, NewObject}
use sinker.Resources.{ResourceSync, Mapping}
use sinker.Server.{NamespacedApi}
use sinker.Mapping.{apply_mappings}
use sinker.Mapping.Shape.{type_of, IsPlain, IsInner, clone-shape, apply_each-types}
use sinker.Mapping.Plain.{leaves_metadata, apply_each-IsPlain}
use sinker.Controller.Reconcile.{target_for, copy_source}

module _ {C : Type 0} (lib : Libraries) (new : NewObject lib) (sync : ResourceSync)
    (api : NamespacedApi C) (source o : DynamicObject) where
  abbrev Inner : Type 0
  Inner = IsInner lib new source sync.spec.target.resource_ref api.namespace sync.spec.mappings o

  copy_source-types :
      (ms : List Mapping)
      → copy_source lib source sync.spec.target.resource_ref api.namespace api.ar sync ms ≡ ok o
      → (o.types ≡ type_of api.ar) ⊎ Inner
  unfolding apply_mappings
  copy_source-types [] h =
      inl
        (clone-shape lib new source sync.spec.target.resource_ref api.namespace source o api.ar h).0
  copy_source-types (m ∷ ms) h =
      elim (apply_each-types lib new source sync.spec.target.resource_ref api.namespace
        sync.spec.mappings _ o h) [
          | inl same ↦
              inl (same ∙ rw (new.new_object_lem sync.spec.target.resource_ref.name api.ar))
          | inr made ↦ inr made
        ]

  -- An object that is made of a source has the type of the target's API, or the type of an inner
  -- resource, which one of the sync's mappings has selected in the source and put in the place of the
  -- whole object.
  pub target_for-types : target_for lib sync api source ≡ ok o → (o.types ≡ type_of api.ar) ⊎ Inner
  unfolding target_for
  target_for-types h = copy_source-types sync.spec.mappings h

  copy_source-IsPlain :
      (ms : List Mapping)
      → all leaves_metadata sync.spec.mappings ≡ true
      → copy_source lib source sync.spec.target.resource_ref api.namespace api.ar sync ms ≡ ok o
      → IsPlain sync.spec.target.resource_ref.name api.namespace o.metadata
  unfolding apply_mappings
  copy_source-IsPlain [] l h =
      (clone-shape lib new source sync.spec.target.resource_ref api.namespace source o api.ar h).1
  copy_source-IsPlain (m ∷ ms) l h =
      apply_each-IsPlain lib new source sync.spec.target.resource_ref api.namespace
        sync.spec.mappings _ o l (rw (new.new_object_lem sync.spec.target.resource_ref.name api.ar))
        h

  -- Where no mapping writes into the metadata, an object that is made of a source has the target's name
  -- and namespace, labels and annotations, and no other metadata: no uid or version, no finalizer or
  -- owner, of the source or of an inner resource.
  pub target_for-IsPlain :
      all leaves_metadata sync.spec.mappings ≡ true
      → target_for lib sync api source ≡ ok o
      → IsPlain sync.spec.target.resource_ref.name api.namespace o.metadata
  unfolding target_for
  target_for-IsPlain l h = copy_source-IsPlain sync.spec.mappings l h
