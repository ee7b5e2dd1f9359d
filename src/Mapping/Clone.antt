-- ===== src/Mapping/Clone.antt =====
-- What `clone_resource` of src/mapping.rs copies.
use mathlib.Core.Option
use sinker.Prelude.{String, ◌≡◌, Option, none, some, ◌==◌, if◌then◌else◌}
use sinker.Prelude.StringMap
use sinker.Prelude.StringMap.{StringMap, get-remove}
use sinker.Result.{ok}
use sinker.Kube.{default_meta, DynamicObject, ApiResource}
use sinker.Kube.Libraries.{Libraries, NewObject}
use sinker.Resources.{Gvkn}
use sinker.Mapping.{last_applied, cleanup_annotations, clone_resource}

-- The annotations keep every key but kubectl's record of the last applied configuration.
pub get-cleanup_annotations :
    (k : String) (annotations : StringMap String)
    → StringMap.get k (cleanup_annotations annotations)
      ≡ (if last_applied == k then none else StringMap.get k annotations)
unfolding cleanup_annotations
get-cleanup_annotations k annotations = get-remove last_applied k annotations

module _ (lib : Libraries) (new : NewObject lib) where
  -- The copy has the requested type, name and namespace, the source's payload, labels and cleaned
  -- annotations, and no other metadata: no uid, version, finalizer or owner.
  pub clone_resource_lem :
      (source : DynamicObject) (target_ref : Gvkn) (ns : Option String) (ar : ApiResource)
      → clone_resource lib source target_ref ns ar
        ≡ ok (record {
          types = some (record { api_version = ar.api_version; kind = ar.kind });
          metadata = record default_meta {
            name = some target_ref.name;
            namespace = ns;
            annotations = Option.map cleanup_annotations source.metadata.annotations;
            labels = source.metadata.labels;
          };
          payload = source.payload;
        })
  unfolding clone_resource
  clone_resource_lem source target_ref ns ar = rw (new.new_object_lem target_ref.name ar)
