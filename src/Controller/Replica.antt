-- ===== src/Controller/Replica.antt =====
-- The object that src/controller.rs applies for a sync without mappings.
use mathlib.Core.Option
use sinker.Prelude.StringMap.{StringMap}
use sinker.Prelude.{
  retain, not, false, Option, List, [], ◌∷◌, ap, arith, ◌==◌, ◌≡◌, refl, String, true, none, some,
  Option-cases, inl, inr,
}
use sinker.Result.{ok, err, ◌>>=◌}
use sinker.Error.{uid_required}
use sinker.Kube.{DynamicObject, default_meta}
use sinker.Kube.Libraries.{Libraries, NewObject}
use sinker.Resources.{ResourceSync}
use sinker.Mapping.{cleanup_annotations}
use sinker.Server.{NamespacedApi}
use sinker.Mapping.Clone.{clone_resource_lem}
use sinker.Controller.Reconcile.{
  target_for, own_local_target, owner_reference, push_owner_reference,
}

-- The annotations but kubectl's record of the last applied configuration.
abbrev pub kept_annotations : StringMap String → StringMap String
kept_annotations =
    retain (λ entry. not (entry.0 == "kubectl.kubernetes.io/last-applied-configuration"))

-- What a sync of a local target without mappings applies: the source's payload, labels and those
-- annotations, under the target's name, type and namespace, owned by the sync, and no other metadata
-- of the source. The owner is written out: the ResourceSync of that name and uid, which is not the
-- managing controller and whose deletion in the foreground waits for the target's.
abbrev pub replica :
    {C : Type 0} → ResourceSync → String → String → NamespacedApi C → DynamicObject → DynamicObject
replica sync name uid api source = record {
  types = some (record { api_version = api.ar.api_version; kind = api.ar.kind });
  metadata = record default_meta {
    name = some sync.spec.target.resource_ref.name;
    namespace = api.namespace;
    annotations = Option.map kept_annotations source.metadata.annotations;
    labels = source.metadata.labels;
    owner_references = some (
        record {
          api_version = "sinker.influxdata.io/v1alpha1";
          kind = "ResourceSync";
          name = name;
          uid = uid;
          controller = some false;
          block_owner_deletion = some true;
        }
        ∷ []);
  };
  payload = source.payload;
}

cleaned : (m : StringMap String) → cleanup_annotations m ≡ kept_annotations m
unfolding cleanup_annotations sinker.Prelude.StringMap.remove
cleaned [] = refl
cleaned ((k, v) ∷ m) = ground (arith, cleaned m)

cleaned_option :
    (o : Option (StringMap String))
    → Option.map cleanup_annotations o ≡ Option.map kept_annotations o
cleaned_option none = refl
cleaned_option (some m) = ap some (cleaned m)

-- A sync without mappings and without a cluster for its target makes of a source the object with the
-- source's payload and labels, its annotations but kubectl's record of the last applied configuration,
-- the target's name, type and namespace, the ResourceSync of that name and uid as its one owner, and no
-- other metadata, if the sync has a uid. Without a uid it fails.
pub target_for-own_local_target :
    {C : Type 0} (lib : Libraries)
    → NewObject lib
    → (sync : ResourceSync) (name : String) (api : NamespacedApi C) (source : DynamicObject)
    → sync.spec.mappings ≡ []
    → sync.spec.target.cluster ≡ none
    → (target_for lib sync api source >>= own_local_target sync name sync.spec.target.cluster)
      ≡ (elim sync.metadata.uid [
        | none ↦ err uid_required
        | some uid ↦ ok (replica sync name uid api source)
      ])
unfolding target_for own_local_target push_owner_reference owner_reference
target_for-own_local_target lib new sync name api source plain here =
    elim (Option-cases sync.metadata.uid) [
      | inl missing ↦
          simp (plain, here, clone_resource_lem lib new) (rw (missing, own_local_target) refl)
      | inr (uid, known) ↦
          simp (plain, here, clone_resource_lem lib new)
            (rw (known, own_local_target, cleaned_option) refl)
    ]
