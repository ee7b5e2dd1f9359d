-- ===== src/Resources/Container.antt =====
-- SinkerContainer of src/resources.rs: its definition, with the schema that is written by hand. What the
-- derived `crd()` yields and how a schema is parsed are arguments.
use sinker.Prelude.{◌≡◌, refl, ap, String, Option, some, List, [], ◌∷◌, map}
use sinker.Result.{Result, ok, panic}

-- `CustomResourceDefinitionVersion`, over the type of schemas
pub record Version (S : Type 0) : Type 0 where
  pub name : String
  pub schema : Option (Option S)

pub record CustomResourceDefinition (S : Type 0) : Type 0 where
  pub name : Option String
  pub scope : String
  pub versions : List (Version S)

abbrev pub manual_schema : String
manual_schema =
    "\ndescription: This is a handy generic resource container for use as ResourceSync sources or targets\ntype: object\nproperties:\n  spec:\n    description: This is an arbitrary object\n    type: object\n    x-kubernetes-preserve-unknown-fields: true\nrequired:\n- spec\n"

module _ {S : Type 0} where
  -- The body of the loop over the versions.
  abbrev pub set_schema : S → Version S → Version S
  set_schema schema v = record v { schema = some (some schema) }

  abbrev expect :
      Result String S
      → (S → CustomResourceDefinition S)
      → Result String (CustomResourceDefinition S)
  expect (ok schema) next = ok (next schema)
  expect _ next = panic

  unfoldable pub crd_with_manual_schema :
      (String → Result String S)
      → CustomResourceDefinition S
      → Result String (CustomResourceDefinition S)
  crd_with_manual_schema from_str crd =
      expect (from_str manual_schema)
        (λ schema. record crd { versions = map (set_schema schema) crd.versions })

  -- Every version of a list has a schema.
  abbrev pub AllHave : S → List (Version S) → Type 0
  AllHave schema [] = Unit
  AllHave schema (v ∷ vs) = (v.schema ≡ some (some schema)) × AllHave schema vs

  abbrev pub names : List (Version S) → List String
  names = map (λ v. v.name)

  set-AllHave : (schema : S) (vs : List (Version S)) → AllHave schema (map (set_schema schema) vs)
  set-AllHave schema [] = tt
  set-AllHave schema (v ∷ vs) = (refl, set-AllHave schema vs)

  names-set : (schema : S) (vs : List (Version S)) → names (map (set_schema schema) vs) ≡ names vs
  names-set schema [] = refl
  names-set schema (v ∷ vs) = ap (λ ns. v.name ∷ ns) (names-set schema vs)

  -- Where the schema that is written by hand can be parsed, every version of the definition has it, and
  -- the definition is otherwise the derived one: its name, its scope, and its versions by their names.
  pub crd_with_manual_schema_lem :
      (from_str : String → Result String S) (crd : CustomResourceDefinition S) (schema : S)
      → from_str manual_schema ≡ ok schema
      → (c : CustomResourceDefinition S) × (crd_with_manual_schema from_str crd ≡ ok c)
        × AllHave schema c.versions
        × (names c.versions ≡ names crd.versions)
        × (c.name ≡ crd.name)
        × (c.scope ≡ crd.scope)
  unfolding crd_with_manual_schema
  crd_with_manual_schema_lem from_str crd schema parsed = (
    record crd { versions = map (set_schema schema) crd.versions },
    rw parsed,
    set-AllHave schema crd.versions,
    names-set schema crd.versions,
    refl,
    refl,
  )
