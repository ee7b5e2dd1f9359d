-- ===== src/Mapping/Inner.antt =====
-- The resource inside a subtree: its type, its annotations and its labels.
use Prim.Native.Char.{Char, code}
use Prim.Native.String
use Prim.Native.String.append
use sinker.Prelude.{
  ℕ, String, ◌≡◌, refl, Bool, true, false, not, ◌&&◌, Option, none, some, [], ◌∷◌, arith,
  if◌then◌else◌, nat_eq,
}
use sinker.Prelude.StringMap
use sinker.Prelude.StringMap.{StringMap}
use sinker.Json.{Value, string, object, Fields, end, field, get, index, as_str}
use sinker.Result.{ok, panic}
use sinker.Kube.{ApiResource}
use sinker.Kube.Libraries.{Libraries}
use sinker.Resources.{Gvkn}
use sinker.Mapping.{
  map_conversion, split, convert_field, convert_metadata, get_ar_from_subtree, materialize,
}

-- Whether every value of an object is a text, and the texts of those that are.
unfoldable pub is_text : Value → Bool
is_text (string s) = true
is_text _ = false

unfoldable pub all_texts : Fields → Bool
unfolding is_text
all_texts end = true
all_texts (field k v m) = is_text v && all_texts m

unfoldable pub texts : Fields → StringMap String
texts end = []
texts (field k (string s) m) = (k, s) ∷ texts m
texts (field k _ m) = texts m

-- The conversion of annotations or labels panics exactly when a value is no text, and otherwise has
-- every key with its text.
pub map_conversion_lem :
    (m : Fields) → map_conversion m ≡ (if all_texts m then ok (texts m) else panic)
unfolding map_conversion all_texts texts
map_conversion_lem end = refl
map_conversion_lem (field k (string s) m) = ground (arith, map_conversion_lem m)
map_conversion_lem (field k v m) = refl

pub get-texts :
    (k : String) (m : Fields)
    → all_texts m ≡ true
    → StringMap.get k (texts m) ≡ (elim (get k m) [ none ↦ none | some v ↦ as_str v ])
unfolding all_texts texts get StringMap.get
get-texts k end h = refl
get-texts k (field j (string s) m) h = ground (arith, get-texts k m)
get-texts k (field j v m) h = cc

-- A text without the separator.
unfoldable pub free_of : ℕ → String → Bool
free_of sep String.[] = true
free_of sep (String.◌∷◌ c s) = not (nat_eq (code c) sep) && free_of sep s

split_one : (sep : ℕ) (s : String) → free_of sep s ≡ true → split sep s ≡ s ∷ []
unfolding split free_of
split_one sep String.[] h = refl
split_one sep (String.◌∷◌ c s) h = ground (arith, split_one sep s)

split_two :
    (sep : ℕ) (s t : String) (c : Char)
    → free_of sep s ≡ true
    → free_of sep t ≡ true
    → code c ≡ sep
    → split sep (String.◌++◌ s (String.◌∷◌ c t)) ≡ s ∷ t ∷ []
unfolding split free_of
split_two sep String.[] t c hs ht e = rw append.nil (ground (arith, split_one sep t))
split_two sep (String.◌∷◌ d s) t c hs ht e = rw append.cons (ground (arith, split_two sep s t c))

split_grouped :
    (group version : String)
    → free_of b'/' group ≡ true
    → free_of b'/' version ≡ true
    → split b'/' (String.◌++◌ group (String.◌++◌ "/" version)) ≡ group ∷ version ∷ []
split_grouped group version hg hv =
    rw (append.cons, append.nil) (split_two b'/' group version _ hg hv refl)

module _ (lib : Libraries) (subtree : Value) (kind : String) where
  -- Where `apiVersion` is a group, a slash and a version, both without a slash, and `kind` is a
  -- text, the inner resource has that group, version and kind.
  pub get_ar_from_subtree_grouped :
      (group version : String)
      → free_of b'/' group ≡ true
      → free_of b'/' version ≡ true
      → index subtree "apiVersion" ≡ string (String.◌++◌ group (String.◌++◌ "/" version))
      → index subtree "kind" ≡ string kind
      → get_ar_from_subtree lib subtree
        ≡ ok (lib.from_gvk (record { group = group; version = version; kind = kind }))
  unfolding get_ar_from_subtree
  get_ar_from_subtree_grouped group version hg hv ev ek =
      rw (ev, ek, split_grouped group version hg hv)

  -- Where `apiVersion` is a text without a slash and `kind` is a text, the inner resource has that
  -- version and kind, and the empty group.
  pub get_ar_from_subtree_core :
      (version : String)
      → free_of b'/' version ≡ true
      → index subtree "apiVersion" ≡ string version
      → index subtree "kind" ≡ string kind
      → get_ar_from_subtree lib subtree
        ≡ ok (lib.from_gvk (record { group = ""; version = version; kind = kind }))
  unfolding get_ar_from_subtree
  get_ar_from_subtree_core version hv ev ek = rw (ev, ek, split_one b'/' version hv)

  -- A subtree whose type is well formed and whose annotations hold a value that is no text makes the
  -- mapping panic.
  pub materialize_panics :
      (target_ref : Gvkn) (ns : Option String) (ar : ApiResource) (m : Fields)
      → get_ar_from_subtree lib subtree ≡ ok ar
      → index (index subtree "metadata") "annotations" ≡ object m
      → all_texts m ≡ false
      → materialize lib subtree target_ref ns ≡ panic
  unfolding materialize convert_metadata convert_field
  materialize_panics target_ref ns ar m ea em bad = rw (ea, em, map_conversion_lem m, bad)
