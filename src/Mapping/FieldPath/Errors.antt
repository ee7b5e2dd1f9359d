-- ===== src/Mapping/FieldPath/Errors.antt =====
-- When `set_field_path` fails, and that a failure changes nothing.
use sinker.Prelude.{
  String, ◌≡◌, refl, inl, inr, Bool, true, false, not, Option, none, some, List, [], ◌∷◌, arith,
  Option-cases, if◌then◌else◌, eq_iff,
}
use sinker.Json.{Value, object, Fields, end, field, get, insert}
use sinker.Mapping.FieldPath.{entry_or_insert, descend, set_field_path, object_required}
use sinker.Mapping.FieldPath.Segments.{segments, put, set_field_path-object}

-- Writing back what a key holds changes nothing.
insert_self : (k : String) (v : Value) (m : Fields) → get k m ≡ some v → insert k v m ≡ m
unfolding get insert
insert_self k v end e = cc
insert_self k v (field j w m) e = ground (arith, eq_iff j k, insert_self k v m)

-- Below a missing key every object is new, so the leaf is inserted.
put-end : (k : String) (ks : List String) (leaf : Value) → (put k ks leaf end).1 ≡ true
unfolding put descend entry_or_insert get
put-end k [] leaf = refl
put-end k (j ∷ ks) leaf = put-end j ks leaf

put_failed :
    (k : String) (ks : List String) (leaf : Value) (m : Fields)
    → (put k ks leaf m).1 ≡ false
    → (put k ks leaf m).0 ≡ m
unfolding put descend entry_or_insert
put_failed k [] leaf m e = cc
put_failed k (j ∷ ks) leaf m e = elim (Option-cases (get k m)) [
  | inl n ↦ ground (arith, n, put-end j ks leaf)
  | inr (object inner, h) ↦
      ground (arith, h, put_failed j ks leaf inner, insert_self k (object inner) m)
  | inr (v, h) ↦ ground (arith, h)
]

-- Whether a key before the last one holds something that is no object.
unfoldable pub blocks : String → List String → Fields → Bool
blocks k [] m = false
blocks k (j ∷ ks) m = elim (get k m) [
  | none ↦ false
  | some (object inner) ↦ blocks j ks inner
  | some _ ↦ true
]

-- The recursion inserts the leaf unless it is blocked.
put-blocks :
    (k : String) (ks : List String) (leaf : Value) (m : Fields)
    → (put k ks leaf m).1 ≡ not (blocks k ks m)
unfolding put descend entry_or_insert blocks
put-blocks k [] leaf m = refl
put-blocks k (j ∷ ks) leaf m = elim (Option-cases (get k m)) [
  | inl n ↦ ground (arith, n, put-end j ks leaf)
  | inr (object inner, h) ↦ ground (arith, h, put-blocks j ks leaf inner)
  | inr (v, h) ↦ ground (arith, h)
]

blocks-end : (k : String) (ks : List String) → blocks k ks end ≡ false
unfolding blocks get
blocks-end k [] = refl
blocks-end k (j ∷ ks) = refl

-- A path is blocked at a root that is no object, and at a key before its last that holds a value
-- other than an object.
unfoldable pub blocked : String → Value → Bool
unfolding blocks
blocked path (object m) = blocks (segments path).0 (segments path).1 m
blocked path _ = true

-- The object that a key holds, empty if it holds none.
abbrev pub object_at : Option Value → Fields
object_at (some (object inner)) = inner
object_at _ = end

-- The object with the leaf at the end of the path.
unfoldable pub write : String → List String → Value → Fields → Fields
write k [] leaf m = insert k leaf m
write k (j ∷ ks) leaf m = insert k (object (write j ks leaf (object_at (get k m)))) m

unfoldable pub written : String → Value → Value → Value
unfolding write
written path leaf (object m) = object (write (segments path).0 (segments path).1 leaf m)
written path leaf root = root

put_written :
    (k : String) (ks : List String) (leaf : Value) (m : Fields)
    → blocks k ks m ≡ false
    → (put k ks leaf m).0 ≡ write k ks leaf m
unfolding put descend entry_or_insert blocks write
put_written k [] leaf m e = refl
put_written k (j ∷ ks) leaf m e = elim (Option-cases (get k m)) [
  | inl n ↦ ground (arith, n, put_written j ks leaf end, blocks-end j ks)
  | inr (object inner, h) ↦ ground (arith, h, put_written j ks leaf inner)
  | inr (v, h) ↦ ground (arith, h)
]

-- The outcome of `set_field_path` on every branch. On a blocked path the root is left as it was, and
-- the error carries it. On any other path the root has the leaf written, and there is no error.
pub set_field_path_outcome :
    (root : Value) (path : String) (leaf : Value)
    → set_field_path root path leaf ≡ (
        if blocked path root
        then (root, some (object_required root))
        else (written path leaf root, none))
unfolding blocked written
set_field_path_outcome (object m) path leaf =
    let (k, ks) = segments path in
    rw set_field_path-object
      (ground (arith, put-blocks k ks leaf m, put_written k ks leaf m, put_failed k ks leaf m))
set_field_path_outcome root path leaf = unfold set_field_path in refl
