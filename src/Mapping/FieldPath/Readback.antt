-- ===== src/Mapping/FieldPath/Readback.antt =====
-- Reading a path back after `set_field_path` has written one.
use sinker.Prelude.{
  String, ◌≡◌, refl, Bool, true, not, ◌||◌, Option, none, some, List, [], ◌∷◌, arith, ◌==◌, eq_iff,
  eq_self,
}
use sinker.Json.{Value, object, Fields, get}
use sinker.Json.Laws.{get-insert}
use sinker.Mapping.FieldPath.{set_field_path}
use sinker.Mapping.FieldPath.Segments.{segments}
use sinker.Mapping.FieldPath.Errors.{object_at, write, written, set_field_path_outcome}

-- The value at the end of a path.
unfoldable pub fetch_in : String → List String → Fields → Option Value
fetch_in k [] m = get k m
fetch_in k (j ∷ ks) m = fetch_in j ks (object_at (get k m))

unfoldable pub fetch : String → Value → Option Value
unfolding fetch_in
fetch path (object m) = fetch_in (segments path).0 (segments path).1 m
fetch path _ = none

fetch_in-write :
    (k : String) (ks : List String) (leaf : Value) (m : Fields)
    → fetch_in k ks (write k ks leaf m) ≡ some leaf
unfolding fetch_in write
fetch_in-write k [] leaf m = simp (get-insert, eq_self)
fetch_in-write k (j ∷ ks) leaf m =
    simp (get-insert, eq_self) (fetch_in-write j ks leaf (object_at (get k m)))

-- Whether two paths part at some segment: neither leads through the other.
unfoldable pub part : String → List String → String → List String → Bool
part k [] l ls = not (k == l)
part k (j ∷ ks) l [] = not (k == l)
part k (j ∷ ks) l (i ∷ ls) = not (k == l) || part j ks i ls

unfoldable pub diverge : String → String → Bool
unfolding part
diverge p q = part (segments p).0 (segments p).1 (segments q).0 (segments q).1

fetch_in-write_ne :
    (k : String) (ks : List String) (l : String) (ls : List String) (leaf : Value) (m : Fields)
    → part k ks l ls ≡ true
    → fetch_in l ls (write k ks leaf m) ≡ fetch_in l ls m
unfolding fetch_in write part
fetch_in-write_ne k [] l [] leaf m h = rw get-insert (ground arith)
fetch_in-write_ne k [] l (i ∷ ls) leaf m h = rw get-insert (ground arith)
fetch_in-write_ne k (j ∷ ks) l [] leaf m h = rw get-insert (ground arith)
fetch_in-write_ne k (j ∷ ks) l (i ∷ ls) leaf m h =
    rw get-insert
      (ground (arith, eq_iff k l, fetch_in-write_ne j ks i ls leaf (object_at (get k m))))

-- After a `set_field_path` that succeeds, its path leads to the leaf.
pub fetch-set_field_path :
    (root : Value) (path : String) (leaf : Value)
    → (set_field_path root path leaf).1 ≡ none
    → fetch path (set_field_path root path leaf).0 ≡ some leaf
unfolding fetch written
fetch-set_field_path (object m) path leaf e =
    let (k, ks) = segments path in
    ground (arith, set_field_path_outcome (object m) path leaf, fetch_in-write k ks leaf m)
fetch-set_field_path root path leaf e = unfold set_field_path in cc e

-- A `set_field_path` leaves every path that parts from its own as it was, whether it succeeds or
-- fails.
pub fetch-set_field_path-diverge :
    (root : Value) (path other : String) (leaf : Value)
    → diverge path other ≡ true
    → fetch other (set_field_path root path leaf).0 ≡ fetch other root
unfolding fetch written diverge
fetch-set_field_path-diverge (object m) path other leaf d =
    let (k, ks) = segments path in
    let (l, ls) = segments other in
    ground (arith, set_field_path_outcome (object m) path leaf, fetch_in-write_ne k ks l ls leaf m)
fetch-set_field_path-diverge root path other leaf d = unfold set_field_path in refl
