-- ===== src/Json/Laws.antt =====
-- The laws of an object's keys.
use sinker.Prelude.{String, ◌≡◌, none, some, arith, ◌==◌, eq_iff, if◌then◌else◌}
use sinker.Json.{Value, Fields, end, field, get, insert, remove}

pub get-insert :
    (k j : String) (v : Value) (m : Fields)
    → get j (insert k v m) ≡ (if k == j then some v else get j m)
unfolding get insert
get-insert k j v end = ground (arith, eq_iff k j)
get-insert k j v (field i w m) =
    ground (arith, get-insert k j v m, eq_iff k j, eq_iff i k, eq_iff i j)

pub get-remove :
    (k j : String) (m : Fields) → get j (remove k m) ≡ (if k == j then none else get j m)
unfolding get remove
get-remove k j end = ground arith
get-remove k j (field i v m) = ground (arith, get-remove k j m, eq_iff i k, eq_iff i j, eq_iff k j)
