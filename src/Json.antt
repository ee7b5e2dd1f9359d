-- ===== src/Json.antt =====
-- `serde_json::Value` as the program uses it (src/mapping.rs): the variants, `value[key]`, `as_str`,
-- and `Map`'s `get`, `insert` and `remove`. An object is an association list, of which the program
-- never observes the order. A number is carried as its text, since no code inspects one.
pub mod Laws
use sinker.Prelude.{String, Bool, Option, none, some, ◌==◌, if◌then◌else◌}

mutual
  pub data Value : Type 0 where
    null : Value
    bool : Bool → Value
    number : String → Value
    string : String → Value
    array : Items → Value
    object : Fields → Value

  pub data Items : Type 0 where
    nil : Items
    cons : Value → Items → Items

  pub data Fields : Type 0 where
    end : Fields
    field : String → Value → Fields → Fields

-- `Map::get`
unfoldable pub get : String → Fields → Option Value
get k end = none
get k (field j v m) = if j == k then some v else get k m

-- `Map::insert`: an existing key keeps its place.
unfoldable pub insert : String → Value → Fields → Fields
insert k v end = field k v end
insert k v (field j w m) = if j == k then field k v m else field j w (insert k v m)

-- `Map::remove`
unfoldable pub remove : String → Fields → Fields
remove k end = end
remove k (field j v m) = let rest = remove k m in if j == k then rest else field j v rest

abbrev or_null : Option Value → Value
or_null none = null
or_null (some v) = v

-- `value[key]`: null where the value is no object or lacks the key.
unfoldable pub index : Value → String → Value
unfolding get
index (object m) k = or_null (get k m)
index _ k = null

-- `Value::as_str`
abbrev pub as_str : Value → Option String
as_str (string s) = some s
as_str _ = none

-- `json!({})`
abbrev pub empty_object : Value
empty_object = object end
