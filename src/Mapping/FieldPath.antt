-- ===== src/Mapping/FieldPath.antt =====
-- `set_field_path` of src/mapping.rs. The loop is a recursion on the path's length, so it needs no
-- fuel. It returns the object as it leaves it beside the outcome, since `or_insert` writes before a
-- later round can fail.
pub mod Segments
pub mod Errors
pub mod Readback
use Prim.Native.Char.{code}
use Prim.Native.String
use mathlib.Core.Option
use mathlib.Core.WellFounded.{Acc}
use sinker.Prelude.{
  ℕ, zero, suc, ◌<◌, String, ◌≡◌, ◌⊎◌, inl, inr, Bool, true, false, Option, none, some, nat_eq,
  arith, Option-cases, if◌then◌else◌,
}
use sinker.Json.{Value, object, Fields, empty_object, get, insert}

pub data AddToPathError : Type 0 where
  object_required : Value → AddToPathError

abbrev pub is_dot : ℕ → Bool
is_dot c = nat_eq c b'.'

-- `str::split_once('.')`
unfoldable pub split_once : String → Option (String × String)
split_once String.[] = none
split_once (String.◌∷◌ c s) =
    let rest = Option.map (λ p. (String.◌∷◌ c p.0, p.1)) (split_once s) in
    if is_dot (code c) then some (String.[], s) else rest

abbrev pub size : String → ℕ
size String.[] = 0
size (String.◌∷◌ c s) = suc (size s)

pub split_once-shorter :
    (s : String) (p : String × String) → split_once s ≡ some p → size p.1 < size s
unfolding split_once
split_once-shorter String.[] p e = cc
split_once-shorter (String.◌∷◌ c s) p e = elim (Option-cases (split_once s)) [
  | inl n ↦ ground (arith, n)
  | inr (q, h) ↦ ground (arith, h, split_once-shorter s q h)
]

abbrev pub Shorter : String → String → Type 0
Shorter s t = size s < size t

unfoldable pub Acc-below : (k : ℕ) (s : String) → size s < k → Acc Shorter s
Acc-below zero s h = elim h [ ]
Acc-below (suc k) s h = Acc.intro s (λ t ht. Acc-below k t (omega arith))

unfoldable pub shorter_acc : (s : String) → Acc Shorter s
unfolding Acc-below
shorter_acc s = Acc-below (suc (size s)) s (omega arith)

-- `map.entry(field).or_insert(json!({}))`
unfoldable pub entry_or_insert : String → Fields → Value
entry_or_insert k m = Option.get_or (get k m) empty_object

-- The match on the entry: an object is entered, and what the later rounds leave there is in the map;
-- anything else ends the loop, with the map as it was.
unfoldable pub descend : String → Fields → Value → (Fields → Fields × Bool) → Fields × Bool
descend k m (object inner) go = let (inner', done) = go inner in (insert k (object inner') m, done)
descend k m _ go = (m, false)

abbrev pub SplitOnce : String → Type 0
SplitOnce path = (split_once path ≡ none) ⊎ ((p : String × String) × (split_once path ≡ some p))

-- One round of the loop; `go` is the rest of it.
abbrev pub round :
    (path : String)
    → SplitOnce path
    → ((rest : String) → Shorter rest path → Fields → Fields × Bool)
    → Value
    → Fields
    → Fields × Bool
round path (inl _) go leaf m = (insert path leaf m, true)
round path (inr (p, e)) go leaf m =
    descend p.0 m (entry_or_insert p.0 m) (go p.1 (split_once-shorter path p e))

unfoldable pub walk : (path : String) → Acc Shorter path → Value → Fields → Fields × Bool
unfolding descend entry_or_insert
walk path (Acc.intro _ smaller) leaf m =
    round path (Option-cases (split_once path))
      (λ rest lt inner. walk rest (smaller rest lt) leaf inner) leaf m

-- The root as the call leaves it, and the error it returns.
unfoldable pub set_field_path : Value → String → Value → Value × Option AddToPathError
unfolding walk shorter_acc
set_field_path (object m) path leaf =
    let (m', done) = walk path (shorter_acc path) leaf m in
    let root = object m' in (root, if done then none else some (object_required root))
set_field_path root path leaf = (root, some (object_required root))
