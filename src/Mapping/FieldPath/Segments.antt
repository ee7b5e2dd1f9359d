-- ===== src/Mapping/FieldPath/Segments.antt =====
-- The loop of `set_field_path` against a recursion over the path's segments.
use Prim.Native.Char.{Char, code}
use mathlib.Core.Path.{fun_ext}
use mathlib.Core.WellFounded.{Acc}
use sinker.Prelude.{
  String, ◌≡◌, refl, ap, inl, inr, Bool, true, none, some, List, [], ◌∷◌, arith, Option-cases,
  if◌then◌else◌,
}
use sinker.Json.{Value, object, Fields, insert}
use sinker.Mapping.FieldPath.{
  is_dot, split_once, Shorter, entry_or_insert, descend, SplitOnce, round, walk, set_field_path,
  shorter_acc, object_required,
}

-- The first segment of a path and the ones after it, as `str::split('.')` yields them.
abbrev pub Segments : Type 0
Segments = String × List String

abbrev cut : Char → Segments → Segments
cut c p = if is_dot (code c) then (String.[], p.0 ∷ p.1) else (String.◌∷◌ c p.0, p.1)

unfoldable pub segments : String → Segments
segments String.[] = (String.[], [])
segments (String.◌∷◌ c s) = cut c (segments s)

-- The loop's effect by recursion on the segments.
unfoldable pub put : String → List String → Value → Fields → Fields × Bool
put k [] leaf m = (insert k leaf m, true)
put k (j ∷ ks) leaf m = descend k m (entry_or_insert k m) (put j ks leaf)

segments_last : (s : String) → split_once s ≡ none → segments s ≡ (s, [])
unfolding split_once segments
segments_last String.[] e = refl
segments_last (String.◌∷◌ c s) e = elim (Option-cases (split_once s)) [
  | inl n ↦ ground (arith, n, segments_last s n)
  | inr (q, h) ↦ ground (arith, h)
]

segments_step :
    (s : String) (p : String × String)
    → split_once s ≡ some p
    → segments s ≡ (p.0, (segments p.1).0 ∷ (segments p.1).1)
unfolding split_once segments
segments_step String.[] p e = cc
segments_step (String.◌∷◌ c s) p e = elim (Option-cases (split_once s)) [
  | inl n ↦ ground (arith, n)
  | inr (q, h) ↦ ground (arith, h, segments_step s q h)
]

-- A round of the loop is a step of the recursion, if the later rounds are.
round-eq-put :
    (path : String) (split : SplitOnce path) (leaf : Value)
    (go : (rest : String) → Shorter rest path → Fields → Fields × Bool) (m : Fields)
    → ((rest : String) (lt : Shorter rest path) (inner : Fields)
        → go rest lt inner ≡ put (segments rest).0 (segments rest).1 leaf inner)
    → round path split go leaf m ≡ put (segments path).0 (segments path).1 leaf m
unfolding put
round-eq-put path (inl e) leaf go m h = rw (segments_last path e)
round-eq-put path (inr (p, e)) leaf go m h =
    rw (segments_step path p e) (ap (descend p.0 m (entry_or_insert p.0 m)) (fun_ext (h p.1 _)))

walk-eq-put :
    (path : String) (w : Acc Shorter path) (leaf : Value) (m : Fields)
    → walk path w leaf m ≡ put (segments path).0 (segments path).1 leaf m
unfolding walk
walk-eq-put path (Acc.intro _ smaller) leaf m =
    round-eq-put path (Option-cases (split_once path)) leaf _ m
      λ rest lt inner. walk-eq-put rest (smaller rest lt) leaf inner

-- What `set_field_path` does to an object: the loop's recursion, and the error's value.
pub set_field_path-object :
    (m : Fields) (path : String) (leaf : Value)
    → let (m', done) = put (segments path).0 (segments path).1 leaf m in
      set_field_path (object m) path leaf
      ≡ (object m', if done then none else some (object_required (object m')))
unfolding set_field_path
set_field_path-object m path leaf = rw (walk-eq-put path (shorter_acc path) leaf m)
