-- ===== src/Filters/Latest.antt =====
-- Which entry decides `was_last_modified_by` of src/filters.rs.

use sinker.Prelude.{
  ℕ, String, ◌≡◌, refl, Bool, true, false, not, Option, none, some, List, [], ◌∷◌, ◌++◌, any, all,
  leb, arith, Option-cases, inl, inr,
}
use sinker.Kube.{ManagedFieldsEntry, ObjectMeta}
use sinker.Filters.{is_none, max_from, max_by_time, is_manager, was_last_modified_by}

-- An entry with a time, at most or before a given one.
abbrev pub at_most : ℕ → ManagedFieldsEntry → Bool
at_most t e = elim e.time [ none ↦ false | some u ↦ leb u t ]

abbrev pub before : ℕ → ManagedFieldsEntry → Bool
before t e = elim e.time [ none ↦ false | some u ↦ not (leb t u) ]

module _ (e : ManagedFieldsEntry) (t : ℕ) (at : e.time ≡ some t) where
  max_from-before : (ys : List ManagedFieldsEntry) → all (before t) ys ≡ true → max_from e ys ≡ e
  unfolding max_from
  max_from-before [] h = refl
  max_from-before (y ∷ ys) h = ground (arith, at, max_from-before ys)

  max_from_latest :
      (best : ManagedFieldsEntry) (xs ys : List ManagedFieldsEntry)
      → at_most t best ≡ true
      → all (at_most t) xs ≡ true
      → all (before t) ys ≡ true
      → max_from best (xs ++ e ∷ ys) ≡ e
  unfolding max_from
  max_from_latest best [] ys hb hx hy = ground (arith, at, max_from-before ys)
  max_from_latest best (x ∷ xs) ys hb hx hy =
      ground (arith, max_from_latest best xs ys, max_from_latest x xs ys)

  timed_before :
      (ys : List ManagedFieldsEntry)
      → all (before t) ys ≡ true
      → any (λ e. is_none e.time) ys ≡ false
  timed_before [] h = refl
  timed_before (y ∷ ys) h = ground (arith, timed_before ys)

  timed :
      (xs ys : List ManagedFieldsEntry)
      → all (at_most t) xs ≡ true
      → all (before t) ys ≡ true
      → any (λ e. is_none e.time) (xs ++ e ∷ ys) ≡ false
  timed [] ys hx hy = ground (arith, at, timed_before ys)
  timed (x ∷ xs) ys hx hy = ground (arith, timed xs ys)

  max_by_time_latest :
      (xs ys : List ManagedFieldsEntry)
      → all (at_most t) xs ≡ true
      → all (before t) ys ≡ true
      → max_by_time (xs ++ e ∷ ys) ≡ some e
  unfolding max_by_time
  max_by_time_latest [] ys hx hy = ground (arith, max_from-before ys)
  max_by_time_latest (x ∷ xs) ys hx hy = ground (arith, max_from_latest x xs ys)

  -- Where `e` has a time, no entry is later, and those behind it are earlier, the answer is
  -- whether `e` is the manager's.
  pub was_last_modified_by_latest :
      (meta : ObjectMeta) (manager : String) (xs ys : List ManagedFieldsEntry)
      → meta.managed_fields ≡ some (xs ++ e ∷ ys)
      → all (at_most t) xs ≡ true
      → all (before t) ys ≡ true
      → was_last_modified_by meta manager ≡ some (is_manager e.manager manager)
  unfolding was_last_modified_by
  was_last_modified_by_latest meta manager xs ys f hx hy =
      rw (f, timed xs ys hx hy, max_by_time_latest xs ys hx hy)

-- Whether there are entries, all with a time.
unfoldable pub is_dated : Option (List ManagedFieldsEntry) → Bool
is_dated none = false
is_dated (some []) = false
is_dated (some (e ∷ es)) = not (any (λ x. is_none x.time) (e ∷ es))

-- There is an answer exactly when there are entries and each has a time.
pub was_last_modified_by-is_none :
    (meta : ObjectMeta) (manager : String)
    → is_none (was_last_modified_by meta manager) ≡ not (is_dated meta.managed_fields)
unfolding was_last_modified_by is_dated
was_last_modified_by-is_none meta manager = elim (Option-cases meta.managed_fields) [
  | inl n ↦ rw n
  | inr ([], h) ↦ rw h
  | inr (e ∷ es, h) ↦ rw h (ground arith)
]
