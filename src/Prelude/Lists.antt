-- ===== src/Prelude/Lists.antt =====
-- Lists by their Boolean tests, over the native numbers.
use Prim.Native.Nat.{ℕ, suc}
use mathlib.Core.Path.{◌≡◌, refl}
use mathlib.Core.Bool.{Bool, true, false, not, ◌&&◌, ◌||◌}
use mathlib.Core.List.{List, [], ◌∷◌, ◌++◌}
use mathlib.Core.Option.{Option, none, some}
use native.Mathlib.Omega.{arith}
use sinker.Prelude.Tests.{if◌then◌else◌}

module _ {ℓ} {A : Type ℓ} where
  abbrev pub length : List A → ℕ
  length [] = 0
  length (x ∷ xs) = suc (length xs)

  -- `Iterator::any`, `Iterator::all`, `Vec::retain` and `Iterator::find`.
  abbrev pub any : (A → Bool) → List A → Bool
  any p [] = false
  any p (x ∷ xs) = p x || any p xs

  abbrev pub all : (A → Bool) → List A → Bool
  all p [] = true
  all p (x ∷ xs) = p x && all p xs

  abbrev pub retain : (A → Bool) → List A → List A
  retain p [] = []
  retain p (x ∷ xs) = let rest = retain p xs in if p x then x ∷ rest else rest

  abbrev pub find : (A → Bool) → List A → Option A
  find p [] = none
  find p (x ∷ xs) = let rest = find p xs in if p x then some x else rest

module _ {ℓ} {A : Type ℓ} (p : A → Bool) where
  pub any-append : (xs ys : List A) → any p (xs ++ ys) ≡ (any p xs || any p ys)
  any-append [] ys = refl
  any-append (x ∷ xs) ys = ground (arith, any-append xs ys)

  -- Retaining what fails a test leaves nothing that passes it.
  pub any-retain-not : (xs : List A) → any p (retain (λ x. not (p x)) xs) ≡ false
  any-retain-not [] = refl
  any-retain-not (x ∷ xs) = ground (arith, any-retain-not xs)

module _ {ℓ} {A : Type ℓ} (p q : A → Bool) where
  -- A test that implies the one retained by sees the same elements.
  pub any-retain :
      ((x : A) → q x ≡ true → p x ≡ true) → (xs : List A) → any q (retain p xs) ≡ any q xs
  any-retain h [] = refl
  any-retain h (x ∷ xs) = ground (arith, any-retain h xs, h x)
