-- ===== src/Result.antt =====
-- The outcome of a call: its value, an error, or a panic, which unwinds through `?` and `match` alike.
use sinker.Prelude.{◌≡◌, refl, Option, none, some, arith, Bool, true, false}

pub data Result {ℓ} (E A : Type ℓ) : Type ℓ where
  ok : A → Result E A
  err : E → Result E A
  panic : Result E A

-- `?` in a chain of calls
module _ {ℓ} {E A B : Type ℓ} where
  infixl 5 ◌>>=◌
  abbrev pub ◌>>=◌ : Result E A → (A → Result E B) → Result E B
  panic >>= next = panic
  err failure >>= next = err failure
  ok value >>= next = next value

-- `map_err`, and the `From` conversion that `?` applies
abbrev pub map_err {ℓ} : {E F A : Type ℓ} → (E → F) → Result E A → Result F A
map_err g (ok a) = ok a
map_err g (err e) = err (g e)
map_err g panic = panic

-- `Option::ok_or`, `Option::unwrap`
abbrev pub ok_or {ℓ} : {E A : Type ℓ} → Option A → E → Result E A
ok_or none e = err e
ok_or (some a) e = ok a

abbrev pub unwrap {ℓ} : {E A : Type ℓ} → Option A → Result E A
unwrap none = panic
unwrap (some a) = ok a

-- `Result::is_err`
abbrev pub is_err {ℓ} : {E A : Type ℓ} → Result E A → Bool
is_err (err e) = true
is_err _ = false

-- A chain that succeeds has a first call that does, and goes on with its value.
module _ {ℓ} {E A B : Type ℓ} where
  pub >>=-eq-ok :
      (r : Result E A) (next : A → Result E B) {b : B}
      → (r >>= next) ≡ ok b
      → (value : A) × (r ≡ ok value) × (next value ≡ ok b)
  >>=-eq-ok panic next succeeded = cc
  >>=-eq-ok (err failure) next succeeded = cc
  >>=-eq-ok (ok value) next succeeded = (value, refl, succeeded)

pub map_err-eq-ok {ℓ} :
    {E F A : Type ℓ} (g : E → F) (m : Result E A) {a : A} → map_err g m ≡ ok a → m ≡ ok a
map_err-eq-ok g (ok a) h = ground arith
map_err-eq-ok g (err e) h = cc
map_err-eq-ok g panic h = cc

pub >>=_assoc {ℓ} :
    {E A B C : Type ℓ} (m : Result E A) (f : A → Result E B) (g : B → Result E C)
    → ((m >>= f) >>= g) ≡ (m >>= λ a. f a >>= g)
>>=_assoc (ok a) f g = refl
>>=_assoc (err e) f g = refl
>>=_assoc panic f g = refl

pub ok_or-eq-ok {ℓ} : {E A : Type ℓ} (o : Option A) (e : E) {a : A} → ok_or o e ≡ ok a → o ≡ some a
ok_or-eq-ok none e h = cc
ok_or-eq-ok (some a) e h = ground arith

-- To split on an outcome and keep the equation.
pub data Outcome {ℓ} {E A : Type ℓ} (r : Result E A) : Type ℓ where
  is_ok : (a : A) → r ≡ ok a → Outcome r
  is_error : (e : E) → r ≡ err e → Outcome r
  is_panic : r ≡ panic → Outcome r

pub Result-cases {ℓ} : {E A : Type ℓ} (r : Result E A) → Outcome r
Result-cases (ok a) = is_ok a refl
Result-cases (err e) = is_error e refl
Result-cases panic = is_panic refl
