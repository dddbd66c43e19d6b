-- ===== src/Base/Errors.antt =====
-- Go's `error` values and the results of fallible functions.
use Prim.Native.String.{String}
use mathlib.Core.Path.{◌≡◌, refl}
use mathlib.Core.Logic.{◌⊎◌, inl, inr}
use mathlib.Core.List.{List, [], ◌∷◌}
use Prim.Native.Nat.{ℕ}

pub data Error : Type 0 where
  -- a NotFound status error of the API machinery
  not_found : Error
  -- any other error that a lister, a client or a library call returns
  external : List ℕ → Error
  -- `fmt.Errorf` with no `%w`: the format and the formatted arguments
  errorf : String → List (List ℕ) → Error
  -- `fmt.Errorf` with `%w`
  wrapped : String → Error → Error
  -- `accessor.Error{err, errorReason}`
  accessor_error : Error → List ℕ → Error

pub data Result {ℓ} (A : Type ℓ) : Type ℓ where
  -- no value and an error
  err : Error → Result A
  -- a value and nil
  ok : A → Result A

infixl 5 ◌>>=◌
-- `if err != nil { return err }`
abbrev pub ◌>>=◌ {κ ℓ} : {B : Type κ} {A : Type ℓ} → Result A → (A → Result B) → Result B
err failure >>= next = err failure
ok value >>= next = next value

-- `if err != nil { return fmt.Errorf("…: %w", err) }`
abbrev pub wrap_error {ℓ} : {A : Type ℓ} → String → Result A → Result A
wrap_error message (ok a) = ok a
wrap_error message (err e) = err (wrapped message e)

module _ {ℓ κ} {A : Type ℓ} {B : Type κ} where
  -- `for … { y, err := f(x); if err != nil { return nil, err }; ys = append(ys, y) }`
  unfoldable pub map_result : (A → Result B) → List A → Result (List B)
  map_result f [] = ok []
  map_result f (x ∷ xs) = do y ← f x; ys ← map_result f xs; ok (y ∷ ys)

  -- A call chain that succeeds has succeeded at its first call.
  pub >>=-eq-ok :
      (first : Result A) (next : A → Result B) {last : B}
      → (first >>= next) ≡ ok last
      → (value : A) × (first ≡ ok value) × (next value ≡ ok last)
  >>=-eq-ok (err failure) next same = cc
  >>=-eq-ok (ok value) next same = (value, refl, same)

pub wrap_error-eq-ok {ℓ} :
    {A : Type ℓ} (message : String) (r : Result A) {a : A} → wrap_error message r ≡ ok a → r ≡ ok a
wrap_error-eq-ok message (ok a) h = h
wrap_error-eq-ok message (err e) h = cc

pub Result-cases {ℓ} :
    {A : Type ℓ} (r : Result A) → ((a : A) × (r ≡ ok a)) ⊎ ((e : Error) × (r ≡ err e))
Result-cases (ok a) = inl (a, refl)
Result-cases (err e) = inr (e, refl)
