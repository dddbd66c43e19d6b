-- ===== src/Base/Members.antt =====
-- Membership by recursion on the list, which the tactics take apart, and its Boolean form.
use mathlib.Core.Path.{◌≡◌, refl, ap}
use mathlib.Core.Bool.{Bool, true, ◌&&◌, ◌||◌}
use mathlib.Core.Logic.{◌⊎◌, inl, inr}
use mathlib.Core.List.{List, [], ◌∷◌, map, ◌++◌}
use native.Mathlib.Omega.{arith}
use knative_extensions_net_i.Base.Tests.{Bool-cases}
use knative_extensions_net_i.Base.Lists.{all, any, keep}

-- The type with no value, at any level.
pub data Never {ℓ} : Type ℓ where

module _ {ℓ} {A : Type ℓ} where
  abbrev pub Member : A → List A → Type ℓ
  Member x [] = Never
  Member x (y ∷ ys) = (x ≡ y) ⊎ Member x ys

  pub any_of_Member :
      (p : A → Bool) (x : A) (xs : List A) → Member x xs → p x ≡ true → any p xs ≡ true
  unfolding any
  any_of_Member p x [] m h = elim m [ ]
  any_of_Member p x (y ∷ ys) (inl e) h = rw (← e, h)
  any_of_Member p x (y ∷ ys) (inr m) h = ground (arith, any_of_Member p x ys m h)

  pub Member-of_any :
      (p : A → Bool) (xs : List A) → any p xs ≡ true → (x : A) × Member x xs × (p x ≡ true)
  unfolding any
  Member-of_any p [] h = absurd (ground arith)
  Member-of_any p (y ∷ ys) h = elim (Bool-cases (p y)) [
    | inl e ↦ (y, inl refl, e)
    | inr e ↦ let (x, m, k) = Member-of_any p ys (ground arith) in (x, inr m, k)
  ]

  pub all_of_Member :
      (p : A → Bool) (xs : List A) → ((x : A) → Member x xs → p x ≡ true) → all p xs ≡ true
  unfolding all
  all_of_Member p [] h = refl
  all_of_Member p (y ∷ ys) h =
      ground (arith, h y (inl refl), all_of_Member p ys (λ x m. h x (inr m)))

  pub Member-all : (p : A → Bool) (x : A) (xs : List A) → all p xs ≡ true → Member x xs → p x ≡ true
  unfolding all
  Member-all p x [] h m = elim m [ ]
  Member-all p x (y ∷ ys) h (inl e) = rw e (ground arith)
  Member-all p x (y ∷ ys) h (inr m) = Member-all p x ys (ground arith) m

  pub Member-keep :
      (p : A → Bool) (x : A) (xs : List A) → Member x xs → p x ≡ true → Member x (keep p xs)
  unfolding keep
  Member-keep p x [] m h = m
  Member-keep p x (y ∷ ys) (inl e) h = rw (← e, h) (inl refl)
  Member-keep p x (y ∷ ys) (inr m) h = elim (Bool-cases (p y)) [
    | inl k ↦ rw k (inr (Member-keep p x ys m h))
    | inr k ↦ rw k (Member-keep p x ys m h)
  ]

  pub keep_cong :
      (p q : A → Bool) (xs : List A) → ((x : A) → Member x xs → p x ≡ q x) → keep p xs ≡ keep q xs
  unfolding keep
  keep_cong p q [] h = refl
  keep_cong p q (y ∷ ys) h = ground (arith, h y (inl refl), keep_cong p q ys (λ x m. h x (inr m)))

  pub keep-keep : (p q : A → Bool) (xs : List A) → keep p (keep q xs) ≡ keep (λ x. p x && q x) xs
  unfolding keep
  keep-keep p q [] = refl
  keep-keep p q (y ∷ ys) = ground (arith, keep-keep p q ys)

module _ {ℓ} {A : Type ℓ} where
  pub Member-append_left : (x : A) (xs ys : List A) → Member x xs → Member x (xs ++ ys)
  Member-append_left x [] ys m = elim m [ ]
  Member-append_left x (z ∷ xs) ys (inl e) = inl e
  Member-append_left x (z ∷ xs) ys (inr m) = inr (Member-append_left x xs ys m)

  pub Member-append_right : (x : A) (xs ys : List A) → Member x ys → Member x (xs ++ ys)
  Member-append_right x [] ys m = m
  Member-append_right x (z ∷ xs) ys m = inr (Member-append_right x xs ys m)

module _ {ℓ κ} {A : Type ℓ} {B : Type κ} where
  pub any-map : (p : B → Bool) (f : A → B) (xs : List A) → any p (map f xs) ≡ any (λ x. p (f x)) xs
  unfolding any
  any-map p f [] = refl
  any-map p f (x ∷ xs) = ap (λ (b : Bool). p (f x) || b) (any-map p f xs)

  pub Member-map : (f : A → B) (x : A) (xs : List A) → Member x xs → Member (f x) (map f xs)
  Member-map f x [] m = elim m [ ]
  Member-map f x (y ∷ ys) (inl e) = inl (ap f e)
  Member-map f x (y ∷ ys) (inr m) = inr (Member-map f x ys m)

-- A member of a concatenation is in either part.
pub Member-append_cases {ℓ} :
    {A : Type ℓ} (x : A) (xs ys : List A) → Member x (xs ++ ys) → Member x xs ⊎ Member x ys
Member-append_cases x [] ys m = inr m
Member-append_cases x (z ∷ xs) ys (inl e) = inl (inl e)
Member-append_cases x (z ∷ xs) ys (inr m) = elim (Member-append_cases x xs ys m) [
  | inl a ↦ inl (inr a)
  | inr b ↦ inr b
]
