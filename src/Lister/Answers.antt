-- ===== src/Lister/Answers.antt =====
-- Chains of calls that may fail or panic.
use knative_extensions_net_i.Base.{◌≡◌, ◌≢◌, refl, ok, err, Result, inl, inr, ◌⊎◌}
use knative_extensions_net_i.Lister.{Answer, value, failure, panic, answer, ◌>>=◌}

-- A call chain gives a value only if each call does, and panics only if one does.
pub >>=-eq-value {ℓ κ} :
    {A : Type ℓ} {B : Type κ} (first : Answer A) (next : A → Answer B) {last : B}
    → (first >>= next) ≡ value last
    → (a : A) × (first ≡ value a) × (next a ≡ value last)
>>=-eq-value (failure e) next h = cc
>>=-eq-value panic next h = cc
>>=-eq-value (value a) next h = (a, refl, h)

pub >>=-eq-panic {ℓ κ} :
    {A : Type ℓ} {B : Type κ} (first : Answer A) (next : A → Answer B)
    → (first >>= next) ≡ panic
    → (first ≡ panic) ⊎ ((a : A) × (first ≡ value a) × (next a ≡ panic))
>>=-eq-panic (failure e) next h = cc
>>=-eq-panic panic next h = inl refl
>>=-eq-panic (value a) next h = inr (a, refl, h)

pub answer-ne-panic {ℓ} : {A : Type ℓ} (r : Result A) → answer r ≢ panic
answer-ne-panic (ok a) h = cc
answer-ne-panic (err e) h = cc

pub answer-eq-value {ℓ} : {A : Type ℓ} (r : Result A) {a : A} → answer r ≡ value a → r ≡ ok a
answer-eq-value (ok a) h = cc
answer-eq-value (err e) h = cc
