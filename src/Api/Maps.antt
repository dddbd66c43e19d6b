-- ===== src/Api/Maps.antt =====
-- Go maps with string keys: `m[k]`, `m[k] = v`, and the laws by which the proofs use them.
use knative_extensions_net_i.Base.{
  ◌≡◌, refl, Bool, true, false, List, [], ◌∷◌, Option, none, some, arith, if◌then◌else◌, Bool-cases,
  inl, inr, ◌||◌,
}
use knative_extensions_net_i.GoString.{GoString, str_eq, str_eq→eq, str_eq_refl, str_eq_iff}

abbrev pub GoMap {ℓ} : Type ℓ → Type ℓ
GoMap V = List (GoString × V)

abbrev pub StringMap : Type 0
StringMap = GoMap GoString

module _ {ℓ} {V : Type ℓ} where
  -- `v, ok := m[k]`
  unfoldable pub lookup : GoString → GoMap V → Option V
  lookup k [] = none
  lookup k ((j, v) ∷ m) = if str_eq j k then some v else lookup k m

  -- `m[k] = v`
  unfoldable pub insert : GoString → V → GoMap V → GoMap V
  insert k v [] = (k, v) ∷ []
  insert k v ((j, w) ∷ m) = if str_eq j k then (k, v) ∷ m else (j, w) ∷ insert k v m

  -- `_, ok := m[k]`
  unfoldable pub has_key : GoString → GoMap V → Bool
  has_key k [] = false
  has_key k ((j, v) ∷ m) = if str_eq j k then true else has_key k m

  pub lookup-insert :
      (k j : GoString) (v : V) (m : GoMap V)
      → lookup j (insert k v m) ≡ (if str_eq k j then some v else lookup j m)
  unfolding lookup insert
  lookup-insert k j v [] = refl
  lookup-insert k j v ((i, w) ∷ m) = elim (Bool-cases (str_eq i k)) [
    | inl e ↦ rw (str_eq→eq i k e, str_eq_refl k) (ground arith)
    | inr e ↦
        rw e (ground (arith, lookup-insert k j v m, str_eq_iff i j, str_eq_iff k j, str_eq_iff i k))
  ]

module _ {ℓ} {V : Type ℓ} where
  pub lookup_of_has_key :
      (k : GoString) (m : GoMap V) → has_key k m ≡ true → (v : V) × (lookup k m ≡ some v)
  unfolding lookup has_key
  lookup_of_has_key k [] h = absurd (ground arith)
  lookup_of_has_key k ((j, v) ∷ m) h = elim (Bool-cases (str_eq j k)) [
    | inl e ↦ (v, rw e refl)
    | inr e ↦ let (w, f) = lookup_of_has_key k m (rw e at h) in (w, rw e f)
  ]

module _ {ℓ} {V : Type ℓ} where
  pub has_key-insert :
      (k j : GoString) (v : V) (m : GoMap V)
      → has_key j (insert k v m) ≡ (str_eq k j || has_key j m)
  unfolding has_key insert
  has_key-insert k j v [] = ground arith
  has_key-insert k j v ((i, w) ∷ m) = elim (Bool-cases (str_eq i k)) [
    | inl e ↦ rw (str_eq→eq i k e, str_eq_refl k) (ground arith)
    | inr e ↦ rw e (ground (arith, has_key-insert k j v m))
  ]

-- `m[k]` of a map of strings: "" for a missing key
unfoldable pub get : GoString → StringMap → GoString
unfolding lookup
get k m = elim (lookup k m) [ none ↦ [] | some v ↦ v ]

pub get-insert :
    (k j : GoString) (v : GoString) (m : StringMap)
    → get j (insert k v m) ≡ (if str_eq k j then v else get j m)
unfolding get
get-insert k j v m = ground (arith, lookup-insert k j v m)

module _ {ℓ} {V : Type ℓ} where
  -- the entries whose key passes a test, in order
  unfoldable pub filter_keys : (GoString → Bool) → GoMap V → GoMap V
  filter_keys p [] = []
  filter_keys p ((j, v) ∷ m) = let rest = filter_keys p m in if p j then (j, v) ∷ rest else rest

  pub lookup-filter_keys :
      (p : GoString → Bool) (k : GoString) (m : GoMap V)
      → lookup k (filter_keys p m) ≡ (if p k then lookup k m else none)
  unfolding lookup filter_keys
  lookup-filter_keys p k [] = ground arith
  lookup-filter_keys p k ((j, v) ∷ m) = elim (Bool-cases (str_eq j k)) [
    | inl e ↦
        rw (str_eq→eq j k e, str_eq_refl k)
          (ground (arith, lookup-filter_keys p k m, str_eq_refl k))
    | inr e ↦ ground (arith, lookup-filter_keys p k m)
  ]
