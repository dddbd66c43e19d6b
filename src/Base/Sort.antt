-- ===== src/Base/Sort.antt =====
-- `sort.Slice` and `sort.Strings`: insertion sort by a strict Boolean order. Where two elements
-- compare as equal Go leaves their order open; this is the stable choice.
use mathlib.Core.Path.{◌≡◌, refl, ap, ◌∙◌}
use mathlib.Core.Bool.{Bool, true, false, not, ◌&&◌, ◌||◌}
use mathlib.Core.List.{List, [], ◌∷◌, Perm}
use mathlib.Core.List.Perm
use native.Mathlib.Omega.{arith}
use knative_extensions_net_i.Base.Tests.{if◌then◌else◌, Bool-cases}
use knative_extensions_net_i.Base.Lists.{all, any, keep, all_imp, length}
use mathlib.Core.Logic.{inl, inr}
use knative_extensions_net_i.Base.Members.{Member}

module _ {ℓ} {A : Type ℓ} (less : A → A → Bool) where
  unfoldable pub insert : A → List A → List A
  insert x [] = x ∷ []
  insert x (y ∷ ys) = let later = insert x ys in if less y x then y ∷ later else x ∷ y ∷ ys

  unfoldable pub sort : List A → List A
  unfolding insert
  sort [] = []
  sort (x ∷ xs) = insert x (sort xs)

  -- No later element is below an earlier one.
  abbrev pub IsSorted : List A → Type 0
  IsSorted [] = Unit
  IsSorted (x ∷ xs) = (all (λ y. not (less y x)) xs ≡ true) × IsSorted xs

  insert-perm : (x : A) (xs : List A) → Perm (insert x xs) (x ∷ xs)
  unfolding insert
  insert-perm x [] = Perm.refl (x ∷ [])
  insert-perm x (y ∷ ys) = elim (Bool-cases (less y x)) [
    | inl e ↦ rw e (Perm.trans (Perm.cons y (insert-perm x ys)) (Perm.swap x y ys))
    | inr e ↦ rw e (Perm.refl (x ∷ y ∷ ys))
  ]

  pub sort-perm : (xs : List A) → Perm (sort xs) xs
  unfolding sort
  sort-perm [] = Perm.refl []
  sort-perm (x ∷ xs) = Perm.trans (insert-perm x (sort xs)) (Perm.cons x (sort-perm xs))

  all-insert : (p : A → Bool) (x : A) (xs : List A) → all p (insert x xs) ≡ (p x && all p xs)
  unfolding insert all
  all-insert p x [] = refl
  all-insert p x (y ∷ ys) = ground (arith, all-insert p x ys)

  pub all-sort : (p : A → Bool) (xs : List A) → all p (sort xs) ≡ all p xs
  unfolding sort all
  all-sort p [] = refl
  all-sort p (x ∷ xs) = all-insert p x (sort xs) ∙ ap (λ (b : Bool). p x && b) (all-sort p xs)

  any-insert : (p : A → Bool) (x : A) (xs : List A) → any p (insert x xs) ≡ (p x || any p xs)
  unfolding insert any
  any-insert p x [] = refl
  any-insert p x (y ∷ ys) = ground (arith, any-insert p x ys)

  pub any-sort : (p : A → Bool) (xs : List A) → any p (sort xs) ≡ any p xs
  unfolding sort any
  any-sort p [] = refl
  any-sort p (x ∷ xs) = any-insert p x (sort xs) ∙ ap (λ (b : Bool). p x || b) (any-sort p xs)

  pub length-insert : (x : A) (xs : List A) → length (insert x xs) ≡ length (x ∷ xs)
  unfolding insert
  length-insert x [] = refl
  length-insert x (y ∷ ys) = ground (arith, length-insert x ys)

  pub length-sort : (xs : List A) → length (sort xs) ≡ length xs
  unfolding sort
  length-sort [] = refl
  length-sort (x ∷ xs) = omega (arith, length-insert x (sort xs), length-sort xs)

  -- What the order needs for the result to be sorted: `<` is asymmetric, and its negation is
  -- transitive.
  module _ (asym : (x y : A) → less x y ≡ true → less y x ≡ false)
      (trans : (x y z : A) → less y x ≡ false → less z y ≡ false → less z x ≡ false) where
    not-less_all :
        (x y : A) (ys : List A)
        → less y x ≡ false
        → all (λ z. not (less z y)) ys ≡ true
        → all (λ z. not (less z x)) ys ≡ true
    not-less_all x y ys h =
        all_imp (λ z. not (less z y)) (λ z. not (less z x)) ys λ z k. ground (arith, trans x y z)

    insert-IsSorted : (x : A) (xs : List A) → IsSorted xs → IsSorted (insert x xs)
    unfolding insert all
    insert-IsSorted x [] s = (refl, tt)
    insert-IsSorted x (y ∷ ys) s = elim (Bool-cases (less y x)) [
      | inl e ↦
          rw e
            (rw (all-insert (λ z. not (less z y)) x ys, asym y x e) s.0, insert-IsSorted x ys s.1)
      | inr e ↦ rw e ((rw e (not-less_all x y ys e s.0)), s)
    ]

    pub sort-IsSorted : (xs : List A) → IsSorted (sort xs)
    unfolding sort
    sort-IsSorted [] = tt
    sort-IsSorted (x ∷ xs) = insert-IsSorted x (sort xs) (sort-IsSorted xs)

    -- Every element left is not below `x`, so `x` comes first.
    insert_least :
        (x : A) (xs : List A) → all (λ z. not (less z x)) xs ≡ true → insert x xs ≡ x ∷ xs
    unfolding insert all
    insert_least x [] h = refl
    insert_least x (y ∷ ys) h = ground arith

    all-keep_of_all : (p q : A → Bool) (xs : List A) → all q xs ≡ true → all q (keep p xs) ≡ true
    unfolding all keep
    all-keep_of_all p q [] h = refl
    all-keep_of_all p q (x ∷ xs) h = ground (arith, all-keep_of_all p q xs)

    keep-insert :
        (p : A → Bool) (x : A) (xs : List A)
        → IsSorted xs
        → keep p (insert x xs) ≡ (if p x then insert x (keep p xs) else keep p xs)
    unfolding insert keep
    keep-insert p x [] s = ground arith
    keep-insert p x (y ∷ ys) s = elim (Bool-cases (less y x)) [
      | inl e ↦ ground (arith, keep-insert p x ys s.1)
      | inr e ↦ ground (
        arith,
        insert_least x (keep p ys)
            (all-keep_of_all p (λ z. not (less z x)) ys (not-less_all x y ys e s.0)),
      )
    ]

    -- Filtering and sorting commute.
    pub keep-sort : (p : A → Bool) (xs : List A) → keep p (sort xs) ≡ sort (keep p xs)
    unfolding sort keep
    keep-sort p [] = refl
    keep-sort p (x ∷ xs) =
        ground (arith, keep-sort p xs, keep-insert p x (sort xs) (sort-IsSorted xs))

    -- A sorted list is left as it is.
    pub sort_of_IsSorted : (xs : List A) → IsSorted xs → sort xs ≡ xs
    unfolding sort
    sort_of_IsSorted [] s = refl
    sort_of_IsSorted (x ∷ xs) s = rw (sort_of_IsSorted xs s.1) (insert_least x xs s.0)

    pub sort_idem : (xs : List A) → sort (sort xs) ≡ sort xs
    sort_idem xs = sort_of_IsSorted (sort xs) (sort-IsSorted xs)

-- What is in the sorted list was in the list.
Member-of_insert {ℓ} :
    {A : Type ℓ} (less : A → A → Bool) (a x : A) (xs : List A)
    → Member a (insert less x xs)
    → Member a (x ∷ xs)
unfolding insert
Member-of_insert less a x [] m = m
Member-of_insert less a x (y ∷ ys) m = elim (Bool-cases (less y x)) [
  | inl e ↦ elim (rw e at m) [
    | inl q ↦ inr (inl q)
    | inr n ↦ elim (Member-of_insert less a x ys n) [ inl q ↦ inl q | inr k ↦ inr (inr k) ]
  ]
  | inr e ↦ rw e at m
]

pub Member-of_sort {ℓ} :
    {A : Type ℓ} (less : A → A → Bool) (a : A) (xs : List A) → Member a (sort less xs) → Member a xs
unfolding sort
Member-of_sort less a [] m = m
Member-of_sort less a (x ∷ xs) m = elim (Member-of_insert less a x (sort less xs) m) [
  | inl q ↦ inl q
  | inr n ↦ inr (Member-of_sort less a xs n)
]

Member-insert_self {ℓ} :
    {A : Type ℓ} (less : A → A → Bool) (x : A) (xs : List A) → Member x (insert less x xs)
unfolding insert
Member-insert_self less x [] = inl refl
Member-insert_self less x (y ∷ ys) = elim (Bool-cases (less y x)) [
  | inl e ↦ rw (e, Member) (inr (Member-insert_self less x ys))
  | inr e ↦ rw (e, Member) (inl refl)
]

Member-insert_later {ℓ} :
    {A : Type ℓ} (less : A → A → Bool) (x y : A) (xs : List A)
    → Member x xs
    → Member x (insert less y xs)
unfolding insert
Member-insert_later less x y [] m = elim m [ ]
Member-insert_later less x y (z ∷ zs) (inl q) = elim (Bool-cases (less z y)) [
  | inl e ↦ rw (e, Member) (inl q)
  | inr e ↦ rw (e, Member) (inr (inl q))
]
Member-insert_later less x y (z ∷ zs) (inr m) = elim (Bool-cases (less z y)) [
  | inl e ↦ rw (e, Member) (inr (Member-insert_later less x y zs m))
  | inr e ↦ rw (e, Member) (inr (inr m))
]

-- Sorting loses nothing.
pub Member-sort {ℓ} :
    {A : Type ℓ} (less : A → A → Bool) (x : A) (xs : List A) → Member x xs → Member x (sort less xs)
unfolding sort
Member-sort less x [] m = m
Member-sort less x (y ∷ ys) (inl q) = rw q (Member-insert_self less y (sort less ys))
Member-sort less x (y ∷ ys) (inr m) =
    Member-insert_later less x y (sort less ys) (Member-sort less x ys m)
