-- ===== src/GoString.antt =====
-- Go strings as lists of bytes, with the functions of package `strings` that the program calls.
pub mod Order
pub mod Split
pub mod Decimal
pub mod Adler
use Prim.Native.Char.{code}
use Prim.Native.String
use mathlib.Core.Path.{◌≡◌, refl}
use knative_extensions_net_i.Base.{
  ℕ, zero, suc, ◌-◌, String, Bool, true, false, ◌&&◌, ◌||◌, List, [], ◌∷◌, ◌++◌, ◌↔◌, arith, ◌==◌,
  leb, ==_iff, length, take, drop, any, keep, Bool-cases, inl, inr, if◌then◌else◌, ap, ◌≤◌, ◌+◌,
  length-append, &&-left, &&-right,
}

abbrev pub GoString : Type 0
GoString = List ℕ

-- The bytes of an ASCII literal.
abbrev pub bytes : String → GoString
bytes String.[] = []
bytes (String.◌∷◌ c s) = code c ∷ bytes s

-- `a == b`
unfoldable pub str_eq : GoString → GoString → Bool
str_eq [] [] = true
str_eq (x ∷ xs) (y ∷ ys) = x == y && str_eq xs ys
str_eq _ _ = false

-- `strings.HasPrefix(s, prefix)`
unfoldable pub has_prefix : GoString → GoString → Bool
has_prefix s [] = true
has_prefix [] (p ∷ ps) = false
has_prefix (c ∷ s) (p ∷ ps) = c == p && has_prefix s ps

-- `strings.HasSuffix(s, suffix)`
unfoldable pub has_suffix : GoString → GoString → Bool
unfolding str_eq
has_suffix s suffix =
    leb (length suffix) (length s) && str_eq (drop (length s - length suffix) s) suffix

-- `strings.TrimSuffix(s, suffix)`
unfoldable pub trim_suffix : GoString → GoString → GoString
unfolding has_suffix
trim_suffix s suffix = if has_suffix s suffix then take (length s - length suffix) s else s

-- Whether a list of strings has an element.
unfoldable pub elem : GoString → List GoString → Bool
unfolding any
elem s = any (str_eq s)

pub str_eq→eq : (a b : GoString) → str_eq a b ≡ true → a ≡ b
unfolding str_eq
str_eq→eq [] [] h = refl
str_eq→eq [] (y ∷ ys) h = ground arith
str_eq→eq (x ∷ xs) [] h = ground arith
str_eq→eq (x ∷ xs) (y ∷ ys) h = ground (arith, str_eq→eq xs ys)

pub str_eq_refl : (a : GoString) → str_eq a a ≡ true
unfolding str_eq
str_eq_refl [] = refl
str_eq_refl (x ∷ xs) = ground (arith, str_eq_refl xs)

pub str_eq_iff : (a b : GoString) → (str_eq a b ≡ true) ↔ (a ≡ b)
str_eq_iff a b = (str_eq→eq a b, λ e. rw e (str_eq_refl b))

pub has_prefix_refl : (s : GoString) → has_prefix s s ≡ true
unfolding has_prefix
has_prefix_refl [] = refl
has_prefix_refl (c ∷ s) = ground (arith, has_prefix_refl s)

pub has_prefix_trans :
    (a b c : GoString) → has_prefix a b ≡ true → has_prefix b c ≡ true → has_prefix a c ≡ true
unfolding has_prefix
has_prefix_trans a b [] h k = refl
has_prefix_trans a [] (z ∷ c) h k = ground arith
has_prefix_trans [] (y ∷ b) (z ∷ c) h k = ground arith
has_prefix_trans (x ∷ a) (y ∷ b) (z ∷ c) h k = ground (arith, has_prefix_trans a b c)

pub has_prefix-append : (p s : GoString) → has_prefix (p ++ s) p ≡ true
unfolding has_prefix
has_prefix-append [] s = refl
has_prefix-append (c ∷ p) s = ground (arith, has_prefix-append p s)

pub elem-keep :
    (x : GoString) (p : GoString → Bool) (xs : List GoString)
    → elem x (keep p xs) ≡ (elem x xs && p x)
unfolding elem any keep
elem-keep x p [] = refl
elem-keep x p (y ∷ ys) = elim (Bool-cases (str_eq x y)) [
  | inl e ↦ ground (arith, e, ap p (str_eq→eq x y e), elem-keep x p ys)
  | inr e ↦ ground (arith, elem-keep x p ys)
]
