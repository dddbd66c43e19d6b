-- ===== src/GoString/Order.antt =====
-- `strings.Compare` and `sort.Strings`: byte strings in lexicographic order.
use knative_extensions_net_i.Base.{
  ◌≡◌, refl, Bool, true, false, ◌&&◌, ◌||◌, List, [], ◌∷◌, arith, ◌==◌, ltb,
}
use knative_extensions_net_i.Base.Sort.{sort, IsSorted, sort-IsSorted}
use knative_extensions_net_i.GoString.{GoString, has_prefix}

-- `strings.Compare(a, b) < 0`
unfoldable pub str_lt : GoString → GoString → Bool
str_lt a [] = false
str_lt [] (y ∷ b) = true
str_lt (x ∷ a) (y ∷ b) = ltb x y || (x == y && str_lt a b)

pub str_lt_asym : (a b : GoString) → str_lt a b ≡ true → str_lt b a ≡ false
unfolding str_lt
str_lt_asym a [] h = ground arith
str_lt_asym [] (y ∷ b) h = refl
str_lt_asym (x ∷ a) (y ∷ b) h = ground (arith, str_lt_asym a b)

-- "not below" is transitive
pub not-str_lt_trans :
    (a b c : GoString) → str_lt b a ≡ false → str_lt c b ≡ false → str_lt c a ≡ false
unfolding str_lt
not-str_lt_trans [] b c h k = ground arith
not-str_lt_trans (x ∷ a) [] c h k = ground arith
not-str_lt_trans (x ∷ a) (y ∷ b) [] h k = ground arith
not-str_lt_trans (x ∷ a) (y ∷ b) (z ∷ c) h k = ground (arith, not-str_lt_trans a b c)

-- A string is not below its own prefix.
pub not-lt_of_prefix : (s p : GoString) → has_prefix s p ≡ true → str_lt s p ≡ false
unfolding str_lt has_prefix
not-lt_of_prefix s [] h = ground arith
not-lt_of_prefix [] (y ∷ p) h = ground arith
not-lt_of_prefix (x ∷ s) (y ∷ p) h = ground (arith, not-lt_of_prefix s p)

-- The order is total.
pub eq_of_not-lt : (a b : GoString) → str_lt a b ≡ false → str_lt b a ≡ false → a ≡ b
unfolding str_lt
eq_of_not-lt [] [] h k = refl
eq_of_not-lt [] (y ∷ b) h k = ground arith
eq_of_not-lt (x ∷ a) [] h k = ground arith
eq_of_not-lt (x ∷ a) (y ∷ b) h k = ground (arith, eq_of_not-lt a b)

-- `sort.Strings(xs)`
unfoldable pub sort_strings : List GoString → List GoString
unfolding str_lt sort
sort_strings = sort str_lt

pub sort_strings-IsSorted : (xs : List GoString) → IsSorted str_lt (sort_strings xs)
unfolding sort_strings
sort_strings-IsSorted = sort-IsSorted str_lt str_lt_asym not-str_lt_trans
