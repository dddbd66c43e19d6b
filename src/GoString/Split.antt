-- ===== src/GoString/Split.antt =====
-- `strings.Split` and `strings.SplitN` by a one-byte separator.
use knative_extensions_net_i.Base.{
  ℕ, zero, suc, ◌≡◌, refl, Bool, true, not, List, [], ◌∷◌, ◌++◌, arith, ◌==◌, if◌then◌else◌, all,
}
use knative_extensions_net_i.GoString.{GoString}

-- A byte more in front of the first part.
unfoldable pub push_front : ℕ → List GoString → List GoString
push_front c [] = (c ∷ []) ∷ []
push_front c (part ∷ parts) = (c ∷ part) ∷ parts

-- `strings.Split(s, sep)`
unfoldable pub split : ℕ → GoString → List GoString
unfolding push_front
split sep [] = [] ∷ []
split sep (c ∷ s) = let rest = split sep s in if c == sep then [] ∷ rest else push_front c rest

-- `strings.SplitN(s, sep, suc n)`: at most `suc n` parts, the last one is what is left
unfoldable pub split_n : ℕ → ℕ → GoString → List GoString
unfolding push_front
split_n sep zero s = s ∷ []
split_n sep (suc n) [] = [] ∷ []
split_n sep (suc n) (c ∷ s) =
    let ended = split_n sep n s in
    let longer = split_n sep (suc n) s in if c == sep then [] ∷ ended else push_front c longer

-- Whether a byte stands nowhere in a string.
unfoldable pub lacks : ℕ → GoString → Bool
unfolding all
lacks sep = all (λ c. not (c == sep))

pub split-lacks : (sep : ℕ) (s : GoString) → lacks sep s ≡ true → split sep s ≡ s ∷ []
unfolding split lacks
split-lacks sep [] h = refl
split-lacks sep (c ∷ s) h = ground (arith, split-lacks sep s)

-- The first part ends at the first separator.
pub split-append :
    (sep : ℕ) (a b : GoString) → lacks sep a ≡ true → split sep (a ++ sep ∷ b) ≡ a ∷ split sep b
unfolding split lacks
split-append sep [] b h = ground arith
split-append sep (c ∷ a) b h = ground (arith, split-append sep a b)

pub split_n-lacks : (sep n : ℕ) (s : GoString) → lacks sep s ≡ true → split_n sep n s ≡ s ∷ []
unfolding split_n lacks
split_n-lacks sep zero s h = refl
split_n-lacks sep (suc n) [] h = refl
split_n-lacks sep (suc n) (c ∷ s) h = ground (arith, split_n-lacks sep (suc n) s)

pub split_n-append :
    (sep n : ℕ) (a b : GoString)
    → lacks sep a ≡ true
    → split_n sep (suc n) (a ++ sep ∷ b) ≡ a ∷ split_n sep n b
unfolding split_n lacks
split_n-append sep n [] b h = ground arith
split_n-append sep n (c ∷ a) b h = ground (arith, split_n-append sep n a b)
