-- ===== src/GoString/Decimal.antt =====
-- `fmt.Sprint` and `strconv.Itoa` of an unsigned number, and `%x`.
use knative_extensions_net_i.Base.{
  ℕ, zero, suc, ◌+◌, ◌-◌, ◌*◌, ◌/◌, ◌%◌, ◌^◌, ◌≤◌, ◌<◌, ◌≡◌, refl, Bool, true, ◌&&◌, [], ◌∷◌, ◌++◌,
  arith, ltb, leb, if◌then◌else◌, all, length, length-append, all-append, Bool-cases, inl, inr,
  lt→ltb, ap, sym, ◌∙◌,
}
use knative_extensions_net_i.GoString.{GoString}
use native.Mathlib.Nat.{pow-suc, pow-zero}

-- The ASCII byte of a digit below sixteen.
unfoldable pub digit : ℕ → ℕ
digit d = if ltb d 10 then b'0' + d else b'a' + d - 10

-- The digits of `n` in a base, the last one at the end. `fuel` bounds the number of digits.
unfoldable pub digits : ℕ → ℕ → ℕ → GoString
unfolding digit
digits base zero n = []
digits base (suc fuel) n =
    let front = digits base fuel (n / base) in
    if ltb n base then digit n ∷ [] else front ++ digit (n % base) ∷ []

-- A number below 2 ^ 64 has at most 20 decimal and 16 hexadecimal digits.
unfoldable pub decimal : ℕ → GoString
unfolding digits
decimal n = digits 10 20 n

unfoldable pub hexadecimal : ℕ → GoString
unfolding digits
hexadecimal n = digits 16 16 n

unfoldable pub is_digit : ℕ → Bool
is_digit c = leb b'0' c && leb c b'9'

-- The digits read back.
unfoldable pub value : ℕ → GoString → ℕ
value acc [] = acc
value acc (c ∷ s) = value (acc * 10 + (c - 48)) s

value-append : (acc : ℕ) (s t : GoString) → value acc (s ++ t) ≡ value (value acc s) t
unfolding value
value-append acc [] t = refl
value-append acc (c ∷ s) t = value-append (acc * 10 + (c - 48)) s t

div_ten_lt : (n k : ℕ) → n < 10 ^ suc k → n / 10 < 10 ^ k
div_ten_lt n k h = omega (arith, pow-suc 10 k)

value-snoc : (acc d : ℕ) (s : GoString) → value acc (s ++ d ∷ []) ≡ value acc s * 10 + (d - 48)
unfolding value
value-snoc acc d s = value-append acc s (d ∷ [])

digit_value : (d : ℕ) → d < 10 → digit d - 48 ≡ d
unfolding digit
digit_value d h = ground arith

-- Enough fuel gives the digits of the number.
value-digits : (fuel n : ℕ) → n < 10 ^ fuel → value 0 (digits 10 fuel n) ≡ n
unfolding value digits
value-digits zero n h = omega (arith, pow-zero 10)
value-digits (suc fuel) n h = elim (Bool-cases (ltb n 10)) [
  | inl e ↦ rw e (ground (arith, digit_value n))
  | inr e ↦
      let ih = value-digits fuel (n / 10) (div_ten_lt n fuel h) in
      rw e (
        omega (
          arith,
          value-snoc 0 (digit (n % 10)) (digits 10 fuel (n / 10)),
          ih,
          digit_value (n % 10) (omega arith),
        ))
]

digits-is_digit : (fuel n : ℕ) → all is_digit (digits 10 fuel n) ≡ true
unfolding digits is_digit all
digits-is_digit zero n = refl
digits-is_digit (suc fuel) n = elim (Bool-cases (ltb n 10)) [
  | inl e ↦ rw e (ground arith)
  | inr e ↦ rw e (
      all-append is_digit (digits 10 fuel (n / 10)) (digit (n % 10) ∷ [])
      ∙ ground (arith, digits-is_digit fuel (n / 10)))
]

pub decimal-is_digit : (n : ℕ) → all is_digit (decimal n) ≡ true
unfolding decimal
decimal-is_digit n = digits-is_digit 20 n

-- `n < 10 ^ k` has at most `k` digits, and at least one.
length-digits : (fuel k n : ℕ) → n < 10 ^ suc k → length (digits 10 fuel n) ≤ suc k
unfolding digits
length-digits zero k n h = omega arith
length-digits (suc fuel) zero n h = rw (lt→ltb n 10 h) (omega arith)
length-digits (suc fuel) (suc k) n h = elim (Bool-cases (ltb n 10)) [
  | inl e ↦ rw e (omega arith)
  | inr e ↦ rw e (
      omega (
        arith,
        length-append (digits 10 fuel (n / 10)) (digit (n % 10) ∷ []),
        length-digits fuel k (n / 10) (div_ten_lt n (suc k) h),
      ))
]

-- A 32-bit number prints in at most ten digits.
pub length-decimal : (n : ℕ) → n < 2 ^ 32 → length (decimal n) ≤ 10
unfolding decimal
length-decimal n h = length-digits 20 9 n (omega arith)

-- The digits of a number read back as the number.
pub value-decimal : (n : ℕ) → n < 2 ^ 64 → value 0 (decimal n) ≡ n
unfolding decimal
value-decimal n h = value-digits 20 n (omega arith)

-- Different numbers print differently.
pub decimal_inj : (m n : ℕ) → m < 2 ^ 64 → n < 2 ^ 64 → decimal m ≡ decimal n → m ≡ n
decimal_inj m n hm hn e = sym (value-decimal m hm) ∙ ap (value 0) e ∙ value-decimal n hn

-- The last digit, as an end of the printed number.
pub decimal_last :
    (n : ℕ) → (front : GoString) × (d : ℕ) × (decimal n ≡ front ++ d ∷ []) × (is_digit d ≡ true)
unfolding decimal digits is_digit
decimal_last n = elim (Bool-cases (ltb n 10)) [
  | inl e ↦ ([], digit n, rw e refl, unfold digit in ground arith)
  | inr e ↦ (digits 10 19 (n / 10), digit (n % 10), rw e refl, unfold digit in ground arith)
]
