-- ===== src/Json/Print/Digits.antt =====
-- The decimal digits that a number is printed with.
use plissken.Base.{
  ℕ, zero, suc, ◌+◌, ◌-◌, ◌*◌, ◌/◌, ◌%◌, ◌≤◌, ◌<◌, ◌≡◌, Text, [], ◌∷◌, arith, ltb, Bool-cases, inl,
  inr,
}
use plissken.Json.Print.{digits_from, decimal}

-- The number that a row of digits stands for, after the digits that `acc` stands for.
abbrev pub read_digits : ℕ → Text → ℕ
read_digits acc [] = acc
read_digits acc (c ∷ s) = read_digits (acc * 10 + (c - b'0')) s

abbrev pub AllDigits : Text → Type 0
AllDigits [] = Unit
AllDigits (c ∷ s) = (b'0' ≤ c) × (c ≤ b'9') × AllDigits s

-- The first digit is no zero, but for the number 0.
abbrev pub StartsWell : ℕ → Text → Type 0
StartsWell n [] = ⊥
StartsWell n (c ∷ s) = (c ≡ b'0') → n ≡ 0

read_digits-digits_from :
    (fuel n : ℕ) (rest : Text)
    → n < fuel
    → read_digits 0 (digits_from fuel n rest) ≡ read_digits n rest
unfolding digits_from
read_digits-digits_from zero n rest h = elim h [ ]
read_digits-digits_from (suc fuel) n rest h =
    ground (arith, read_digits-digits_from fuel (n / 10) ((b'0' + n % 10) ∷ rest))

AllDigits-digits_from :
    (fuel n : ℕ) (rest : Text) → AllDigits rest → AllDigits (digits_from fuel n rest)
unfolding digits_from
AllDigits-digits_from zero n rest h = h
AllDigits-digits_from (suc fuel) n rest h =
    ground (arith, AllDigits-digits_from fuel (n / 10) ((b'0' + n % 10) ∷ rest))

StartsWell-weaken : (m n : ℕ) (s : Text) → (m ≡ 0 → n ≡ 0) → StartsWell m s → StartsWell n s
StartsWell-weaken m n [] h k = k
StartsWell-weaken m n (c ∷ s) h k = λ e. h (k e)

StartsWell-digits_from :
    (fuel n : ℕ) (rest : Text) → n < fuel → StartsWell n (digits_from fuel n rest)
unfolding digits_from
StartsWell-digits_from zero n rest h = elim h [ ]
StartsWell-digits_from (suc fuel) n rest h = elim (Bool-cases (ltb n 10)) [
  | inl small ↦ rw small (ground arith)
  | inr large ↦ rw large (
      StartsWell-weaken (n / 10) n _ (ground arith)
        (StartsWell-digits_from fuel (n / 10) _ (ground arith)))
]

-- The printed digits are digits, read back to the number, and begin with no needless zero; so the
-- fuel of `decimal` is enough.
pub decimal_lem :
    (n : ℕ) → AllDigits (decimal n) × StartsWell n (decimal n) × (read_digits 0 (decimal n) ≡ n)
unfolding decimal
decimal_lem n = (
  AllDigits-digits_from (suc n) n [] tt,
  StartsWell-digits_from (suc n) n [] (omega arith),
  read_digits-digits_from (suc n) n [] (omega arith),
)
