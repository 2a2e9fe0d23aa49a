-- ===== src/Base/Decimal.antt =====
-- fmt.Sprintf("%d", n) of an unsigned integer, with the reader that inverts it.
use Prim.Native.Char.{Char, code, IsScalar}
use Prim.Native.Nat.{ℕ, zero, suc, ◌+◌, ◌-◌, ◌*◌, ◌/◌, ◌%◌, ◌≤◌, ◌<◌}
use Prim.Native.String.{String}
use mathlib.Core.Path.{◌≡◌, refl, sym, ap, ◌∙◌}
use native.Mathlib.Omega.{arith}
use mathlib.Core.Logic.{inl, inr}
use toolexec.Base.Tests.{Bool-cases, ◌==◌, if◌then◌else◌}

digit_IsScalar : (d : ℕ) → d < 10 → IsScalar (48 + d)
digit_IsScalar d h = ground arith

remainder_lt : (n : ℕ) → n % 10 < 10
remainder_lt n = omega arith

-- the last digit
digit : ℕ → Char
digit n = Char.char (48 + n % 10) (digit_IsScalar (n % 10) (remainder_lt n))

-- The digits of `n` in front of `out`; each round divides by ten, and `n` rounds are enough.
digits : ℕ → ℕ → String → String
digits zero n out = out
digits (suc fuel) n out =
    let more = digits fuel (n / 10) (String.◌∷◌ (digit n) out) in if n == 0 then out else more

unfoldable pub decimal : ℕ → String
unfolding digits digit digit_IsScalar remainder_lt
decimal n = if n == 0 then "0" else digits n n ""

-- Reading digits, with the number read so far.
pub read_digits : String → ℕ → ℕ
read_digits String.[] n = n
read_digits (String.◌∷◌ c s) n = read_digits s (n * 10 + (code c - 48))

next_digit :
    (n : ℕ) (out : String) → read_digits (String.◌∷◌ (digit n) out) (n / 10) ≡ read_digits out n
unfolding read_digits digit
next_digit n out = ap (read_digits out) (omega arith)

read-digits :
    (fuel n : ℕ) (out : String) → n ≤ fuel → read_digits (digits fuel n out) 0 ≡ read_digits out n
unfolding digits
read-digits zero n out h = ap (read_digits out) (omega arith)
read-digits (suc fuel) n out h = elim (Bool-cases (n == 0)) [
  | inl done ↦ rw done (ap (read_digits out) (ground arith))
  | inr more ↦
      rw more
        (read-digits fuel (n / 10) (String.◌∷◌ (digit n) out) (ground arith) ∙ next_digit n out)
]

-- What is written reads as the number that was written.
pub read_digits-decimal : (n : ℕ) → read_digits (decimal n) 0 ≡ n
unfolding decimal read_digits
read_digits-decimal n = elim (Bool-cases (n == 0)) [
  | inl done ↦ rw done (ground arith)
  | inr more ↦ rw more (read-digits n n "" (omega arith))
]

pub decimal_injective : (m n : ℕ) → decimal m ≡ decimal n → m ≡ n
decimal_injective m n h =
    sym (read_digits-decimal m) ∙ ap (λ s. read_digits s 0) h ∙ read_digits-decimal n

decimal_example : decimal 18446744073709551615 ≡ "18446744073709551615"
unfolding decimal
decimal_example = refl
