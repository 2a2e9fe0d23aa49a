-- ===== src/Base/Int.antt =====
-- Go's signed integers, as far as the code tests their sign. `negsuc n` is -(n + 1).
use Prim.Native.Nat.{ℕ, zero, suc, ◌+◌, ◌-◌, compare, Ordering}
use mathlib.Core.Bool.{Bool, true, false}

pub data ℤ : Type 0 where
  pos : ℕ → ℤ
  negsuc : ℕ → ℤ

-- `n < 0`
abbrev pub is_negative : ℤ → Bool
is_negative (pos n) = false
is_negative (negsuc n) = true

-- `limit > 0 && count > limit`: a limit that is not positive is no limit.
abbrev pub over : ℤ → ℕ → Bool
over (pos zero) count = false
over (pos (suc n)) count = elim (compare (suc n) count) [ Ordering.lt ↦ true | _ ↦ false ]
over (negsuc n) count = false

infixl 65 ◌+ℤ◌
abbrev pub ◌+ℤ◌ : ℤ → ℤ → ℤ
pos a +ℤ pos b = pos (a + b)
pos a +ℤ negsuc b = elim (compare a b) [ Ordering.gt ↦ pos (a - b - 1) | _ ↦ negsuc (b - a) ]
negsuc a +ℤ pos b = elim (compare b a) [ Ordering.gt ↦ pos (b - a - 1) | _ ↦ negsuc (a - b) ]
negsuc a +ℤ negsuc b = negsuc (a + b + 1)
