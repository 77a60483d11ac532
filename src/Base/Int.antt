-- ===== src/Base/Int.antt =====
-- Signed machine integers: `int`, `long` and `int64_t` arguments that may be negative.
use Prim.Native.Nat.{ℕ, compare, Ordering}
use mathlib.Core.Bool.{Bool, true, false}

-- `negsuc n` is -(n + 1).
pub data ℤ : Type 0 where
  pos : ℕ → ℤ
  negsuc : ℕ → ℤ

-- `a < k` for a number `k` that is not negative.
abbrev pub lt_nat : ℤ → ℕ → Bool
lt_nat (pos n) k = elim (compare n k) [ Ordering.lt ↦ true | _ ↦ false ]
lt_nat (negsuc n) k = true

-- The value where it is not negative, and 0 elsewhere.
abbrev pub pos_part : ℤ → ℕ
pos_part (pos n) = n
pos_part (negsuc n) = 0
