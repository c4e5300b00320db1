-- ===== src/Base/Int.antt =====
-- The `int` of C where it may be negative.
use Prim.Native.Nat.{ℕ, zero, suc, ◌+◌, ◌-◌, ◌*◌, ◌/◌, ◌%◌}
use mathlib.Core.Bool.{Bool, true, false}
use mudit_m.Base.Tests.{ltb, leb, ◌==◌, if◌then◌else◌}

pub data ℤ : Type 0 where
  pos negsuc : ℕ → ℤ

abbrev pub is_negative : ℤ → Bool
is_negative (pos n) = false
is_negative (negsuc n) = true

abbrev pub is_zero : ℤ → Bool
is_zero (pos n) = n == 0
is_zero (negsuc n) = false

-- `i < n`.
abbrev pub is_below : ℤ → ℕ → Bool
is_below (pos m) n = ltb m n
is_below (negsuc m) n = true

-- `i <= n`.
abbrev pub is_at_most : ℤ → ℕ → Bool
is_at_most (pos m) n = leb m n
is_at_most (negsuc m) n = true

-- `n == i`.
abbrev pub is_equal : ℕ → ℤ → Bool
is_equal n (pos m) = n == m
is_equal n (negsuc m) = false

abbrev pub negate : ℕ → ℤ
negate zero = pos 0
negate (suc n) = negsuc n

-- `n + i`.
abbrev pub plus : ℕ → ℤ → ℤ
plus n (pos m) = pos (n + m)
plus n (negsuc m) = if leb (suc m) n then pos (n - suc m) else negsuc (m - n)

-- `i / n` and `i % n` are rounded towards 0.
abbrev pub quotient : ℤ → ℕ → ℤ
quotient (pos m) n = pos (m / n)
quotient (negsuc m) n = negate (suc m / n)

abbrev pub remainder : ℤ → ℕ → ℤ
remainder (pos m) n = pos (m % n)
remainder (negsuc m) n = negate (suc m % n)

-- `i * n`, of a positive n.
abbrev pub times : ℤ → ℕ → ℤ
times (pos m) n = pos (m * n)
times (negsuc m) n = negate (suc m * n)

-- `i > 0 ? i : 0`.
abbrev pub positive_part : ℤ → ℕ
positive_part (pos n) = n
positive_part (negsuc n) = 0
