-- ===== src/Prelude/Int.antt =====
-- Signed integers over the native numbers, under the library's names.
use Prim.Native.Nat.{ℕ}
use mathlib.Core.Bool.{Bool, false}
use redisraft.Prelude.Tests.{◌==◌, ltb}

-- `negsuc n` is -(n + 1).
pub data ℤ : Type 0 where
  pos : ℕ → ℤ
  negsuc : ℕ → ℤ

-- the integer fits a signed type whose largest value is `limit` - 1
abbrev pub fits : ℕ → ℤ → Bool
fits limit (pos n) = ltb n limit
fits limit (negsuc n) = ltb n limit

abbrev pub eq_ℤ : ℤ → ℤ → Bool
eq_ℤ (pos m) (pos n) = m == n
eq_ℤ (negsuc m) (negsuc n) = m == n
eq_ℤ (pos m) (negsuc n) = false
eq_ℤ (negsuc m) (pos n) = false

-- whether a natural number is less than the integer
abbrev pub lt_ℤ : ℕ → ℤ → Bool
lt_ℤ m (pos n) = ltb m n
lt_ℤ m (negsuc n) = false
