-- ===== src/Common/Int.antt =====
-- Signed integers over the native numbers, and the conversion of `int64_t` to `uint64_t`.
use tgproxy.Common.{ℕ, suc, ◌-◌, ◌%◌, ◌^◌}

-- `negsuc n` is -(n + 1).
pub data ℤ : Type 0 where
  pos : ℕ → ℤ
  negsuc : ℕ → ℤ

-- The two's complement value that an integer has as a `uint64_t`.
abbrev pub to_u64 : ℤ → ℕ
to_u64 (pos n) = n % 2 ^ 64
to_u64 (negsuc n) = 2 ^ 64 - suc (n % 2 ^ 64)
