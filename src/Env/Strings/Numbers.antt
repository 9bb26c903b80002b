-- ===== src/Env/Strings/Numbers.antt =====
-- riscv-tests/env/v/string.c: atol.
use tartaruga.Base.{ℕ, zero, suc, ◌+◌, ◌-◌, ◌*◌, ◌^◌, ◌<◌, ◌≤◌, ◌≡◌}
use tartaruga.Env.Strings.{Bytes}

-- The value of `n` decimal digits, each with its power of ten.
unfoldable pub decimal : Bytes → ℕ → ℕ → ℕ
decimal m p zero = 0
decimal m p (suc n) = (m p - 48) * 10 ^ n + decimal m (p + 1) n

-- `n` decimal digits and a zero byte.
pub record IsNumber (m : Bytes) (p n : ℕ) : Type 0 where
  pub digits : (i : ℕ) → i < n → (48 ≤ m (p + i)) × (m (p + i) ≤ 57)
  pub ends : m (p + n) ≡ 0
