-- ===== src/Bench/BufferSum.antt =====
-- benchmarks/buffer_sum/buffer_sum.c: the sum of an array.
use tartaruga.Base.{ℕ, zero, suc, ◌+◌, ◌%◌, ◌<◌, ◌≡◌, add32, word_mod, arith}

-- The array of 128 ones.
pub a : ℕ → ℕ
a i = 1

module _ (v : ℕ → ℕ) where
  unfoldable pub sum_loop : ℕ → ℕ → ℕ → ℕ
  sum_loop i zero sum = sum
  sum_loop i (suc left) sum = sum_loop (i + 1) left (add32 sum (v i))

  unfoldable pub main : ℕ
  main = sum_loop 0 128 0

  -- The sum of `n` elements from `i` on, over the natural numbers.
  pub total : ℕ → ℕ → ℕ
  total i zero = 0
  total i (suc n) = v i + total (i + 1) n

  sum_loop-total :
      (left i sum : ℕ) → sum < word_mod → sum_loop i left sum ≡ (sum + total i left) % word_mod
  unfolding sum_loop total
  sum_loop-total zero i sum h = omega arith
  sum_loop-total (suc left) i sum h =
      omega (arith, sum_loop-total left (i + 1) (add32 sum (v i)) (omega arith))

  total-sum_loop : (n : ℕ) → sum_loop 0 n 0 ≡ total 0 n % word_mod
  total-sum_loop n = omega (arith, sum_loop-total n 0 0 (omega arith))

  -- The program buffer_sum returns the sum of the 128 elements of the array, modulo 2 ^ 32.
  buffer_sum_main_lem : main ≡ total 0 128 % word_mod
  unfolding main
  buffer_sum_main_lem = total-sum_loop 128
