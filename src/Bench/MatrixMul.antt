-- ===== src/Bench/MatrixMul.antt =====
-- benchmarks/matrix_mul/matrix_mul.c: the product of two 128 by 128 matrices.
use tartaruga.Base.{
  ℕ, zero, suc, true, ◌&&◌, ◌+◌, ◌*◌, ◌%◌, ◌<◌, ◌≡◌, ◌==◌, if◌then◌else◌, ltb, leb, add32, word_mod,
  arith,
}

abbrev pub Matrix : Type 0
Matrix = ℕ → ℕ → ℕ

abbrev pub order : ℕ
order = 128

-- The initial arrays: each initializer gives all its 16384 elements the same value.
pub a : Matrix
a i j = 1

pub b : Matrix
b i j = 2

pub c : Matrix
c i j = 3

abbrev pub store : Matrix → ℕ → ℕ → ℕ → Matrix
store m i j v i' j' = if i == i' && j == j' then v else m i' j'

module _ (p q : Matrix) where
  -- The innermost loop from `k` on, with `left` rounds to go.
  unfoldable pub k_loop : ℕ → ℕ → ℕ → ℕ → Matrix → Matrix
  k_loop i j k zero m = m
  k_loop i j k (suc left) m =
      k_loop i j (k + 1) left (store m i j (add32 (m i j) (p i k * q k j % word_mod)))

  unfoldable pub j_loop : ℕ → ℕ → ℕ → Matrix → Matrix
  j_loop i j zero m = m
  j_loop i j (suc left) m = j_loop i (j + 1) left (k_loop i j 0 order (store m i j 0))

  unfoldable pub i_loop : ℕ → ℕ → Matrix → Matrix
  i_loop i zero m = m
  i_loop i (suc left) m = i_loop (i + 1) left (j_loop i 0 order m)

  -- `main` on matrices `p` and `q` in place of `a` and `b`, from the array `c`.
  unfoldable pub main : Matrix → Matrix
  main m = i_loop 0 order m

  -- The products of row `i` and column `j` from `k` on, summed over the natural numbers.
  pub dot : ℕ → ℕ → ℕ → ℕ → ℕ
  dot i j k zero = 0
  dot i j k (suc left) = p i k * q k j + dot i j (k + 1) left

  store_same : (i j v : ℕ) (m : Matrix) → store m i j v i j ≡ v
  store_same i j v m = ground arith

  store_zero-lt : (i j : ℕ) (m : Matrix) → store m i j 0 i j < word_mod
  store_zero-lt i j m = omega (arith, store_same i j 0 m)

  k_store-lt :
      (i j k : ℕ) (m : Matrix)
      → store m i j (add32 (m i j) (p i k * q k j % word_mod)) i j < word_mod
  k_store-lt i j k m = omega (arith, store_same i j (add32 (m i j) (p i k * q k j % word_mod)) m)

  store-id : (i j i' j' : ℕ) (m : Matrix) → ((i == i' && j == j') ≡ true) → m i' j' ≡ m i j
  store-id i j i' j' m h = let p : i ≡ i' = ground arith in let q : j ≡ j' = ground arith in cc

  k_loop_lem :
      (left i j k i' j' : ℕ) (m : Matrix)
      → m i j < word_mod
      → k_loop i j k left m i' j'
        ≡ (if i == i' && j == j' then (m i j + dot i j k left) % word_mod else m i' j')
  unfolding k_loop dot
  k_loop_lem zero i j k i' j' m h = ground (arith, store-id i j i' j' m)
  k_loop_lem (suc left) i j k i' j' m h =
      let v = add32 (m i j) (p i k * q k j % word_mod) in
      ground (arith, k_loop_lem left i j (k + 1) i' j' (store m i j v) (k_store-lt i j k m))

  j_loop_lem :
      (left i j i' j' : ℕ) (m : Matrix)
      → j_loop i j left m i' j' ≡ (
          if i == i' && (leb j j' && ltb j' (j + left))
          then dot i' j' 0 order % word_mod
          else m i' j')
  unfolding j_loop
  j_loop_lem zero i j i' j' m = ground arith
  j_loop_lem (suc left) i j i' j' m = ground (
    arith,
    j_loop_lem left i (j + 1) i' j' (k_loop i j 0 order (store m i j 0)),
    k_loop_lem order i j 0 i' j' (store m i j 0) (store_zero-lt i j m),
  )

  i_loop_lem :
      (left i i' j' : ℕ) (m : Matrix)
      → i_loop i left m i' j' ≡ (
          if leb i i' && ltb i' (i + left) && ltb j' order
          then dot i' j' 0 order % word_mod
          else m i' j')
  unfolding i_loop
  i_loop_lem zero i i' j' m = ground arith
  i_loop_lem (suc left) i i' j' m =
      ground
        (arith, i_loop_lem left (i + 1) i' j' (j_loop i 0 order m), j_loop_lem order i 0 i' j' m)

  -- After the program matrix_mul the element of row i and column j, both below 128, is the product
  -- of row i of the first matrix and column j of the second, modulo 2 ^ 32; every other element is
  -- as it was.
  pub matrix_mul_main_lem :
      (i j : ℕ) (m : Matrix)
      → main m i j ≡ (if ltb i order && ltb j order then dot i j 0 order % word_mod else m i j)
  unfolding main
  matrix_mul_main_lem i j m = ground (arith, i_loop_lem order 0 i j m)
