-- ===== src/Tests/Benchmarks.antt =====
-- The benchmarks on concrete arrays.
use tartaruga.Base.{◌≡◌, ◌%◌, word_mod}
use tartaruga.Bench.MatrixMul
use tartaruga.Bench.MatrixMul.{
  matrix_mul_main_lem, dot, order, a as matrix_a, b as matrix_b, c as matrix_c,
}

matrix_mul_main_lem_example :
    tartaruga.Bench.MatrixMul.main matrix_a matrix_b matrix_c 3 5
    ≡ dot matrix_a matrix_b 3 5 0 order % word_mod
matrix_mul_main_lem_example = matrix_mul_main_lem matrix_a matrix_b 3 5 matrix_c
