-- ===== src/Bench.antt =====
-- benchmarks/: the C programs that run on the core. `int` is a 32-bit word with wrap-around.
pub mod MatrixMul
pub mod BufferSum
pub mod Memcpy
