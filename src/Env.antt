-- ===== src/Env.antt =====
-- riscv-tests/env/: the environment in which the tests run on the core.
pub mod Strings
pub mod Vm
