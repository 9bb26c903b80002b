-- ===== src/Single.antt =====
-- One instruction taken alone through decoder, immediate, register read, execution, memory stage
-- and commit, and what the RISC-V manual says that it does.
pub mod Isa
pub mod Values
pub mod Hardware
pub mod Fields
pub mod Refines
