-- ===== src/Sim.antt =====
-- simulator/: the C++ program around the core.
pub mod Memory
pub mod Elf
pub mod Loop
pub mod Kanata
