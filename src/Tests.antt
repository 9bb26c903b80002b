-- ===== src/Tests.antt =====
-- The theorems applied at concrete inputs, one module for each part of the program.
mod Units
mod Instructions
mod Buffers
mod Caches
mod Simulator
mod Benchmarks
mod Stages
mod Log
mod Encodings
mod Strings
mod Paging
mod Wrappers
mod Memories
mod Fetching
mod Cores
