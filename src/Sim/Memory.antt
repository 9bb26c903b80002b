-- ===== src/Sim/Memory.antt =====
-- simulator/unified_mem.cpp: the memory that the core reaches through DPI calls.
pub mod Laws
use tartaruga.Base.{
  ℕ, Bool, true, false, ◌+◌, ◌*◌, zero, suc, if◌then◌else◌, ltb, update, ℤ, pos, negsuc, signed,
  shift_right, List, [], ◌∷◌,
}

-- The static array `mem` and the flag `mem_initialized`.
pub record Memory : Type 0 where
  pub cells : ℕ → ℕ
  pub initialized : Bool

-- 1024 * 1024 * 256 words.
abbrev pub mem_words : ℕ
mem_words = 0x1000_0000

-- `memset(mem, 0, sizeof(mem))` at the first access.
unfoldable pub ensure_initialized : Memory → Memory
ensure_initialized m = if m.initialized then m else record { cells = λ i. 0; initialized = true }

-- `int index = addr >> 2`, a signed shift.
abbrev pub index : ℕ → ℤ
index addr = shift_right (signed addr) 2

-- What the call prints on std::cerr.
pub data Report : Type 0 where
  fine out_of_bounds : Report

unfoldable pub read_cell : Memory → ℤ → ℕ × Report
read_cell m (pos i) = if ltb i mem_words then (m.cells i, fine) else (0, out_of_bounds)
read_cell m (negsuc i) = (0, out_of_bounds)

-- The word read, the report and the memory afterwards.
unfoldable pub read_mem : Memory → ℕ → ℕ × Report × Memory
unfolding ensure_initialized read_cell
read_mem m addr =
    let m' = ensure_initialized m in let (w, r) = read_cell m' (index addr) in (w, r, m')

unfoldable pub write_cell : Memory → ℤ → ℕ → Memory × Report
write_cell m (pos i) w =
    if ltb i mem_words then (record m { cells = update m.cells i w }, fine) else (m, out_of_bounds)
write_cell m (negsuc i) w = (m, out_of_bounds)

unfoldable pub write_mem : Memory → ℕ → ℕ → Memory × Report
unfolding ensure_initialized write_cell
write_mem m addr w = write_cell (ensure_initialized m) (index addr) w

-- A line of the dump: the byte address of four words, and the words.
pub record DumpLine : Type 0 where
  pub at : ℕ
  pub word_0 : ℕ
  pub word_1 : ℕ
  pub word_2 : ℕ
  pub word_3 : ℕ

abbrev pub line_at : Memory → ℕ → DumpLine
line_at m i = record {
  at = i * 4;
  word_0 = m.cells i;
  word_1 = m.cells (i + 1);
  word_2 = m.cells (i + 2);
  word_3 = m.cells (i + 3);
}

-- The loop of `write_mem_dump` from word `i` on, with `left` lines to go.
unfoldable pub dump_from : Memory → ℕ → ℕ → List DumpLine
dump_from m i zero = []
dump_from m i (suc left) = line_at m i ∷ dump_from m (i + 4) left

abbrev pub dump_lines : ℕ
dump_lines = 0x10000

-- `for (i = 0; i < 1024 * 256; i += 4)`.
unfoldable pub write_mem_dump : Memory → List DumpLine
write_mem_dump m = dump_from m 0 dump_lines
