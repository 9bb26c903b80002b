-- ===== src/Sim/Memory/Laws.antt =====
-- simulator/unified_mem.cpp: reads, writes and the dump, by the words of memory.
use tartaruga.Base.{
  sym, ltb, ◌&&◌, ℕ, zero, suc, true, ◌+◌, ◌*◌, ◌/◌, ◌<◌, ◌≡◌, arith, word_mod, get_or,
  if◌then◌else◌, ◌==◌, ◌∙◌, ap,
}
use tartaruga.Sim.Memory.{
  Memory, read_mem, write_mem, fine, out_of_bounds, dump_from, line_at, dump_lines, DumpLine,
  write_mem_dump, mem_words,
}

-- Addresses of the array: below 1 GiB.
abbrev pub mem_bytes : ℕ
mem_bytes = 0x4000_0000

abbrev pub word_at : Memory → ℕ → ℕ
word_at m addr = (read_mem m addr).0

-- A write of the simulator's memory is seen by the reads of its word and by no others, for 32-bit
-- addresses; a write at or above 1 GiB changes nothing.
pub read_mem-write_mem :
    (m : Memory) (a b w : ℕ)
    → a < word_mod
    → b < word_mod
    → word_at (write_mem m a w).0 b ≡ (if ltb a mem_bytes && a / 4 == b / 4 then w else word_at m b)
unfolding read_mem write_mem
read_mem-write_mem m a b w p q = ground arith

-- A read or a write at a 32-bit address is reported as out of bounds exactly when the address is
-- not below 1 GiB, and a read there gives zero.
read_mem-reports :
    (m : Memory) (a w : ℕ)
    → a < word_mod
    → ((read_mem m a).1 ≡ (if ltb a mem_bytes then fine else out_of_bounds))
      × ((write_mem m a w).1 ≡ (if ltb a mem_bytes then fine else out_of_bounds))
      × ((read_mem m a).0 ≡ (if ltb a mem_bytes then (read_mem m a).0 else 0))
unfolding read_mem write_mem
read_mem-reports m a w p = ground arith

get_or-dump_from :
    (m : Memory) (left i k : ℕ) (d : DumpLine)
    → k < left
    → get_or (dump_from m i left) k d ≡ line_at m (i + 4 * k)
unfolding dump_from
get_or-dump_from m zero i k d h = absurd (omega arith)
get_or-dump_from m (suc left) i zero d h = let e : i ≡ i + 4 * 0 = omega arith in ap (line_at m) e
get_or-dump_from m (suc left) i (suc k) d h =
    let e : i + 4 + 4 * k ≡ i + 4 * suc k = omega arith in
    get_or-dump_from m left (i + 4) k d (omega arith) ∙ ap (line_at m) e

read_initialized :
    (m : Memory) (i : ℕ) → m.initialized ≡ true → i < mem_words → word_at m (4 * i) ≡ m.cells i
unfolding read_mem
read_initialized m i p h = let e : 4 * i / 4 ≡ i = omega arith in ground (arith, ap m.cells e)

-- Line k of the dump of an initialized memory, with k below the number of lines, shows the address
-- 16 * k and the four words that reads from there on give.
dump-read_mem :
    (m : Memory) (k : ℕ) (d : DumpLine)
    → m.initialized ≡ true
    → k < dump_lines
    → let l = get_or (write_mem_dump m) k d in
      (l.at ≡ 16 * k)
      × (l.word_0 ≡ word_at m (4 * (4 * k)))
      × (l.word_1 ≡ word_at m (4 * (4 * k + 1)))
      × (l.word_2 ≡ word_at m (4 * (4 * k + 2)))
      × (l.word_3 ≡ word_at m (4 * (4 * k + 3)))
unfolding write_mem_dump
dump-read_mem m k d p h =
    let e : 0 + 4 * k ≡ 4 * k = omega arith in
    rw (get_or-dump_from m dump_lines 0 k d h, e)
      (
        omega arith,
        sym (read_initialized m (4 * k) p (omega arith)),
        sym (read_initialized m (4 * k + 1) p (omega arith)),
        sym (read_initialized m (4 * k + 2) p (omega arith)),
        sym (read_initialized m (4 * k + 3) p (omega arith)),
      )
