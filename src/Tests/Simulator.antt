-- ===== src/Tests/Simulator.antt =====
-- The memory, the loader and the main loop of the simulator.
use tartaruga.Base.{ℕ, true, false, ◌+◌, ◌≡◌, ◌==◌, some, ltb, refl, arith}
use tartaruga.Sim.Memory.{Memory, DumpLine}
use tartaruga.Sim.Memory.Laws.{word_at}
use tartaruga.Sim.Elf.{Section, word_le, load_section}
use tartaruga.Sim.Elf.Laws.{bytes_word, load_section-whole, load_section-ragged}
use tartaruga.Sim.Loop.{Core, Run, main_loop}
use tartaruga.Sim.Loop.Laws.{main_loop-timeout}

abbrev zeros : Memory
zeros = record { cells = λ i. 0; initialized = true }

abbrev no_line : DumpLine
no_line = record { at = 1; word_0 = 1; word_1 = 1; word_2 = 1; word_3 = 1 }

-- A section of `n` bytes at 0x100, with byte `i` being `i + 1`.
abbrev section_of : ℕ → Section
section_of n = record {
  name = ".text";
  is_nobits = false;
  sh_addr = 0x100;
  sh_size = n;
  bytes = λ i. i + 1;
}

load_section-whole_example :
    word_at (load_section (section_of 8) zeros) 0x105 ≡ word_le (section_of 8).bytes 4
load_section-whole_example =
    load_section-whole (section_of 8) zeros 0x105 refl refl refl (omega arith) refl (omega arith)

load_section-ragged_example :
    word_at (load_section (section_of 6) zeros) 0x108 ≡ bytes_word (section_of 6).bytes 4 2
load_section-ragged_example =
    load_section-ragged (section_of 6) zeros 0x108 refl refl refl (omega arith) (omega arith)
      (omega arith)

-- A core that commits in its first 2 cycles and finishes after 3.
abbrev short_core : Core
short_core = record {
  State = ℕ;
  fall = λ n. n;
  rise = λ n. n + 1;
  commit_valid = λ n. ltb n 2;
  got_finish = λ n. n == 3;
}

abbrev begin : Run short_core
begin = record { core = 0; cycles_without_commit = 0; total_cycles = 0; commited_instructions = 0 }

abbrev finish : Run short_core
finish = record { core = 3; cycles_without_commit = 1; total_cycles = 3; commited_instructions = 2 }

-- A core that never commits.
abbrev stuck_core : Core
stuck_core = record {
  State = ℕ;
  fall = λ n. n;
  rise = λ n. n;
  commit_valid = λ n. false;
  got_finish = λ n. false;
}

abbrev stuck_run : Run stuck_core
stuck_run = record {
  core = 0;
  cycles_without_commit = 99;
  total_cycles = 99;
  commited_instructions = 0;
}

main_loop-timeout_example : (e : Run stuck_core) × (main_loop stuck_core 3 stuck_run ≡ some e)
main_loop-timeout_example =
    main_loop-timeout stuck_core 2 3 stuck_run refl (omega arith) (λ n p. refl)
