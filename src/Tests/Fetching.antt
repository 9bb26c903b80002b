-- ===== src/Tests/Fetching.antt =====
-- The instruction cache with the line at 0 in way 0 of set 0, and the fetch stage after reset.
use tartaruga.Base.{
  ltb, if◌then◌else◌, word_mod, arith, zero, suc, ℕ, true, false, ◌+◌, ◌/◌, ◌<◌, ◌≡◌, ◌==◌, ◌&&◌,
  some, refl,
}
use tartaruga.Icache
use tartaruga.Icache.{Icache, hit, hit_way, icache_step}
use tartaruga.Icache.Coherent.{IsCoherent, icache_step-IsCoherent}
use tartaruga.Icache.Replacement.{most_recent_lost}
use tartaruga.Imem.{req_ready}
use tartaruga.Imem.Answers.{Reads}
use tartaruga.Sim.Memory.{Memory, read_mem}
use tartaruga.Fetch
use tartaruga.Imem
use tartaruga.Sim.Memory.Laws.{mem_bytes}
use tartaruga.Frontend.{Inputs, reset, valid_out, instr_out}
use tartaruga.Frontend.Correct.{IsFetching, at_reset, cycle, fetched-memory}
use tartaruga.Frontend.Miss.{run, fetch_miss}

-- Word `j` of memory is `j`.
abbrev words : ℕ → ℕ
words j = j

abbrev cached : Icache
cached = record {
  ways = λ i j. record { valid = i == 0 && j == 0; tag = 0; words = λ k. k };
  lru = λ i. 0;
  pending = false;
  pending_index = 0;
  pending_tag = 0;
}

cached-IsCoherent : IsCoherent cached words
cached-IsCoherent = record { agrees = λ i j k p v. ground arith }

-- A lookup of the line at 0.
abbrev lookup : tartaruga.Icache.Inputs
lookup = record { pc = 4; req_ready = true; instr_line = λ k. 0; rsp_valid = false; rsp_addr = 0 }

-- The line at 0x400 arrives; it is in the same set.
abbrev arrival : tartaruga.Icache.Inputs
arrival = record {
  pc = 4;
  req_ready = false;
  instr_line = λ k. 256 + k;
  rsp_valid = true;
  rsp_addr = 0x400;
}

icache_step-IsCoherent_example : IsCoherent (icache_step cached arrival) words
icache_step-IsCoherent_example =
    icache_step-IsCoherent arrival cached-IsCoherent (λ v. omega arith) (λ k p v. refl)

cached-hit_way : hit_way cached 4 ≡ some 0
unfolding hit_way tartaruga.Icache.find_way
cached-hit_way = refl

most_recent_lost_example : hit (icache_step (icache_step cached lookup) arrival) 4 ≡ false
most_recent_lost_example =
    most_recent_lost cached lookup arrival cached-hit_way refl refl refl (λ e. omega (arith, e))

-- A memory of 1 GiB whose word `j` is `j`.
abbrev memory : Memory
memory = record { cells = words; initialized = true }

abbrev stored : ℕ → ℕ
stored j = if ltb j (mem_bytes / 4) then j else 0

memory-Reads : Reads memory stored
unfolding read_mem
memory-Reads a p = ground arith

abbrev held : ℕ → Inputs
held n = record { taken_branch = false; new_pc = 0; stall = true }

reset-ready : req_ready reset.imem ≡ true
unfolding reset req_ready tartaruga.Imem.reset
reset-ready = refl

reset-misses : valid_out reset ≡ false
unfolding reset valid_out tartaruga.Icache.reset tartaruga.Icache.hit tartaruga.Icache.hit_way
    tartaruga.Icache.find_way
reset-misses = refl

reset-idle : reset.icache.pending ≡ false
unfolding reset tartaruga.Icache.reset
reset-idle = refl

reset-lt : reset.counter.pc_q < word_mod
unfolding reset tartaruga.Fetch.reset
reset-lt = omega arith

fetch_miss_example :
    (valid_out (run memory reset held 11) ≡ true)
    × ((n : ℕ) → n < 11 → valid_out (run memory reset held n) ≡ false)
fetch_miss_example =
    fetch_miss memory reset held (λ n. (refl, refl)) reset-idle reset-ready reset-misses reset-lt

-- The cycles after reset in which the counter is held.
held-IsFetching : (n : ℕ) → IsFetching stored (run memory reset held n)
unfolding run
held-IsFetching zero = at_reset
held-IsFetching (suc n) = cycle memory (held n) memory-Reads (omega arith) (held-IsFetching n)

first_line : valid_out (run memory reset held 11) ≡ true
first_line =
    (fetch_miss memory reset held (λ n. (refl, refl)) reset-idle reset-ready reset-misses
      reset-lt).0

fetched-memory_example :
    instr_out (run memory reset held 11) ≡ stored ((run memory reset held 11).counter.pc_q / 4)
fetched-memory_example = fetched-memory (held-IsFetching 11) first_line
