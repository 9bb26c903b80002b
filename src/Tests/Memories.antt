-- ===== src/Tests/Memories.antt =====
-- The data cache with the line at 0x210 in set 1, in front of a free wrapper.
use tartaruga.Base.{ℕ, true, false, ◌+◌, ◌<◌, ◌≡◌, ◌==◌, refl, arith}
use tartaruga.Dcache.{hit, idle}
use tartaruga.Sim.Memory.Laws.{word_at}
use tartaruga.Wrapper.{req_ready, none_valid}
use tartaruga.Dmem.{Dmem, dmem_ready, dmem_data}
use tartaruga.Dmem.Run.{run}
use tartaruga.Dmem.Refill.{load_miss}
use tartaruga.Dmem.Stale.{store, load, accesses, store-load_miss}

-- The wrapper has read the line at 0x210 last.
abbrev warm : Dmem
warm = record {
  cache = record {
    lines = λ i. record { valid = i == 1; tag = 2; words = λ k. 132 + k };
    state = idle;
  };
  system = record {
    wrapper = record {
      req = λ i. record { valid = false; addr = 0; we = false; words = λ k. 0 };
      rsp = λ i. record { valid = false; addr = 0x210; words = λ k. 132 + k };
    };
    memory = record { cells = λ i. i; initialized = true };
  };
}

warm-ready : req_ready warm.system.wrapper ≡ true
unfolding req_ready none_valid
warm-ready = refl

warm-hit : hit warm.cache 0x218 ≡ true
unfolding hit
warm-hit = refl

warm-miss : hit warm.cache 0x304 ≡ false
unfolding hit
warm-miss = refl

load_miss_example :
    (dmem_ready (run warm (λ i. load 0x304) 13) (load 0x304) ≡ true)
    × (dmem_data (run warm (λ i. load 0x304) 13) (load 0x304) ≡ word_at warm.system.memory 0x304)
    × ((n : ℕ) → n < 13 → dmem_ready (run warm (λ i. load 0x304) n) (load 0x304) ≡ false)
load_miss_example = load_miss warm (load 0x304) refl warm-ready warm-miss refl refl (omega arith)

-- The load gets 133, the word of the line at 0x210; memory has 193.
store-load_miss_example :
    ((n : ℕ) → n < 10 → dmem_ready (run warm (accesses 0x218 5 0x304) n) (store 0x218 5) ≡ false)
    × (dmem_ready (run warm (accesses 0x218 5 0x304) 10) (store 0x218 5) ≡ true)
    × (dmem_ready (run warm (accesses 0x218 5 0x304) 14) (load 0x304) ≡ true)
    × (dmem_data (run warm (accesses 0x218 5 0x304) 14) (load 0x304) ≡ 133)
store-load_miss_example = store-load_miss warm 0x218 5 0x304 refl warm-ready warm-hit warm-miss
