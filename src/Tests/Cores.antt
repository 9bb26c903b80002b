-- ===== src/Tests/Cores.antt =====
-- The core two cycles after reset, and with a product that leaves exe while a load misses.
use tartaruga.Base.{
  ℕ, zero, suc, true, false, ◌+◌, ◌%◌, ◌<◌, ◌≤◌, ◌≡◌, ◌==◌, if◌then◌else◌, List, [], ◌∷◌, get_or,
  refl, arith,
}
use tartaruga.Pkg.{nop_instr, nop_instr_data, mem}
use tartaruga.Mem.Stage.{mem_stall, dcache_ready}
use tartaruga.Dcache.{miss, ready}
use tartaruga.StoreBuffer
use tartaruga.StoreBuffer.{rsp_valid}
use tartaruga.Rob.{Entry, Rob, empty_entry, flush, commit_valid}
use tartaruga.Rob.Ring.{Holds}
use tartaruga.Wrapper.{System}
use tartaruga.Pipeline
use tartaruga.Pipeline.{Pipeline, pipeline_step, stall_from_mem, exe_to_mem_d, mem_view}
use tartaruga.Pipeline.Indices.{IsSound, at_reset, cycle, IsRunning-IsSound}
use tartaruga.Pipeline.Carries.{is_of}
use tartaruga.Pipeline.Lost.{IsLost, IsLeaving, run, run-IsLost}

abbrev system : System
system = record {
  wrapper = record {
    req = λ i. record { valid = false; addr = 0; we = false; words = λ k. 0 };
    rsp = λ i. record { valid = false; addr = 0; words = λ k. 0 };
  };
  memory = record { cells = λ i. i; initialized = true };
}

abbrev start : Pipeline
start = tartaruga.Pipeline.reset (λ i. 0) system

IsRunning-IsSound_example : IsSound (pipeline_step (pipeline_step start))
IsRunning-IsSound_example = IsRunning-IsSound (cycle (cycle (at_reset (λ i. 0) system)))

-- An instruction in flight.
abbrev pending : Entry
pending = record empty_entry { valid = true }

abbrev two : List Entry
two = pending ∷ pending ∷ []

abbrev buffer : Rob
buffer = record {
  entries = λ i. if i == 0 then pending else if i == 1 then pending else empty_entry;
  head = 0;
  tail = 2;
}

two_slots : (k : ℕ) → k < 2 → buffer.entries ((0 + k) % 16) ≡ get_or two k empty_entry
two_slots zero p = refl
two_slots (suc zero) p = refl
two_slots (suc (suc k)) p = absurd (omega arith)

buffer-Holds : Holds buffer two
buffer-Holds = record {
  head_in = omega arith;
  size = omega arith;
  tail_at = refl;
  slots = two_slots;
  flags = λ i p. ground arith;
}

-- The product has slot 0, the load behind it slot 1.
abbrev stuck : Pipeline
stuck = record start {
  exe = record {
    pipe = λ k.
        if k == 3
        then record nop_instr {
          valid = true;
          instr = record nop_instr_data { is_mul = true; exe_stages = 5 };
        }
        else nop_instr;
    delay = λ k. 0;
  };
  exe_to_mem_q = record {
    instr = record nop_instr_data { wb_origin = mem; rob_idx = 1 };
    valid = true;
    data_rs2 = 0;
    result = 0x40;
    branch_taken = false;
  };
  decode_to_exe_q = nop_instr;
  mem_stage = record {
    buffer = tartaruga.StoreBuffer.reset;
    cache = record { lines = λ i. record { valid = false; tag = 0; words = λ k. 0 }; state = miss };
  };
  rob = buffer;
}

stuck-IsSound : IsSound stuck
unfolding tartaruga.Pipeline.reset
stuck-IsSound = record {
  in_flight = two;
  holds = buffer-Holds;
  indexed = record {
    decode = omega arith;
    exe = λ i. ground arith;
    exe_to_mem = omega arith;
    mem_to_wb = omega arith;
  };
}

stuck-stalls : stall_from_mem stuck ≡ true
unfolding stall_from_mem mem_stall dcache_ready ready mem_view
stuck-stalls = refl

stuck-IsLeaving : IsLeaving 0 stuck
unfolding tartaruga.Pipeline.reset
stuck-IsLeaving = record {
  waits = refl;
  unfinished = refl;
  leaves = refl;
  slot = refl;
  decode = refl;
  exe = λ k p. ground arith;
  exe_to_mem = refl;
  mem_to_wb = refl;
}

no-flush : (k : ℕ) → k ≤ 0 → flush (run stuck k).rob ≡ false
unfolding run flush commit_valid
no-flush zero p = refl
no-flush (suc k) p = absurd (omega arith)

run-IsLost_example :
    (is_of 0 (exe_to_mem_d stuck).valid (exe_to_mem_d stuck).instr ≡ true) × IsLost 0 (run stuck 1)
run-IsLost_example = run-IsLost stuck 0 0 stuck-IsSound stuck-stalls stuck-IsLeaving no-flush
