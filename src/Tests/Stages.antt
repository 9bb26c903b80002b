-- ===== src/Tests/Stages.antt =====
-- Decode with two instructions in flight, the memory stage, and states some cycles after reset.
use tartaruga.Base.{ℕ, true, false, ◌==◌, ◌+◌, ◌≡◌, none, some, arith, refl}
use tartaruga.Pkg.{InstrData, nop_instr_data, mem}
use tartaruga.Rob
use tartaruga.Rob.{Rob, Entry, hazard, scan, rob_full, flush, commit_valid}
use tartaruga.Rob.Hazard.{newest_writer}
use tartaruga.Datapath.{
  Wires, operand, decode_valid, stall, has_hazard, in_exe, in_mem, datapath_rob,
}
use tartaruga.Datapath.Operands.{IsOperand, operands-IsOperand}
use tartaruga.StoreBuffer
use tartaruga.StoreBuffer.{Store, sb_step, rsp_valid, req_ready, bypass, search_from}
use tartaruga.Dcache
use tartaruga.Dcache.{Dcache, idle, hit, ready, dcache_step, mem_request}
use tartaruga.Dcache.Coherent.{IsCoherent}
use tartaruga.Mem.Stage.{
  MemStage, MemInputs, mem_stall, mem_valid, mem_out, found, is_collision, dcache_ready,
  dcache_inputs,
}
use tartaruga.Mem.Stage.Loads.{mem_valid-mem_stall, mem_out-load}
use tartaruga.Tests.Buffers.{ring, ring-Holds, full, full-Holds}
use tartaruga.StoreBuffer.Bypass.{newest}

-- The instruction of slot 0 leaves the execution stage with 40.
abbrev wires : Wires
wires = record {
  exe_to_mem_d = record {
    instr = nop_instr_data;
    valid = true;
    data_rs2 = 0;
    result = 40;
    branch_taken = false;
  };
  mem_to_wb_d = record {
    instr = nop_instr_data;
    valid = false;
    result = 0;
    branch_taken = false;
    branched_pc = 0;
    store_buffer_idx = 0;
  };
  mem_to_wb_q = record {
    instr = nop_instr_data;
    valid = false;
    result = 0;
    branch_taken = false;
    branched_pc = 0;
    store_buffer_idx = 0;
  };
  stall_from_exe = false;
  stall_from_mem = false;
  valid_fetch = true;
  valid_decode = true;
}

-- It reads x7, which is in the register file, and x4, which slot 0 writes.
abbrev reader : InstrData
reader = record nop_instr_data { addr_rs1 = 7; addr_rs2 = 4 }

reader-valid : decode_valid ring wires reader ≡ true
unfolding decode_valid stall operand has_hazard in_exe in_mem hazard scan rob_full flush
    commit_valid
reader-valid = refl

operands-IsOperand_example :
    IsOperand ring wires 70 none (operand ring wires (hazard ring 7) 70).0
    × IsOperand ring wires 10 (some 0) (operand ring wires (hazard ring 4) 10).0
unfolding newest_writer
operands-IsOperand_example = operands-IsOperand ring-Holds wires reader 70 10 reader-valid

-- Two clock cycles after reset.
abbrev two_cycles : Rob
two_cycles = datapath_rob (datapath_rob tartaruga.Rob.reset wires reader) wires reader

abbrev store_signals : tartaruga.StoreBuffer.Inputs
store_signals = record {
  data_i = 5;
  addr_i = 0x50;
  req_valid = true;
  rsp_ready = true;
  commit = true;
  idx_commit = 0;
  discard = λ i. false;
}

-- Word `j` of memory is `j`.
abbrev numbers : ℕ → ℕ
numbers j = j

abbrev load_access : tartaruga.Dcache.Inputs
load_access = record {
  addr = 0x218;
  data_wr = 0;
  we = false;
  req = true;
  mem_req_ready = true;
  mem_data_line = λ k. 132 + k;
  mem_rsp_valid = false;
}

-- Set 1 holds the line at 0x210, and no store waits.
abbrev stage : MemStage
stage = record {
  buffer = tartaruga.StoreBuffer.reset;
  cache = record {
    lines = λ i. record { valid = i == 1; tag = 2; words = λ k. 132 + k };
    state = idle;
  };
}

-- A load from 0x218.
abbrev load_inputs : MemInputs
load_inputs = record {
  exe_to_mem_i = record {
    instr = record nop_instr_data { wb_origin = mem };
    valid = true;
    data_rs2 = 0;
    result = 0x218;
    branch_taken = false;
  };
  still_alive_i = true;
  commit_i = false;
  commit_idx_i = 0;
  discard_i = λ i. false;
  req_ready_i = true;
  data_line_i = λ k. 0;
  rsp_valid_i = false;
}

no_stall : mem_stall stage load_inputs ≡ false
unfolding mem_stall is_collision dcache_ready dcache_inputs ready hit rsp_valid found bypass
    search_from req_ready tartaruga.StoreBuffer.reset
no_stall = refl

stage-IsCoherent : IsCoherent stage.cache numbers
stage-IsCoherent = record { agrees = λ i k p q v. ground arith }

mem_valid-mem_stall_example : mem_valid stage load_inputs ≡ true
mem_valid-mem_stall_example = mem_valid-mem_stall stage load_inputs no_stall

-- A load from 0x48, which a store in the full buffer writes.
abbrev full_stage : MemStage
full_stage = record {
  buffer = full;
  cache = record {
    lines = λ i. record { valid = i == 4; tag = 0; words = λ k. 16 + k };
    state = idle;
  };
}

abbrev bypassed : MemInputs
bypassed = record load_inputs { exe_to_mem_i = record load_inputs.exe_to_mem_i { result = 0x48 } }

full-IsCoherent : IsCoherent full_stage.cache numbers
full-IsCoherent = record { agrees = λ i k p q v. ground arith }

full-no_stall : mem_stall full_stage bypassed ≡ false
unfolding mem_stall is_collision dcache_ready dcache_inputs ready hit rsp_valid found bypass
    search_from req_ready
full-no_stall = refl

mem_out-load_example : mem_out full_stage bypassed ≡ 3
unfolding newest
mem_out-load_example =
    mem_out-load full_stage full-IsCoherent bypassed full-Holds refl refl (omega arith)
      full-no_stall
