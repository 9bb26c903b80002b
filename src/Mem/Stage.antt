-- ===== src/Mem/Stage.antt =====
-- rtl/datapath/mem/mem.sv: the memory stage with its store buffer and its data cache.
pub mod Loads
use tartaruga.Base.{ℕ, Bool, true, false, not, ◌&&◌, ◌||◌, if◌then◌else◌, Option, none, some}
use tartaruga.Pkg.{ExeToMem}
use tartaruga.Mem.{is_mem, mem_result}
use tartaruga.StoreBuffer
use tartaruga.StoreBuffer.{StoreBuffer, rsp_valid, req_ready, bypass, sb_step}
use tartaruga.Dcache
use tartaruga.Dcache.{Dcache, Line, ready, data_rd, dcache_step}

pub record MemStage : Type 0 where
  pub buffer : StoreBuffer
  pub cache : Dcache

-- The inputs: the instruction, the commit and discard signals, and the channel from memory.
pub record MemInputs : Type 0 where
  pub exe_to_mem_i : ExeToMem
  pub still_alive_i : Bool
  pub commit_i : Bool
  pub commit_idx_i : ℕ
  pub discard_i : ℕ → Bool
  pub req_ready_i : Bool
  pub data_line_i : Line
  pub rsp_valid_i : Bool

abbrev pub is_load : ExeToMem → Bool
is_load x = is_mem x.instr.wb_origin && x.valid

abbrev pub is_store : ExeToMem → Bool
is_store x = x.instr.store_to_mem && x.valid

-- bypass_o
abbrev pub is_some : Option ℕ → Bool
is_some none = false
is_some (some v) = true

abbrev pub some_or_zero : Option ℕ → ℕ
some_or_zero none = 0
some_or_zero (some v) = v

-- The inputs of `dcache_inst`: the store that the buffer offers goes first.
unfoldable pub dcache_inputs : MemStage → MemInputs → tartaruga.Dcache.Inputs
dcache_inputs s x = record {
  addr =
      if rsp_valid s.buffer then (s.buffer.entries s.buffer.head).addr else x.exe_to_mem_i.result;
  data_wr = if rsp_valid s.buffer then (s.buffer.entries s.buffer.head).st_data else 0;
  we = rsp_valid s.buffer;
  req = is_load x.exe_to_mem_i || rsp_valid s.buffer;
  mem_req_ready = x.req_ready_i;
  mem_data_line = x.data_line_i;
  mem_rsp_valid = x.rsp_valid_i;
}

unfoldable pub dcache_ready : MemStage → MemInputs → Bool
dcache_ready s x = ready s.cache (dcache_inputs s x)

-- The inputs of `store_buffer_inst`.
unfoldable pub buffer_inputs : MemStage → MemInputs → tartaruga.StoreBuffer.Inputs
buffer_inputs s x = record {
  data_i = x.exe_to_mem_i.data_rs2;
  addr_i = x.exe_to_mem_i.result;
  req_valid = is_store x.exe_to_mem_i && x.still_alive_i;
  rsp_ready = dcache_ready s x;
  commit = x.commit_i;
  idx_commit = x.commit_idx_i;
  discard = x.discard_i;
}

unfoldable pub found : MemStage → MemInputs → Option ℕ
found s x = bypass s.buffer x.exe_to_mem_i.result

unfoldable pub is_collision : MemStage → MemInputs → Bool
is_collision s x = is_load x.exe_to_mem_i && rsp_valid s.buffer && not (is_some (found s x))

-- stall_o
unfoldable pub mem_stall : MemStage → MemInputs → Bool
mem_stall s x =
    is_load x.exe_to_mem_i && not (dcache_ready s x)
    || is_collision s x
    || is_store x.exe_to_mem_i && not (req_ready s.buffer)

unfoldable pub valid_load_bypass : MemStage → MemInputs → Bool
valid_load_bypass s x = is_load x.exe_to_mem_i && is_some (found s x)

unfoldable pub valid_load_dcache : MemStage → MemInputs → Bool
valid_load_dcache s x =
    is_load x.exe_to_mem_i
    && dcache_ready s x
    && not (is_some (found s x))
    && not (is_collision s x)

-- mem_to_wb_o.valid
unfoldable pub mem_valid : MemStage → MemInputs → Bool
unfolding valid_load_bypass valid_load_dcache
mem_valid s x =
    let i = x.exe_to_mem_i in
    i.valid && not (is_mem i.instr.wb_origin) && not i.instr.store_to_mem
    || (valid_load_bypass s x || valid_load_dcache s x)
    || i.valid && i.instr.store_to_mem && req_ready s.buffer

-- mem_to_wb_o.result
unfoldable pub mem_out : MemStage → MemInputs → ℕ
mem_out s x =
    mem_result x.exe_to_mem_i (valid_load_bypass s x) (some_or_zero (found s x))
      (data_rd s.cache (dcache_inputs s x))

unfoldable pub mem_step : MemStage → MemInputs → MemStage
mem_step s x = record {
  buffer = sb_step s.buffer (buffer_inputs s x);
  cache = dcache_step s.cache (dcache_inputs s x);
}
