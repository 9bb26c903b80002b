-- ===== src/Pipeline.antt =====
-- rtl/datapath/datapath.sv: the whole core, the stages and the registers between them, with the
-- memory behind both caches. `pipeline_step` is a clock cycle; fetch reads memory as it is before
-- the cycle.
pub mod Indices
pub mod Carries
pub mod Lost
use tartaruga.Base.{
  ℕ, zero, suc, Bool, true, false, not, ◌&&◌, ◌||◌, ◌==◌, if◌then◌else◌, Option, none, some,
}
use tartaruga.Pkg.{InstrData, DecodeToExe, ExeToMem, MemToWb, nop_instr, add, rs1, rs2, alu, jump}
use tartaruga.Frontend
use tartaruga.Frontend.{Frontend, frontend_step, valid_out, instr_out}
use tartaruga.Decode.{decode, immediate}
use tartaruga.Regfile.{regfile_reset, regfile_step, regfile_read}
use tartaruga.Exe
use tartaruga.Exe.{ExeState, exe_step, exe_out, exe_stall}
use tartaruga.Mem.{branched_pc_out}
use tartaruga.Mem.Stage.{
  MemStage, MemInputs, mem_step, mem_stall, mem_valid, mem_out, dcache_inputs,
}
use tartaruga.Dmem.{Dmem, Access, wrapper_request}
use tartaruga.Wrapper.{System, wrapper_step, req_ready, response}
use tartaruga.StoreBuffer
use tartaruga.Dcache
use tartaruga.Rob
use tartaruga.Rob.{
  Rob, Entry, empty_entry, hazard, flush, commit_out, rob_step, still_alive, discard_store_buffer,
}
use tartaruga.Datapath.{Wires, operand, stall, decode_valid, rob_inputs}

pub record Pipeline : Type 0 where
  pub frontend : Frontend
  pub instruction_q : ℕ
  pub pc_decode : ℕ
  pub valid_decode : Bool
  pub id_decode : ℕ
  pub decode_to_exe_q : DecodeToExe
  pub exe : ExeState
  pub exe_to_mem_q : ExeToMem
  pub mem_stage : MemStage
  pub system : System
  pub mem_to_wb_q : MemToWb
  pub rob : Rob
  pub regs : ℕ → ℕ

-- '0
abbrev pub zero_data : InstrData
zero_data = record {
  pc_of = 0;
  instr = 0;
  addr_rs1 = 0;
  addr_rs2 = 0;
  addr_rd = 0;
  write_enable = false;
  rs1_or_pc = rs1;
  rs2_or_imm = rs2;
  alu_op = add;
  wb_origin = alu;
  store_to_mem = false;
  jump_kind = jump;
  exe_stages = 0;
  is_mul = false;
  rob_idx = 0;
  kanata_id = 0;
}

-- The state after reset, by what the registers without a reset hold: `regs` (of which x31 stays) and
-- the memory behind the caches.
unfoldable pub reset : (ℕ → ℕ) → System → Pipeline
reset regs system = record {
  frontend = tartaruga.Frontend.reset;
  instruction_q = 0;
  pc_decode = 0;
  valid_decode = false;
  id_decode = 0;
  decode_to_exe_q = record {
    instr = zero_data;
    valid = false;
    data_rs1 = 0;
    data_rs2 = 0;
    immediate = 0;
  };
  exe = tartaruga.Exe.reset;
  exe_to_mem_q = record {
    instr = zero_data;
    valid = false;
    data_rs2 = 0;
    result = 0;
    branch_taken = false;
  };
  mem_stage = record { buffer = tartaruga.StoreBuffer.reset; cache = tartaruga.Dcache.reset };
  system = system;
  mem_to_wb_q = record {
    instr = zero_data;
    valid = false;
    result = 0;
    branch_taken = false;
    branched_pc = 0;
    store_buffer_idx = 0;
  };
  rob = tartaruga.Rob.reset;
  regs = regfile_reset regs;
}

-- decode_to_exe_d.instr
unfoldable pub decoded : Pipeline → InstrData
decoded c = decode c.pc_decode c.instruction_q c.rob.tail c.id_decode

unfoldable pub exe_to_mem_d : Pipeline → ExeToMem
exe_to_mem_d c = exe_out c.exe c.decode_to_exe_q

-- The commit outputs of `rob_inst`, zero if nothing commits.
abbrev pub entry_or_zero : Option Entry → Entry
entry_or_zero none = empty_entry
entry_or_zero (some e) = e

unfoldable pub commit : Pipeline → Entry
commit c = entry_or_zero (commit_out c.rob)

-- The inputs of `mem_inst` that its outputs are computed from.
unfoldable pub mem_view : Pipeline → MemInputs
mem_view c = record {
  exe_to_mem_i = c.exe_to_mem_q;
  still_alive_i = false;
  commit_i = (commit c).store_to_mem;
  commit_idx_i = (commit c).store_buffer_idx;
  discard_i = λ k. false;
  req_ready_i = req_ready c.system.wrapper;
  data_line_i = (response c.system.wrapper).words;
  rsp_valid_i = (response c.system.wrapper).valid;
}

unfoldable pub stall_from_mem : Pipeline → Bool
stall_from_mem c = mem_stall c.mem_stage (mem_view c)

unfoldable pub mem_to_wb_d : Pipeline → MemToWb
mem_to_wb_d c = record {
  instr = c.exe_to_mem_q.instr;
  valid = mem_valid c.mem_stage (mem_view c);
  result = mem_out c.mem_stage (mem_view c);
  branch_taken = c.exe_to_mem_q.branch_taken;
  branched_pc = branched_pc_out c.exe_to_mem_q;
  store_buffer_idx = c.mem_stage.buffer.tail;
}

unfoldable pub wires : Pipeline → Wires
unfolding stall_from_mem mem_to_wb_d
wires c = record {
  exe_to_mem_d = exe_to_mem_d c;
  mem_to_wb_d = mem_to_wb_d c;
  mem_to_wb_q = c.mem_to_wb_q;
  stall_from_exe = exe_stall c.exe c.decode_to_exe_q;
  stall_from_mem = stall_from_mem c;
  valid_fetch = valid_out c.frontend;
  valid_decode = c.valid_decode;
}

unfoldable pub decode_to_exe_d : Pipeline → DecodeToExe
decode_to_exe_d c =
    let d = decoded c in
    record {
      instr = d;
      valid = decode_valid c.rob (wires c) d;
      data_rs1 =
          (operand c.rob (wires c) (hazard c.rob d.addr_rs1) (regfile_read c.regs d.addr_rs1)).0;
      data_rs2 =
          (operand c.rob (wires c) (hazard c.rob d.addr_rs2) (regfile_read c.regs d.addr_rs2)).0;
      immediate = immediate d;
    }

-- `stall`
unfoldable pub stalls : Pipeline → Bool
stalls c = stall c.rob (wires c) (decoded c)

-- The inputs of `rob_inst`.
unfoldable pub to_rob : Pipeline → tartaruga.Rob.Inputs
to_rob c = rob_inputs c.rob (wires c) (decoded c)

-- All the inputs of `mem_inst`.
unfoldable pub mem_inputs : Pipeline → MemInputs
mem_inputs c = record (mem_view c) {
  still_alive_i = still_alive c.rob (to_rob c) c.exe_to_mem_q.instr.rob_idx;
  discard_i = discard_store_buffer c.rob (to_rob c);
}

-- What `mem_inst` asks of its data cache.
unfoldable pub access : Pipeline → Access
access c =
    let x = dcache_inputs c.mem_stage (mem_inputs c) in
    record { addr = x.addr; data_wr = x.data_wr; we = x.we; req = x.req }

unfoldable pub system_next : Pipeline → System
system_next c =
    wrapper_step c.system
      (wrapper_request (record { cache = c.mem_stage.cache; system = c.system }) (access c))

-- The inputs of `fetch_inst`.
unfoldable pub fetch_inputs : Pipeline → tartaruga.Frontend.Inputs
fetch_inputs c = record {
  taken_branch = (commit c).branch_taken;
  new_pc = (commit c).new_pc;
  stall = stalls c;
}

-- The register in front of exe.
unfoldable pub decode_to_exe_next : Pipeline → DecodeToExe
decode_to_exe_next c =
    if not (stalls c)
    then decode_to_exe_d c
    else if not (exe_stall c.exe c.decode_to_exe_q) && not (stall_from_mem c)
    then nop_instr
    else c.decode_to_exe_q

unfoldable pub pipeline_step : Pipeline → Pipeline
unfolding decode_to_exe_next to_rob
pipeline_step c =
    let taken = (commit c).branch_taken in
    let s = stalls c in
    record {
      frontend = frontend_step c.system.memory c.frontend (fetch_inputs c);
      instruction_q = if taken then 0 else if s then c.instruction_q else instr_out c.frontend;
      pc_decode = if taken then 0 else if s then c.pc_decode else c.frontend.counter.pc_q;
      valid_decode = if taken then false else if s then c.valid_decode else valid_out c.frontend;
      id_decode = if taken then 0 else if s then c.id_decode else c.frontend.counter.kanata_id;
      decode_to_exe_q = decode_to_exe_next c;
      exe = exe_step c.exe c.decode_to_exe_q;
      exe_to_mem_q = if stall_from_mem c then c.exe_to_mem_q else exe_to_mem_d c;
      mem_stage = mem_step c.mem_stage (mem_inputs c);
      system = system_next c;
      mem_to_wb_q = mem_to_wb_d c;
      rob = rob_step c.rob (to_rob c);
      regs = regfile_step c.regs (commit c).addr_rd (commit c).result (commit c).write_enable;
    }
