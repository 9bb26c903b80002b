-- ===== src/Datapath.antt =====
-- rtl/datapath/datapath.sv: the operands of the instruction in decode, its stall, and the way to the
-- reorder buffer. The outputs of the other stages are arguments.
pub mod Operands
pub mod Reach
use tartaruga.Base.{ℕ, Bool, true, false, not, ◌&&◌, ◌||◌, ◌==◌, if◌then◌else◌, none, some, Option}
use tartaruga.Pkg.{InstrData, ExeToMem, MemToWb}
use tartaruga.Mem.{is_mem}
use tartaruga.Rob.{Rob, Inputs, hazard, hazard_completed, hazard_result, rob_full, flush, rob_step}

-- The wires that decode reads: the results leaving the execution and the memory stage, and the
-- signals of the other stages.
pub record Wires : Type 0 where
  pub exe_to_mem_d : ExeToMem
  pub mem_to_wb_d : MemToWb
  pub mem_to_wb_q : MemToWb
  pub stall_from_exe : Bool
  pub stall_from_mem : Bool
  pub valid_fetch : Bool
  pub valid_decode : Bool

-- hazard_rob_rs1
unfoldable pub has_hazard : Option ℕ → Bool
has_hazard none = false
has_hazard (some i) = true

-- The conditions under which a result is forwarded to a hazard with slot `i`.
unfoldable pub in_exe : ℕ → Wires → Bool
in_exe i w =
    i == w.exe_to_mem_d.instr.rob_idx
    && w.exe_to_mem_d.valid
    && not (is_mem w.exe_to_mem_d.instr.wb_origin)

unfoldable pub in_mem : ℕ → Wires → Bool
in_mem i w = i == w.mem_to_wb_d.instr.rob_idx && w.mem_to_wb_d.valid

-- decode_to_exe_d.data_rs1 and solved_hazard_rs1, by the hazard found and with `regfile_data` from
-- the register file.
unfoldable pub operand : Rob → Wires → Option ℕ → ℕ → ℕ × Bool
unfolding in_exe in_mem
operand r w none regfile_data = (regfile_data, true)
operand r w (some i) regfile_data =
    if hazard_completed r (some i)
    then (hazard_result r (some i), true)
    else if in_exe i w
    then (w.exe_to_mem_d.result, true)
    else if in_mem i w
    then (w.mem_to_wb_d.result, true)
    else (regfile_data, false)

-- `stall`, for the sources of the instruction in decode; whether a hazard is solved does not depend
-- on the data of the register file.
unfoldable pub stall : Rob → Wires → InstrData → Bool
unfolding has_hazard operand
stall r w d =
    (has_hazard (hazard r d.addr_rs1) || has_hazard (hazard r d.addr_rs2))
      && not ((operand r w (hazard r d.addr_rs1) 0).1 && (operand r w (hazard r d.addr_rs2) 0).1)
    || w.stall_from_exe
    || not w.valid_fetch
    || rob_full r
    || w.stall_from_mem

-- decode_to_exe_d.valid; commit_branch_taken is the flush of the reorder buffer.
unfoldable pub decode_valid : Rob → Wires → InstrData → Bool
decode_valid r w d = not (stall r w d) && w.valid_decode && not (flush r)

-- The inputs of `rob_inst`.
unfoldable pub rob_inputs : Rob → Wires → InstrData → Inputs
rob_inputs r w d = record {
  valid_decode = decode_valid r w d;
  pc_i = d.pc_of;
  instr_i = d.instr;
  rd_addr_i = d.addr_rd;
  write_enable_i = d.write_enable;
  store_to_mem_i = d.store_to_mem;
  kanata_id_i = d.kanata_id;
  rob_entry_commit = w.mem_to_wb_q.instr.rob_idx;
  valid_wb = w.mem_to_wb_q.valid;
  result_i = w.mem_to_wb_q.result;
  new_pc_i = w.mem_to_wb_q.branched_pc;
  branch_taken_i = w.mem_to_wb_q.branch_taken;
  store_buffer_idx_i = w.mem_to_wb_q.store_buffer_idx;
}

-- The reorder buffer after a clock cycle of the datapath.
unfoldable pub datapath_rob : Rob → Wires → InstrData → Rob
datapath_rob r w d = rob_step r (rob_inputs r w d)
