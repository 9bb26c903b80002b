-- ===== src/Single/Hardware.antt =====
-- One instruction through the functional blocks of rtl/datapath/datapath.sv, with no other
-- instruction in flight: operands from the register file, the result chosen by the memory stage,
-- the program counter chosen by fetch.
use tartaruga.Base.{ℕ, true, false, none, some, if◌then◌else◌}
use tartaruga.Pkg.{DecodeToExe, ExeToMem}
use tartaruga.Decode.{decode, immediate}
use tartaruga.Alu.{taken, mul_result}
use tartaruga.Exe.{operand_rs1, operand_rs2, exe_alu}
use tartaruga.Mem.{mem_result, branched_pc_out}
use tartaruga.Fetch.{pc_next}
use tartaruga.Single.Isa.{Effect}

module _ (pc : ℕ) (regs load : ℕ → ℕ) where
  -- decode_to_exe_d with no hazard.
  unfoldable pub issue : ℕ → DecodeToExe
  unfolding decode immediate
  issue word =
      let d = decode pc word 0 0 in
      record {
        instr = d;
        valid = true;
        data_rs1 = regs d.addr_rs1;
        data_rs2 = regs d.addr_rs2;
        immediate = immediate d;
      }

  -- exe_to_mem_o, once the instruction leaves the stage.
  unfoldable pub executed : DecodeToExe → ExeToMem
  unfolding exe_alu operand_rs1 operand_rs2 mul_result
  executed x = record {
    instr = x.instr;
    valid = x.valid;
    data_rs2 = x.data_rs2;
    result = if x.instr.is_mul then mul_result (operand_rs1 x) (operand_rs2 x) else exe_alu x;
    branch_taken = taken x.instr.jump_kind x.data_rs1 x.data_rs2;
  }

  -- What the commit of the instruction does.
  unfoldable pub committed : ExeToMem → Effect
  unfolding mem_result branched_pc_out pc_next
  committed x = record {
    writes =
        if x.instr.write_enable
        then some (x.instr.addr_rd, mem_result x false 0 (load x.result))
        else none;
    stores = if x.instr.store_to_mem then some (x.result, x.data_rs2) else none;
    next_pc = pc_next pc x.branch_taken (branched_pc_out x);
  }

  unfoldable pub run_word : ℕ → Effect
  unfolding issue executed committed
  run_word word = committed (executed (issue word))
