-- ===== src/Exe.antt =====
-- rtl/datapath/exe/exe.sv and mul.sv: the execution stage. A single-cycle instruction leaves in
-- the cycle in which it enters; a product waits in the metadata pipe while `mul` delays it.
pub mod Pipe
use tartaruga.Base.{ℕ, Bool, true, false, not, ◌&&◌, ◌-◌, ◌==◌, if◌then◌else◌, update}
use tartaruga.Pkg.{InstrData, DecodeToExe, ExeToMem, nop_instr, max_exe_stages, exe_stages_mult}
use tartaruga.Pkg.{rs1, pc, rs2, imm, Rs1OrPc, Rs2OrImm, JumpKind, bnone}
use tartaruga.Alu.{alu_result, mul_result, taken}
use tartaruga.Decode.{is_bnone}

-- The registers of the stage: the metadata pipe and the delay line of the multiplier.
pub record ExeState : Type 0 where
  pub pipe : ℕ → DecodeToExe
  pub delay : ℕ → ℕ

unfoldable pub reset : ExeState
reset = record { pipe = λ i. nop_instr; delay = λ i. 0 }

-- alu_data_rs1 and alu_data_rs2
unfoldable pub operand_rs1 : DecodeToExe → ℕ
operand_rs1 x = elim x.instr.rs1_or_pc [ rs1 ↦ x.data_rs1 | pc ↦ x.instr.pc_of ]

unfoldable pub operand_rs2 : DecodeToExe → ℕ
operand_rs2 x = elim x.instr.rs2_or_imm [ rs2 ↦ x.data_rs2 | imm ↦ x.immediate ]

-- The index at which an instruction enters the pipe.
abbrev pub entry_slot : DecodeToExe → ℕ
entry_slot x = max_exe_stages - x.instr.exe_stages

-- The pipe one step on, before the new instruction.
abbrev pub shifted : (ℕ → DecodeToExe) → ℕ → DecodeToExe
shifted q i = if i == 0 then nop_instr else q (i - 1)

unfoldable pub exe_stall : ExeState → DecodeToExe → Bool
exe_stall s x = (shifted s.pipe (entry_slot x)).valid

-- exe_pipe_d
unfoldable pub pipe_next : ExeState → DecodeToExe → ℕ → DecodeToExe
unfolding exe_stall
pipe_next s x = if exe_stall s x then shifted s.pipe else update (shifted s.pipe) (entry_slot x) x

-- The delay line has EXE_STAGES_MULT - 1 registers.
unfoldable pub delay_next : ExeState → DecodeToExe → ℕ → ℕ
unfolding operand_rs1 operand_rs2
delay_next s x i = if i == 0 then mul_result (operand_rs1 x) (operand_rs2 x) else s.delay (i - 1)

unfoldable pub exe_step : ExeState → DecodeToExe → ExeState
unfolding pipe_next delay_next
exe_step s x = record { pipe = pipe_next s x; delay = delay_next s x }

-- res_alu
unfoldable pub exe_alu : DecodeToExe → ℕ
unfolding operand_rs1 operand_rs2
exe_alu x = alu_result x.instr.alu_op (operand_rs1 x) (operand_rs2 x)

unfoldable pub exe_out : ExeState → DecodeToExe → ExeToMem
unfolding pipe_next exe_alu
exe_out s x =
    let last = pipe_next s x (max_exe_stages - 1) in
    record {
      branch_taken =
          taken x.instr.jump_kind x.data_rs1 x.data_rs2
          && not (is_bnone last.instr.jump_kind)
          && last.valid;
      instr = last.instr;
      valid = last.valid;
      data_rs2 = last.data_rs2;
      result = if last.instr.is_mul then s.delay (exe_stages_mult - 2) else exe_alu x;
    }
