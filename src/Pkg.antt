-- ===== src/Pkg.antt =====
-- includes/tartaruga_pkg.sv and includes/riscv_pkg.sv: the types and constants of the core.
-- A `bus32_t`, an instruction, a register address or an index is a number; its width is a
-- hypothesis or an invariant where a property needs it.
use tartaruga.Base.{ℕ, Bool, false, ◌==◌, ltb, if◌then◌else◌}

pub data AluOp : Type 0 where
  add sub slt sltu sll srl sra xor or and : AluOp

pub data Rs2OrImm : Type 0 where
  rs2 imm : Rs2OrImm

pub data Rs1OrPc : Type 0 where
  rs1 pc : Rs1OrPc

pub data WbOrigin : Type 0 where
  alu mem mul pc_4 : WbOrigin

pub data JumpKind : Type 0 where
  jump bne beq blt bltu bge bgeu bnone : JumpKind

-- The operations that the decoder selects for one instruction.
pub record InstrData : Type 0 where
  pub pc_of : ℕ
  pub instr : ℕ
  pub addr_rs1 : ℕ
  pub addr_rs2 : ℕ
  pub addr_rd : ℕ
  pub write_enable : Bool
  pub rs1_or_pc : Rs1OrPc
  pub rs2_or_imm : Rs2OrImm
  pub alu_op : AluOp
  pub wb_origin : WbOrigin
  pub store_to_mem : Bool
  pub jump_kind : JumpKind
  pub exe_stages : ℕ
  pub is_mul : Bool
  pub rob_idx : ℕ
  pub kanata_id : ℕ

pub record DecodeToExe : Type 0 where
  pub instr : InstrData
  pub valid : Bool
  pub data_rs1 : ℕ
  pub data_rs2 : ℕ
  pub immediate : ℕ

pub record ExeToMem : Type 0 where
  pub instr : InstrData
  pub valid : Bool
  pub data_rs2 : ℕ
  pub result : ℕ
  pub branch_taken : Bool

pub record MemToWb : Type 0 where
  pub instr : InstrData
  pub valid : Bool
  pub result : ℕ
  pub branch_taken : Bool
  pub branched_pc : ℕ
  pub store_buffer_idx : ℕ

abbrev pub exe_stages_default : ℕ
exe_stages_default = 1

abbrev pub exe_stages_mult : ℕ
exe_stages_mult = 5

abbrev pub max_exe_stages : ℕ
max_exe_stages =
    if ltb exe_stages_mult exe_stages_default then exe_stages_default else exe_stages_mult

abbrev pub rob_size : ℕ
rob_size = 16

abbrev pub store_buffer_size : ℕ
store_buffer_size = 4

abbrev pub reg_count : ℕ
reg_count = 32

abbrev pub nop_instr_data : InstrData
nop_instr_data = record {
  pc_of = 0;
  instr = 0x33;
  addr_rs1 = 0;
  addr_rs2 = 0;
  addr_rd = 0;
  write_enable = false;
  rs1_or_pc = rs1;
  rs2_or_imm = rs2;
  alu_op = add;
  wb_origin = alu;
  store_to_mem = false;
  jump_kind = bnone;
  exe_stages = 1;
  is_mul = false;
  rob_idx = 0;
  kanata_id = 0;
}

abbrev pub nop_instr : DecodeToExe
nop_instr = record {
  instr = nop_instr_data;
  valid = false;
  data_rs1 = 0;
  data_rs2 = 0;
  immediate = 0;
}

-- opcode_t
pub data Opcode : Type 0 where
  op_lw op_alu_i op_auipc op_sw op_alu op_lui op_branch op_jal op_jalr op_other : Opcode

-- The `case` labels of an opcode; `op_other` is what falls to `default`.
abbrev pub opcode_of : ℕ → Opcode
opcode_of n =
    if n == 0b0000011
    then op_lw
    else if n == 0b0010011
    then op_alu_i
    else if n == 0b0010111
    then op_auipc
    else if n == 0b0100011
    then op_sw
    else if n == 0b0110011
    then op_alu
    else if n == 0b0110111
    then op_lui
    else if n == 0b1100011
    then op_branch
    else if n == 0b1101111
    then op_jal
    else if n == 0b1100111
    then op_jalr
    else op_other
