-- ===== src/Decode/Encode.antt =====
-- The RV32I instructions that the README lists (with JALR), and their encodings as the RISC-V
-- manual lays them out. Immediates are the raw bits of the instruction, before sign extension.
use tartaruga.Base.{ℕ, ◌+◌, ◌*◌, ◌/◌, ◌%◌, ◌<◌}
use tartaruga.Pkg.{AluOp, add, sub, slt, sltu, sll, srl, sra, xor, or, and}

pub data ImmOp : Type 0 where
  addi slti sltiu xori ori andi : ImmOp

pub data ShiftOp : Type 0 where
  slli srli srai : ShiftOp

pub data Cond : Type 0 where
  eq ne lt ge lt_u ge_u : Cond

-- A branch offset is in units of 2 bytes (12 bits), and so is that of JAL (20 bits).
pub data Instr : Type 0 where
  op : AluOp → ℕ → ℕ → ℕ → Instr
  mul : ℕ → ℕ → ℕ → Instr
  op_imm : ImmOp → ℕ → ℕ → ℕ → Instr
  shift_imm : ShiftOp → ℕ → ℕ → ℕ → Instr
  lui : ℕ → ℕ → Instr
  auipc : ℕ → ℕ → Instr
  lw : ℕ → ℕ → ℕ → Instr
  sw : ℕ → ℕ → ℕ → Instr
  branch : Cond → ℕ → ℕ → ℕ → Instr
  jal : ℕ → ℕ → Instr
  jalr : ℕ → ℕ → ℕ → Instr

-- Registers are below 32, immediates within their fields.
abbrev pub IsEncodable : Instr → Type 0
IsEncodable (op o rd rs1 rs2) = (rd < 32) × (rs1 < 32) × (rs2 < 32)
IsEncodable (mul rd rs1 rs2) = (rd < 32) × (rs1 < 32) × (rs2 < 32)
IsEncodable (op_imm o rd rs1 i) = (rd < 32) × (rs1 < 32) × (i < 4096)
IsEncodable (shift_imm o rd rs1 i) = (rd < 32) × (rs1 < 32) × (i < 32)
IsEncodable (lui rd i) = (rd < 32) × (i < 0x100000)
IsEncodable (auipc rd i) = (rd < 32) × (i < 0x100000)
IsEncodable (lw rd rs1 i) = (rd < 32) × (rs1 < 32) × (i < 4096)
IsEncodable (sw rs1 rs2 i) = (rs1 < 32) × (rs2 < 32) × (i < 4096)
IsEncodable (branch c rs1 rs2 i) = (rs1 < 32) × (rs2 < 32) × (i < 4096)
IsEncodable (jal rd i) = (rd < 32) × (i < 0x100000)
IsEncodable (jalr rd rs1 i) = (rd < 32) × (rs1 < 32) × (i < 4096)

abbrev pub op_func3 : AluOp → ℕ
op_func3 add = 0
op_func3 sub = 0
op_func3 sll = 1
op_func3 slt = 2
op_func3 sltu = 3
op_func3 xor = 4
op_func3 srl = 5
op_func3 sra = 5
op_func3 or = 6
op_func3 and = 7

abbrev pub op_func7 : AluOp → ℕ
op_func7 sub = 32
op_func7 sra = 32
op_func7 _ = 0

abbrev pub imm_func3 : ImmOp → ℕ
imm_func3 addi = 0
imm_func3 slti = 2
imm_func3 sltiu = 3
imm_func3 xori = 4
imm_func3 ori = 6
imm_func3 andi = 7

abbrev pub shift_func3 : ShiftOp → ℕ
shift_func3 slli = 1
shift_func3 srli = 5
shift_func3 srai = 5

abbrev pub shift_func7 : ShiftOp → ℕ
shift_func7 srai = 32
shift_func7 _ = 0

abbrev pub cond_func3 : Cond → ℕ
cond_func3 eq = 0
cond_func3 ne = 1
cond_func3 lt = 4
cond_func3 ge = 5
cond_func3 lt_u = 6
cond_func3 ge_u = 7

-- func7, rs2, rs1, func3, rd, opcode
abbrev pub r_type : ℕ → ℕ → ℕ → ℕ → ℕ → ℕ → ℕ
r_type f7 rs2 rs1 f3 rd opc =
    f7 * 0x2000000 + rs2 * 0x100000 + rs1 * 0x8000 + f3 * 0x1000 + rd * 0x80 + opc

abbrev pub i_type : ℕ → ℕ → ℕ → ℕ → ℕ → ℕ
i_type i rs1 f3 rd opc = i * 0x100000 + rs1 * 0x8000 + f3 * 0x1000 + rd * 0x80 + opc

unfoldable pub encode : Instr → ℕ
encode (op o rd rs1 rs2) = r_type (op_func7 o) rs2 rs1 (op_func3 o) rd 0x33
encode (mul rd rs1 rs2) = r_type 1 rs2 rs1 0 rd 0x33
encode (op_imm o rd rs1 i) = i_type i rs1 (imm_func3 o) rd 0x13
encode (shift_imm o rd rs1 i) = r_type (shift_func7 o) i rs1 (shift_func3 o) rd 0x13
encode (lui rd i) = i * 0x1000 + rd * 0x80 + 0x37
encode (auipc rd i) = i * 0x1000 + rd * 0x80 + 0x17
encode (lw rd rs1 i) = i_type i rs1 2 rd 0x03
encode (sw rs1 rs2 i) = r_type (i / 32) rs2 rs1 2 (i % 32) 0x23
-- offset[12|10:5] and offset[4:1|11]
encode (branch c rs1 rs2 i) =
    r_type (i / 0x800 * 64 + i / 16 % 64) rs2 rs1 (cond_func3 c) (i % 16 * 2 + i / 0x400 % 2) 0x63
-- offset[20|10:1|11|19:12]
encode (jal rd i) =
    (i / 0x80000 * 0x80000 + i % 0x400 * 0x200 + i / 0x400 % 2 * 0x100 + i / 0x800 % 0x100) * 0x1000
    + rd * 0x80
    + 0x6f
encode (jalr rd rs1 i) = i_type i rs1 0 rd 0x67
