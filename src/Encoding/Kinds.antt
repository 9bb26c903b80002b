-- ===== src/Encoding/Kinds.antt =====
-- riscv-tests/env/encoding.h: the names and the patterns that the instructions of the core have.
use Prim.Native.String.{String}
use tartaruga.Base.{◌≡◌, refl, some}
use tartaruga.Pkg.{AluOp, add, sub, slt, sltu, sll, srl, sra, xor, or, and}
use tartaruga.Decode.Encode.{
  Instr, op, mul, op_imm, shift_imm, lui, auipc, lw, sw, branch, jal, jalr, ImmOp, addi, slti,
  sltiu, xori, ori, andi, ShiftOp, slli, srli, srai, Cond, eq, ne, lt, ge, lt_u, ge_u,
}
use tartaruga.Encoding.{Pattern, insn, find}
use tartaruga.Encoding.Instructions.{instructions}

-- The kinds of the instructions, without their operands.
pub data Kind : Type 0 where
  k_op : AluOp → Kind
  k_mul k_lui k_auipc k_lw k_sw k_jal k_jalr : Kind
  k_op_imm : ImmOp → Kind
  k_shift_imm : ShiftOp → Kind
  k_branch : Cond → Kind

abbrev pub kind_of : Instr → Kind
kind_of (op o rd rs1 rs2) = k_op o
kind_of (mul rd rs1 rs2) = k_mul
kind_of (op_imm o rd rs1 i) = k_op_imm o
kind_of (shift_imm o rd rs1 i) = k_shift_imm o
kind_of (lui rd i) = k_lui
kind_of (auipc rd i) = k_auipc
kind_of (lw rd rs1 i) = k_lw
kind_of (sw rs1 rs2 i) = k_sw
kind_of (branch c rs1 rs2 i) = k_branch c
kind_of (jal rd i) = k_jal
kind_of (jalr rd rs1 i) = k_jalr

abbrev pub pattern_of : Kind → Pattern
pattern_of (k_op add) = insn "add" 0x33 0xfe00707f
pattern_of (k_op sub) = insn "sub" 0x40000033 0xfe00707f
pattern_of (k_op slt) = insn "slt" 0x2033 0xfe00707f
pattern_of (k_op sltu) = insn "sltu" 0x3033 0xfe00707f
pattern_of (k_op sll) = insn "sll" 0x1033 0xfe00707f
pattern_of (k_op srl) = insn "srl" 0x5033 0xfe00707f
pattern_of (k_op sra) = insn "sra" 0x40005033 0xfe00707f
pattern_of (k_op xor) = insn "xor" 0x4033 0xfe00707f
pattern_of (k_op or) = insn "or" 0x6033 0xfe00707f
pattern_of (k_op and) = insn "and" 0x7033 0xfe00707f
pattern_of k_mul = insn "mul" 0x2000033 0xfe00707f
pattern_of (k_op_imm addi) = insn "addi" 0x13 0x707f
pattern_of (k_op_imm slti) = insn "slti" 0x2013 0x707f
pattern_of (k_op_imm sltiu) = insn "sltiu" 0x3013 0x707f
pattern_of (k_op_imm xori) = insn "xori" 0x4013 0x707f
pattern_of (k_op_imm ori) = insn "ori" 0x6013 0x707f
pattern_of (k_op_imm andi) = insn "andi" 0x7013 0x707f
pattern_of (k_shift_imm slli) = insn "slli_rv32" 0x1013 0xfe00707f
pattern_of (k_shift_imm srli) = insn "srli_rv32" 0x5013 0xfe00707f
pattern_of (k_shift_imm srai) = insn "srai_rv32" 0x40005013 0xfe00707f
pattern_of k_lui = insn "lui" 0x37 0x7f
pattern_of k_auipc = insn "auipc" 0x17 0x7f
pattern_of k_lw = insn "lw" 0x2003 0x707f
pattern_of k_sw = insn "sw" 0x2023 0x707f
pattern_of (k_branch eq) = insn "beq" 0x63 0x707f
pattern_of (k_branch ne) = insn "bne" 0x1063 0x707f
pattern_of (k_branch lt) = insn "blt" 0x4063 0x707f
pattern_of (k_branch ge) = insn "bge" 0x5063 0x707f
pattern_of (k_branch lt_u) = insn "bltu" 0x6063 0x707f
pattern_of (k_branch ge_u) = insn "bgeu" 0x7063 0x707f
pattern_of k_jal = insn "jal" 0x6f 0x7f
pattern_of k_jalr = insn "jalr" 0x67 0x707f

abbrev pub name_of : Pattern → String
name_of (insn n m k) = n

-- The patterns are those of the table.
pub find-pattern_of : (k : Kind) → find (name_of (pattern_of k)) instructions ≡ some (pattern_of k)
unfolding find
find-pattern_of (k_op add) = refl
find-pattern_of (k_op sub) = refl
find-pattern_of (k_op slt) = refl
find-pattern_of (k_op sltu) = refl
find-pattern_of (k_op sll) = refl
find-pattern_of (k_op srl) = refl
find-pattern_of (k_op sra) = refl
find-pattern_of (k_op xor) = refl
find-pattern_of (k_op or) = refl
find-pattern_of (k_op and) = refl
find-pattern_of k_mul = refl
find-pattern_of (k_op_imm addi) = refl
find-pattern_of (k_op_imm slti) = refl
find-pattern_of (k_op_imm sltiu) = refl
find-pattern_of (k_op_imm xori) = refl
find-pattern_of (k_op_imm ori) = refl
find-pattern_of (k_op_imm andi) = refl
find-pattern_of (k_shift_imm slli) = refl
find-pattern_of (k_shift_imm srli) = refl
find-pattern_of (k_shift_imm srai) = refl
find-pattern_of k_lui = refl
find-pattern_of k_auipc = refl
find-pattern_of k_lw = refl
find-pattern_of k_sw = refl
find-pattern_of (k_branch eq) = refl
find-pattern_of (k_branch ne) = refl
find-pattern_of (k_branch lt) = refl
find-pattern_of (k_branch ge) = refl
find-pattern_of (k_branch lt_u) = refl
find-pattern_of (k_branch ge_u) = refl
find-pattern_of k_jal = refl
find-pattern_of k_jalr = refl
