-- ===== src/Single/Fields.antt =====
-- What one instruction does, given the fields of its word.
use tartaruga.Base.{ℕ, ◌≡◌, ◌*◌, refl, if◌then◌else◌, arith, word_mod}
use tartaruga.Pkg.{AluOp, add}
use tartaruga.Decode.{
  opcode_field, func3_field, func7_field, rs1_field, rs2_field, rd_field, immediate_word,
}
use tartaruga.Decode.Encode.{op_func3, op_func7, imm_func3, shift_func3, shift_func7, cond_func3}
use tartaruga.Decode.Encode.{op, mul, op_imm, shift_imm, lui, auipc, lw, sw, jal, jalr}
use tartaruga.Decode.Encode.{ImmOp, addi, ShiftOp, slli, Cond, eq, ne, lt, ge, lt_u, ge_u}
use tartaruga.Pkg.{JumpKind, bne, beq, blt, bltu, bge, bgeu}
use tartaruga.Base.{◌<◌, ◌%◌, add32, none, some}
use tartaruga.Alu.{taken, alu_result}
use tartaruga.Single.Isa.{isa, value, sign_extend, imm_op, shift_op, holds}
use tartaruga.Single.Hardware.{run_word}

-- The fields of a word that the register, immediate and branch forms read.
pub record Has (w opc rd f3 r1 : ℕ) : Type 0 where
  pub has_opcode : opcode_field w ≡ opc
  pub has_rd : rd_field w ≡ rd
  pub has_func3 : func3_field w ≡ f3
  pub has_rs1 : rs1_field w ≡ r1

abbrev kind_of : Cond → JumpKind
kind_of eq = beq
kind_of ne = bne
kind_of lt = blt
kind_of ge = bge
kind_of lt_u = bltu
kind_of ge_u = bgeu

taken-kind_of :
    (c : Cond) (a b : ℕ) → a < word_mod → b < word_mod → taken (kind_of c) a b ≡ holds c a b
unfolding taken
taken-kind_of lt a b p q = ground arith
taken-kind_of ge a b p q = ground arith
taken-kind_of _ a b p q = refl

module _ (pc : ℕ) (regs load : ℕ → ℕ) where
  pub run-op :
      (o : AluOp) (w rd r1 r2 : ℕ)
      → Has w 0x33 rd (op_func3 o) r1
      → rs2_field w ≡ r2
      → func7_field w ≡ op_func7 o
      → alu_result o (regs r1) (regs r2) ≡ value o (regs r1) (regs r2)
      → run_word pc regs load w ≡ isa pc regs load (op o rd r1 r2)
  unfolding run_word taken
  run-op add w rd r1 r2 h a b e = rw (h.has_opcode, h.has_rd, h.has_func3, h.has_rs1, a, b, e)
  run-op _ w rd r1 r2 h a b e = rw (h.has_opcode, h.has_rd, h.has_func3, h.has_rs1, a, b, e)

  pub run-mul :
      (w rd r1 r2 : ℕ)
      → Has w 0x33 rd 0 r1
      → rs2_field w ≡ r2
      → func7_field w ≡ 1
      → run_word pc regs load w ≡ isa pc regs load (mul rd r1 r2)
  unfolding run_word taken
  run-mul w rd r1 r2 h a b = rw (h.has_opcode, h.has_rd, h.has_func3, h.has_rs1, a, b)

  pub run-op_imm :
      (o : ImmOp) (w rd r1 i : ℕ)
      → Has w 0x13 rd (imm_func3 o) r1
      → immediate_word w ≡ sign_extend 4096 i
      → alu_result (imm_op o) (regs r1) (sign_extend 4096 i)
        ≡ value (imm_op o) (regs r1) (sign_extend 4096 i)
      → run_word pc regs load w ≡ isa pc regs load (op_imm o rd r1 i)
  unfolding run_word taken
  run-op_imm addi w rd r1 i h c e = rw (h.has_opcode, h.has_rd, h.has_func3, h.has_rs1, c, e)
  run-op_imm _ w rd r1 i h c e = rw (h.has_opcode, h.has_rd, h.has_func3, h.has_rs1, c, e)

  pub run-shift_imm :
      (o : ShiftOp) (w rd r1 i j : ℕ)
      → Has w 0x13 rd (shift_func3 o) r1
      → func7_field w ≡ shift_func7 o
      → immediate_word w ≡ j
      → alu_result (shift_op o) (regs r1) j ≡ value (shift_op o) (regs r1) i
      → run_word pc regs load w ≡ isa pc regs load (shift_imm o rd r1 i)
  unfolding run_word taken
  run-shift_imm slli w rd r1 i j h b c e =
      rw (h.has_opcode, h.has_rd, h.has_func3, h.has_rs1, b, c, e)
  run-shift_imm _ w rd r1 i j h b c e = rw (h.has_opcode, h.has_rd, h.has_func3, h.has_rs1, b, c, e)

  pub run-lui :
      (w rd i : ℕ)
      → opcode_field w ≡ 0x37
      → rd_field w ≡ rd
      → immediate_word w ≡ i * 4096
      → alu_result add (regs 0) (i * 4096) ≡ i * 4096
      → run_word pc regs load w ≡ isa pc regs load (lui rd i)
  unfolding run_word taken
  run-lui w rd i a b c e = rw (a, b, c, e)

  pub run-auipc :
      (w rd i : ℕ)
      → opcode_field w ≡ 0x17
      → rd_field w ≡ rd
      → immediate_word w ≡ i * 4096
      → run_word pc regs load w ≡ isa pc regs load (auipc rd i)
  unfolding run_word alu_result taken
  run-auipc w rd i a b c = rw (a, b, c)

  pub run-lw :
      (w rd f3 r1 i : ℕ)
      → Has w 3 rd f3 r1
      → immediate_word w ≡ sign_extend 4096 i
      → run_word pc regs load w ≡ isa pc regs load (lw rd r1 i)
  unfolding run_word alu_result taken
  run-lw w rd f3 r1 i h c = rw (h.has_opcode, h.has_rd, h.has_rs1, c)

  pub run-sw :
      (w rd f3 r1 r2 i : ℕ)
      → Has w 0x23 rd f3 r1
      → rs2_field w ≡ r2
      → immediate_word w ≡ sign_extend 4096 i
      → run_word pc regs load w ≡ isa pc regs load (sw r1 r2 i)
  unfolding run_word alu_result taken
  run-sw w rd f3 r1 r2 i h a c = rw (h.has_opcode, h.has_rs1, a, c)

  pub run-jal :
      (w rd i : ℕ)
      → opcode_field w ≡ 0x6f
      → rd_field w ≡ rd
      → immediate_word w ≡ sign_extend 0x200000 (2 * i)
      → run_word pc regs load w ≡ isa pc regs load (jal rd i)
  unfolding run_word alu_result taken
  run-jal w rd i a b c = rw (a, b, c)

  -- JALR goes to the sum as it is.
  pub run-jalr_any :
      (w rd f3 r1 i : ℕ)
      → Has w 0x67 rd f3 r1
      → immediate_word w ≡ sign_extend 4096 i
      → run_word pc regs load w ≡ record {
        writes = some (rd, add32 pc 4);
        stores = none;
        next_pc = add32 (regs r1) (sign_extend 4096 i);
      }
  unfolding run_word alu_result taken
  run-jalr_any w rd f3 r1 i h c = rw (h.has_opcode, h.has_rd, h.has_rs1, c)

  pub run-jalr :
      (w rd f3 r1 i : ℕ)
      → Has w 0x67 rd f3 r1
      → immediate_word w ≡ sign_extend 4096 i
      → add32 (regs r1) (sign_extend 4096 i) % 2 ≡ 0
      → run_word pc regs load w ≡ isa pc regs load (jalr rd r1 i)
  run-jalr w rd f3 r1 i h c e = rw (run-jalr_any w rd f3 r1 i h c) (ground arith)

  -- A branch whose target is `off` from it.
  pub run-branch :
      (c : Cond) (w rd r1 r2 off : ℕ)
      → Has w 0x63 rd (cond_func3 c) r1
      → rs2_field w ≡ r2
      → immediate_word w ≡ off
      → regs r1 < word_mod
      → regs r2 < word_mod
      → run_word pc regs load w ≡ record {
        writes = none;
        stores = none;
        next_pc = if holds c (regs r1) (regs r2) then add32 pc off else add32 pc 4;
      }
  unfolding run_word alu_result
  run-branch eq w rd r1 r2 off h a c p q =
      rw (h.has_opcode, h.has_func3, h.has_rs1, a, c)
        (ground (arith, taken-kind_of eq (regs r1) (regs r2)))
  run-branch k w rd r1 r2 off h a c p q =
      rw (h.has_opcode, h.has_func3, h.has_rs1, a, c)
        (ground (arith, taken-kind_of k (regs r1) (regs r2)))
