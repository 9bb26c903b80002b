-- ===== src/Single/Isa.antt =====
-- The instructions as the RISC-V manual defines them, on values and not on encodings.
use tartaruga.Base.{
  ℕ, Option, none, some, ◌+◌, ◌-◌, ◌*◌, ◌%◌, ◌/◌, ltb, if◌then◌else◌, Bool, not, ◌==◌,
}
use tartaruga.Base.{add32, word_mod, sign_bit, ◌^◌, bit_and, bit_or, bit_xor}
use tartaruga.Pkg.{AluOp, add, sub, slt, sltu, sll, srl, sra, xor, or, and}
use tartaruga.Decode.Encode.{
  Instr, op, mul, op_imm, shift_imm, lui, auipc, lw, sw, branch, jal, jalr,
}
use tartaruga.Decode.Encode.{ImmOp, addi, slti, sltiu, xori, ori, andi, ShiftOp, slli, srli, srai}
use tartaruga.Decode.Encode.{Cond, eq, ne, lt, ge, lt_u, ge_u}
use tartaruga.Alu.Laws.{flip_sign}

-- What an instruction changes: a register, a word of memory, the program counter.
pub record Effect : Type 0 where
  pub writes : Option (ℕ × ℕ)
  pub stores : Option (ℕ × ℕ)
  pub next_pc : ℕ

-- The value of a `width`-value field read as two's complement, as a 32-bit word.
abbrev pub sign_extend : ℕ → ℕ → ℕ
sign_extend size i = if ltb i (size / 2) then i else i + word_mod - size

abbrev pub imm_op : ImmOp → AluOp
imm_op addi = add
imm_op slti = slt
imm_op sltiu = sltu
imm_op xori = xor
imm_op ori = or
imm_op andi = and

abbrev pub shift_op : ShiftOp → AluOp
shift_op slli = sll
shift_op srli = srl
shift_op srai = sra

-- The comparison of a branch; signed words are compared with the sign bit flipped.
abbrev pub holds : Cond → ℕ → ℕ → Bool
holds eq a b = a == b
holds ne a b = not (a == b)
holds lt a b = ltb (flip_sign a) (flip_sign b)
holds ge a b = not (ltb (flip_sign a) (flip_sign b))
holds lt_u a b = ltb a b
holds ge_u a b = not (ltb a b)

-- The value of an arithmetic instruction on two 32-bit words: sums and differences modulo 2 ^ 32,
-- comparisons that give 0 or 1 (the signed one with the sign bits flipped), and shifts by the low
-- five bits; SRA divides and rounds down, also the negative words.
abbrev pub value : AluOp → ℕ → ℕ → ℕ
value add a b = (a + b) % word_mod
value sub a b = (a + (word_mod - b)) % word_mod
value slt a b = if ltb (flip_sign a) (flip_sign b) then 1 else 0
value sltu a b = if ltb a b then 1 else 0
value sll a b = a * 2 ^ (b % 32) % word_mod
value srl a b = a / 2 ^ (b % 32)
value sra a b =
    if ltb a sign_bit then a / 2 ^ (b % 32) else word_mod - 1 - (word_mod - 1 - a) / 2 ^ (b % 32)
value xor a b = bit_xor a b
value or a b = bit_or a b
value and a b = bit_and a b

module _ (pc : ℕ) (regs load : ℕ → ℕ) where
  abbrev next : ℕ
  next = add32 pc 4

  abbrev pub isa : Instr → Effect
  isa (op o rd rs1 rs2) = record {
    writes = some (rd, value o (regs rs1) (regs rs2));
    stores = none;
    next_pc = next;
  }
  isa (mul rd rs1 rs2) = record {
    writes = some (rd, regs rs1 * regs rs2 % word_mod);
    stores = none;
    next_pc = next;
  }
  isa (op_imm o rd rs1 i) = record {
    writes = some (rd, value (imm_op o) (regs rs1) (sign_extend 4096 i));
    stores = none;
    next_pc = next;
  }
  isa (shift_imm o rd rs1 i) = record {
    writes = some (rd, value (shift_op o) (regs rs1) i);
    stores = none;
    next_pc = next;
  }
  isa (lui rd i) = record { writes = some (rd, i * 4096); stores = none; next_pc = next }
  isa (auipc rd i) = record {
    writes = some (rd, add32 pc (i * 4096));
    stores = none;
    next_pc = next;
  }
  isa (lw rd rs1 i) = record {
    writes = some (rd, load (add32 (regs rs1) (sign_extend 4096 i)));
    stores = none;
    next_pc = next;
  }
  isa (sw rs1 rs2 i) = record {
    writes = none;
    stores = some (add32 (regs rs1) (sign_extend 4096 i), regs rs2);
    next_pc = next;
  }
  isa (branch c rs1 rs2 i) = record {
    writes = none;
    stores = none;
    next_pc = if holds c (regs rs1) (regs rs2) then add32 pc (sign_extend 8192 (2 * i)) else next;
  }
  isa (jal rd i) = record {
    writes = some (rd, next);
    stores = none;
    next_pc = add32 pc (sign_extend 0x200000 (2 * i));
  }
  -- The target's lowest bit is cleared.
  isa (jalr rd rs1 i) = record {
    writes = some (rd, next);
    stores = none;
    next_pc = let t = add32 (regs rs1) (sign_extend 4096 i) in t - t % 2;
  }
