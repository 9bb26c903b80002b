-- ===== src/Alu.antt =====
-- rtl/datapath/exe/alu.sv, branch.sv and the product of mul.sv.
pub mod Laws
use tartaruga.Base.{ℕ, Bool, true, false, not, ◌+◌, ◌*◌, ◌/◌, ◌%◌, ◌^◌, ◌==◌, ltb, bool_bit}
use tartaruga.Base.{add32, sub32, word_mod, signed, to_word, ltbℤ, shift_right}
use tartaruga.Base.{bit_and, bit_or, bit_xor}
use tartaruga.Pkg.{AluOp, add, sub, slt, sltu, sll, srl, sra, xor, or, and}
use tartaruga.Pkg.{JumpKind, jump, bne, beq, blt, bltu, bge, bgeu, bnone}

-- `data_rs2_i[4:0]`, the amount of a shift.
abbrev pub shamt : ℕ → ℕ
shamt b = b % 32

unfoldable pub alu_result : AluOp → ℕ → ℕ → ℕ
alu_result add a b = add32 a b
alu_result sub a b = sub32 a b
alu_result slt a b = bool_bit (ltbℤ (signed a) (signed b))
alu_result sltu a b = bool_bit (ltb a b)
alu_result sll a b = a * 2 ^ shamt b % word_mod
alu_result srl a b = a / 2 ^ shamt b
alu_result sra a b = to_word (shift_right (signed a) (shamt b))
alu_result xor a b = bit_xor a b
alu_result or a b = bit_or a b
alu_result and a b = bit_and a b

unfoldable pub mul_result : ℕ → ℕ → ℕ
mul_result a b = a * b % word_mod

unfoldable pub taken : JumpKind → ℕ → ℕ → Bool
taken bnone a b = false
taken jump a b = true
taken bne a b = not (a == b)
taken beq a b = a == b
taken blt a b = ltbℤ (signed a) (signed b)
taken bltu a b = ltb a b
taken bge a b = not (ltbℤ (signed a) (signed b))
taken bgeu a b = not (ltb a b)
