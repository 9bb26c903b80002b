-- ===== src/Single/Values.antt =====
-- rtl/datapath/exe/alu.sv against the values that the RISC-V manual gives.
use tartaruga.Base.{ℕ, ◌-◌, ◌%◌, ◌<◌, ◌≡◌, ◌∙◌, arith, refl, word_mod}
use tartaruga.Pkg.{AluOp, add, sub, slt, sltu, sll, srl, sra, xor, or, and}
use tartaruga.Decode.Encode.{ShiftOp, slli, srli, srai}
use tartaruga.Alu.{alu_result}
use tartaruga.Alu.Laws.{div-pow-le}
use tartaruga.Single.Isa.{value, shift_op}

pub alu_result-value :
    (o : AluOp) (a b : ℕ) → a < word_mod → b < word_mod → alu_result o a b ≡ value o a b
unfolding alu_result
alu_result-value add a b p q = omega arith
alu_result-value sub a b p q = omega arith
alu_result-value slt a b p q = ground arith
alu_result-value sltu a b p q = ground arith
alu_result-value sll a b p q = refl
alu_result-value srl a b p q = refl
alu_result-value sra a b p q =
    ground (arith, div-pow-le a (b % 32), div-pow-le (word_mod - 1 - a) (b % 32))
alu_result-value xor a b p q = refl
alu_result-value or a b p q = refl
alu_result-value and a b p q = refl

-- Only the low five bits of the immediate count in a shift.
pub shift_op-value :
    (o : ShiftOp) (a i j : ℕ)
    → a < word_mod
    → j < word_mod
    → j % 32 ≡ i % 32
    → alu_result (shift_op o) a j ≡ value (shift_op o) a i
shift_op-value slli a i j p q h = alu_result-value sll a j p q ∙ rw h refl
shift_op-value srli a i j p q h = alu_result-value srl a j p q ∙ rw h refl
shift_op-value srai a i j p q h = alu_result-value sra a j p q ∙ rw h refl
