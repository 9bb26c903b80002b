-- ===== src/Tests/Units.antt =====
-- The arithmetic unit, the branch unit, the fields of a word, the multiplier and the register file.
use Prim.Native.Nat.{max, differ}
use tartaruga.Base.{
  min, ltb, if◌then◌else◌, ◌+◌, ◌%◌, List, [], ◌∷◌, ℕ, ◌<◌, ◌≤◌, ◌≡◌, ◌≢◌, ◌↔◌, true, false, refl,
  arith, word_mod,
}
use tartaruga.Base.Bits.{bit}
use tartaruga.Pkg.{
  AluOp, add, slt, sltu, sll, srl, sra, xor, or, and, sub, beq, bne, blt, bltu, bge, bgeu,
  DecodeToExe, nop_instr, nop_instr_data,
}
use tartaruga.Alu.{alu_result, mul_result, taken}
use tartaruga.Alu.Laws.{alu_result_lem, digit_of, flip_sign, taken_iff}
use tartaruga.Exe.{exe_step, exe_out, exe_stall, operand_rs1, operand_rs2, reset}
use tartaruga.Exe.Pipe.{mul_latency}
use tartaruga.Regfile.{regfile_read, regfile_reset}
use tartaruga.Regfile.History.{Write, run, run-reset}

abbrev most_negative : ℕ
most_negative = 0x8000_0000

abbrev one : ℕ
one = 1

taken_iff_example :
    ((taken beq most_negative one ≡ true) ↔ (most_negative ≡ one))
    × ((taken bne most_negative one ≡ true) ↔ (most_negative ≢ one))
    × ((taken bltu most_negative one ≡ true) ↔ (most_negative < one))
    × ((taken bgeu most_negative one ≡ true) ↔ (one ≤ most_negative))
    × ((taken blt most_negative one ≡ true) ↔ (flip_sign most_negative < flip_sign one))
    × ((taken bge most_negative one ≡ true) ↔ (flip_sign one ≤ flip_sign most_negative))
taken_iff_example = taken_iff most_negative one (omega arith) (omega arith)

alu_result_lem_example :
    let a = most_negative in
    let b = one in
    (alu_result add a b + (if ltb (a + b) word_mod then 0 else word_mod) ≡ a + b)
    × (alu_result sub a b + b ≡ a + (if ltb a b then word_mod else 0))
    × ((alu_result slt a b ≡ 1) ↔ (flip_sign a < flip_sign b))
    × ((alu_result slt a b ≡ 0) ↔ (flip_sign b ≤ flip_sign a))
    × ((alu_result sltu a b ≡ 1) ↔ (a < b))
    × ((alu_result sltu a b ≡ 0) ↔ (b ≤ a))
    × ((op : AluOp) → alu_result op a b < word_mod)
    × ((i : ℕ)
        → i < 32
        → (bit (alu_result sll a b) i ≡ digit_of sll a (b % 32) i)
          × (bit (alu_result srl a b) i ≡ digit_of srl a (b % 32) i)
          × (bit (alu_result sra a b) i ≡ digit_of sra a (b % 32) i)
          × (bit (alu_result xor a b) i ≡ differ (bit a i) (bit b i))
          × (bit (alu_result or a b) i ≡ max (bit a i) (bit b i))
          × (bit (alu_result and a b) i ≡ min (bit a i) (bit b i)))
alu_result_lem_example = alu_result_lem most_negative one (omega arith) (omega arith)

-- A product of 6 and 7.
abbrev six_by_seven : DecodeToExe
six_by_seven = record nop_instr {
  instr = record nop_instr_data { is_mul = true; exe_stages = 5 };
  valid = true;
  data_rs1 = 6;
  data_rs2 = 7;
}

-- A valid single-cycle instruction.
abbrev plain : DecodeToExe
plain = record nop_instr { valid = true }

mul_latency_example :
    let out =
      exe_out
        (exe_step (exe_step (exe_step (exe_step reset six_by_seven) plain) plain) plain)
        plain in
    (exe_stall reset six_by_seven ≡ false)
    × (out.valid ≡ true)
    × (out.instr ≡ six_by_seven.instr)
    × (out.result ≡ mul_result (operand_rs1 six_by_seven) (operand_rs2 six_by_seven))
mul_latency_example = mul_latency reset six_by_seven plain plain plain plain refl refl refl

-- Two writes of x5, one of x31 and one of x0.
abbrev history : List Write
history =
    record { addr_rd = 5; data_rd = 8; write_enable = true }
    ∷ record { addr_rd = 31; data_rd = 9; write_enable = true }
    ∷ record { addr_rd = 5; data_rd = 10; write_enable = true }
    ∷ record { addr_rd = 0; data_rd = 11; write_enable = true }
    ∷ []

run-reset_example : regfile_read (run (regfile_reset (λ i. 7)) history) 31 ≡ 7
run-reset_example = run-reset (λ i. 7) history 31
