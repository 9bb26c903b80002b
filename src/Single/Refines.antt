-- ===== src/Single/Refines.antt =====
-- One instruction through the blocks of rtl/datapath/ against the RISC-V manual.
use tartaruga.Base.{
  ℕ, ◌+◌, ◌*◌, ◌/◌, ◌%◌, ◌≡◌, ◌≢◌, ◌⊎◌, inl, inr, ◌∙◌, arith, ◌<◌, ◌≤◌, word_mod, add32, ap, true,
  ltb,
}
use tartaruga.Base.{if◌then◌else◌, ◌-◌, none}
use tartaruga.Pkg.{AluOp, add}
use tartaruga.Alu.{alu_result}
use tartaruga.Decode.{immediate_word}
use tartaruga.Decode.Encode.{Instr, encode, IsEncodable, r_type, op_func3, op_func7}
use tartaruga.Decode.Encode.{imm_func3, ImmOp, ShiftOp, shift_func3, shift_func7}
use tartaruga.Decode.Encode.{op, mul, op_imm, shift_imm, lui, auipc, lw, sw, branch, jal, jalr}
use tartaruga.Decode.Encode.{Cond, cond_func3}
use tartaruga.Decode.Laws.{immediate_word-i, immediate_word-s, immediate_word-u}
use tartaruga.Decode.Laws.{immediate_word-b, immediate_word-j}
use tartaruga.Single.Isa.{isa, sign_extend, imm_op, holds, Effect}
use tartaruga.Single.Values.{alu_result-value, shift_op-value}
use tartaruga.Single.Hardware.{run_word}
use tartaruga.Single.Fields.{Has, run-op, run-mul, run-op_imm, run-shift_imm, run-lui, run-auipc}
use tartaruga.Single.Fields.{run-lw, run-sw, run-jal, run-jalr, run-jalr_any, run-branch}

r_type-Has :
    (f7 r2 r1 f3 rd opc : ℕ)
    → f7 < 128
    → r2 < 32
    → r1 < 32
    → f3 < 8
    → rd < 32
    → opc < 128
    → Has (r_type f7 r2 r1 f3 rd opc) opc rd f3 r1
r_type-Has f7 r2 r1 f3 rd opc a b c d e f = omega arith

op_codes-lt : (o : AluOp) → (op_func3 o < 8) × (op_func7 o < 128)
op_codes-lt o = ground arith

imm_func3-lt : (o : ImmOp) → imm_func3 o < 8
imm_func3-lt o = ground arith

shift_codes : (o : ShiftOp) → (shift_func3 o < 8) × (shift_func7 o < 64)
shift_codes o = ground arith

cond_func3-lt : (c : Cond) → cond_func3 c < 8
cond_func3-lt c = ground arith

shift_immediate :
    (o : ShiftOp) (rd rs1 i : ℕ)
    → IsEncodable (shift_imm o rd rs1 i)
    → let w = r_type (shift_func7 o) i rs1 (shift_func3 o) rd 0x13 in
      immediate_word w ≡ shift_func7 o * 32 + i
shift_immediate o rd rs1 i e = ground (
  arith,
  shift_codes o,
  immediate_word-i (r_type (shift_func7 o) i rs1 (shift_func3 o) rd 0x13) (shift_func7 o * 32 + i)
      (inl (omega (arith, shift_codes o))) (omega (arith, shift_codes o))
      (omega (arith, shift_codes o)) (omega (arith, shift_codes o)),
)

-- The immediate that the hardware reads from a branch.
abbrev pub branch_offset : ℕ → ℕ
branch_offset i =
    if ltb (i % 0x800) 0x400 then 2 * (i % 0x800) else 2 * (i % 0x800) + word_mod - 4096

branch_immediate :
    (c : Cond) (rs1 rs2 i : ℕ)
    → IsEncodable (branch c rs1 rs2 i)
    → immediate_word (encode (branch c rs1 rs2 i)) ≡ branch_offset i
unfolding encode
branch_immediate c rs1 rs2 i e =
    let k = cond_func3-lt c in
    immediate_word-b _ i (omega arith) (omega arith) (omega arith) (omega arith) (omega arith)

-- The registers hold words, and x0 is zero.
pub record IsRegisters (regs : ℕ → ℕ) : Type 0 where
  pub words : (i : ℕ) → regs i < word_mod
  pub zero_register : regs 0 ≡ 0

-- The offsets that a branch reaches, in units of 2 bytes, and the JALR targets that are even.
abbrev pub IsReached : (ℕ → ℕ) → Instr → Type 0
IsReached regs (branch c rs1 rs2 i) = (i < 1024) ⊎ (3072 ≤ i)
IsReached regs (jalr rd rs1 i) = add32 (regs rs1) (sign_extend 4096 i) % 2 ≡ 0
IsReached regs _ = Unit {0}

module _ (pc : ℕ) (regs load : ℕ → ℕ) (r : IsRegisters regs) where
  lui_zero : (i : ℕ) → i < 0x100000 → alu_result add (regs 0) (i * 4096) ≡ i * 4096
  unfolding alu_result
  lui_zero i h = omega (arith, r.zero_register)

  -- An encoded branch with fields in range, reachable or not, writes nothing, stores nothing, and
  -- goes on at the next word, or, if its condition holds of the two registers, at the offset that
  -- the hardware reads: the encoded one, extended by the sign of its bit 11. The registers hold
  -- 32-bit words and x0 is zero.
  run_branch :
      (c : Cond) (rs1 rs2 i : ℕ)
      → IsEncodable (branch c rs1 rs2 i)
      → run_word pc regs load (encode (branch c rs1 rs2 i)) ≡ record {
        writes = none;
        stores = none;
        next_pc = if holds c (regs rs1) (regs rs2) then add32 pc (branch_offset i) else add32 pc 4;
      }
  unfolding encode
  run_branch c rs1 rs2 i e =
      let k = cond_func3-lt c in
      run-branch pc regs load c _ (i % 16 * 2 + i / 0x400 % 2) rs1 rs2 _ (omega arith) (omega arith)
        (branch_immediate c rs1 rs2 i e) (r.words rs1) (r.words rs2)

  -- The word that encodes an instruction has through the hardware (decoder, immediate, operands,
  -- arithmetic unit, branch unit, memory stage, next program counter) the effect that the manual
  -- gives the instruction: the register written and its value, the word stored, the next program
  -- counter. The registers hold 32-bit words and x0 is zero, the instruction's fields are in range,
  -- a branch reaches less than 2 KiB forward or at most 2 KiB back, and the target of JALR is even.
  pub run_word-encode :
      (x : Instr)
      → IsEncodable x
      → IsReached regs x
      → run_word pc regs load (encode x) ≡ isa pc regs load x
  unfolding encode
  run_word-encode (op o rd rs1 rs2) e h =
      let k = op_codes-lt o in
      run-op pc regs load o _ rd rs1 rs2 (omega arith) (omega arith) (omega arith)
        (alu_result-value o (regs rs1) (regs rs2) (r.words rs1) (r.words rs2))
  run_word-encode (mul rd rs1 rs2) e h =
      run-mul pc regs load _ rd rs1 rs2 (omega arith) (omega arith) (omega arith)
  run_word-encode (op_imm o rd rs1 i) e h =
      let k = imm_func3-lt o in
      run-op_imm pc regs load o _ rd rs1 i (omega arith)
        (immediate_word-i _ i (inl (omega arith)) (omega arith) (omega arith) (omega arith))
        (alu_result-value (imm_op o) (regs rs1) (sign_extend 4096 i) (r.words rs1) (ground arith))
  run_word-encode (shift_imm o rd rs1 i) e h =
      let k = shift_codes o in
      run-shift_imm pc regs load o _ rd rs1 i (shift_func7 o * 32 + i) (omega arith) (omega arith)
        (shift_immediate o rd rs1 i e)
        (shift_op-value o (regs rs1) i _ (r.words rs1) (omega arith) (omega arith))
  run_word-encode (lui rd i) e h =
      run-lui pc regs load _ rd i (omega arith) (omega arith)
        (immediate_word-u _ i (inl (omega arith)) (omega arith)) (lui_zero i (omega arith))
  run_word-encode (auipc rd i) e h =
      run-auipc pc regs load _ rd i (omega arith) (omega arith)
        (immediate_word-u _ i (inr (omega arith)) (omega arith))
  run_word-encode (lw rd rs1 i) e h =
      run-lw pc regs load _ rd 2 rs1 i (omega arith)
        (immediate_word-i _ i (inr (inl (omega arith))) (omega arith) (omega arith) (omega arith))
  run_word-encode (sw rs1 rs2 i) e h =
      run-sw pc regs load _ (i % 32) 2 rs1 rs2 i (omega arith) (omega arith)
        (immediate_word-s _ i (omega arith) (omega arith) (omega arith) (omega arith) (omega arith))
  run_word-encode (branch c rs1 rs2 i) e h = run_branch c rs1 rs2 i e ∙ ground arith
  run_word-encode (jal rd i) e h = run-jal pc regs load _ rd i (omega arith) (omega arith) (
      immediate_word-j _ i (omega arith) (omega arith) (omega arith) (omega arith) (omega arith)
        (omega arith))
  run_word-encode (jalr rd rs1 i) e h =
      run-jalr pc regs load _ rd 0 rs1 i (omega arith)
        (immediate_word-i _ i (inr (inr (omega arith))) (omega arith) (omega arith) (omega arith)) h

  -- A taken branch whose encoded offset does not fit in 12 bits goes to another address than the
  -- one that the manual gives it, where the registers hold 32-bit words and x0 is zero.
  pub run_branch-far :
      (c : Cond) (rs1 rs2 i : ℕ)
      → IsEncodable (branch c rs1 rs2 i)
      → 1024 ≤ i
      → i < 3072
      → holds c (regs rs1) (regs rs2) ≡ true
      → (run_word pc regs load (encode (branch c rs1 rs2 i))).next_pc
        ≢ (isa pc regs load (branch c rs1 rs2 i)).next_pc
  run_branch-far c rs1 rs2 i e p q t = rw (run_branch c rs1 rs2 i e, t) (ground arith)

  -- An encoded JALR to an odd sum goes to that sum, one above the target that the manual gives by
  -- clearing the lowest bit, where the registers hold 32-bit words and x0 is zero.
  pub run_jalr-odd :
      (rd rs1 i : ℕ)
      → IsEncodable (jalr rd rs1 i)
      → add32 (regs rs1) (sign_extend 4096 i) % 2 ≡ 1
      → (run_word pc regs load (encode (jalr rd rs1 i))).next_pc
        ≡ (isa pc regs load (jalr rd rs1 i)).next_pc + 1
  unfolding encode
  run_jalr-odd rd rs1 i e h =
      ap (λ (f : Effect). f.next_pc)
        (run-jalr_any pc regs load _ rd 0 rs1 i (omega arith) (
          immediate_word-i _ i (inr (inr (omega arith))) (omega arith) (omega arith) (omega arith)))
      ∙ omega arith
