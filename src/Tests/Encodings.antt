-- ===== src/Tests/Encodings.antt =====
-- Words that match patterns of riscv-tests/env/encoding.h.
use tartaruga.Base.{true, ◌≡◌, ◌↔◌, some, refl, arith}
use tartaruga.Pkg.{add}
use Prim.{tt}
use tartaruga.Decode.Encode.{encode}
use tartaruga.Single.Isa.{isa}
use tartaruga.Single.Hardware.{run_word}
use tartaruga.Single.Refines.{IsReached}
use tartaruga.Encoding.{Pattern, insn, matches, find}
use tartaruga.Encoding.Instructions.{instructions}
use tartaruga.Encoding.Kinds.{k_op, k_jal, pattern_of}
use tartaruga.Encoding.Words.{instr_of, matches_iff}
use tartaruga.Encoding.Run.{run_word-matches}
use tartaruga.Tests.Instructions.{registers, memory, registers-IsRegisters}

-- add x1, x1, x2
add_word-matches : matches (pattern_of (k_op add)) 0x2080b3 ≡ true
unfolding matches
add_word-matches = refl

add_pattern : find "add" instructions ≡ some (pattern_of (k_op add))
unfolding find
add_pattern = refl

add_word-IsReached : IsReached registers (instr_of (k_op add) 0x2080b3)
unfolding instr_of
add_word-IsReached = tt

run_word-matches_example :
    run_word 0x100 registers memory 0x2080b3
    ≡ isa 0x100 registers memory (instr_of (k_op add) 0x2080b3)
run_word-matches_example =
    run_word-matches 0x100 registers memory registers-IsRegisters (k_op add) (pattern_of (k_op add))
      0x2080b3 add_pattern (omega arith) add_word-matches add_word-IsReached

-- jal x1, 8
jal_pattern : find "jal" instructions ≡ some (pattern_of k_jal)
unfolding find
jal_pattern = refl

matches_iff_example :
    (matches (pattern_of k_jal) 0x8000ef ≡ true) ↔ (encode (instr_of k_jal 0x8000ef) ≡ 0x8000ef)
matches_iff_example = matches_iff k_jal (pattern_of k_jal) 0x8000ef jal_pattern (omega arith)

abbrev c_addi : Pattern
c_addi = insn "c_addi" 0x1 0xe003

find-c_addi : find "c_addi" instructions ≡ some c_addi
unfolding find
find-c_addi = refl

c_addi_word-matches : matches c_addi 0x85 ≡ true
unfolding matches
c_addi_word-matches = refl
