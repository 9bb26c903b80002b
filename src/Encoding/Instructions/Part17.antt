-- ===== src/Encoding/Instructions/Part17.antt =====
-- riscv-tests/env/encoding.h: MATCH and MASK from XOR to ZUNPKD832.
use tartaruga.Base.{List, [], ◌∷◌}
use tartaruga.Encoding.{Pattern, insn}

abbrev pub patterns_17 : List Pattern
patterns_17 =
    insn "xor" 0x4033 0xfe00707f
    ∷ insn "xori" 0x4013 0x707f
    ∷ insn "xperm16" 0x28006033 0xfe00707f
    ∷ insn "xperm32" 0x28000033 0xfe00707f
    ∷ insn "xperm4" 0x28002033 0xfe00707f
    ∷ insn "xperm8" 0x28004033 0xfe00707f
    ∷ insn "zunpkd810" 0xacc00077 0xfff0707f
    ∷ insn "zunpkd820" 0xacd00077 0xfff0707f
    ∷ insn "zunpkd830" 0xace00077 0xfff0707f
    ∷ insn "zunpkd831" 0xacf00077 0xfff0707f
    ∷ insn "zunpkd832" 0xad700077 0xfff0707f
    ∷ []
