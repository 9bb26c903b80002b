-- ===== src/Encoding/Instructions/Part9.antt =====
-- riscv-tests/env/encoding.h: MATCH and MASK from SMAX8 to SUB.
use tartaruga.Base.{List, [], ◌∷◌}
use tartaruga.Encoding.{Pattern, insn}

abbrev pub patterns_9 : List Pattern
patterns_9 =
    insn "smax8" 0x8a000077 0xfe00707f
    ∷ insn "smbb16" 0x8001077 0xfe00707f
    ∷ insn "smbt16" 0x18001077 0xfe00707f
    ∷ insn "smbt32" 0x18002077 0xfe00707f
    ∷ insn "smdrs" 0x68001077 0xfe00707f
    ∷ insn "smdrs32" 0x68002077 0xfe00707f
    ∷ insn "smds" 0x58001077 0xfe00707f
    ∷ insn "smds32" 0x58002077 0xfe00707f
    ∷ insn "smin16" 0x80000077 0xfe00707f
    ∷ insn "smin32" 0x90002077 0xfe00707f
    ∷ insn "smin8" 0x88000077 0xfe00707f
    ∷ insn "smmul" 0x40001077 0xfe00707f
    ∷ insn "smmul_u" 0x50001077 0xfe00707f
    ∷ insn "smmwb" 0x44001077 0xfe00707f
    ∷ insn "smmwb_u" 0x54001077 0xfe00707f
    ∷ insn "smmwt" 0x64001077 0xfe00707f
    ∷ insn "smmwt_u" 0x74001077 0xfe00707f
    ∷ insn "smslda" 0xac001077 0xfe00707f
    ∷ insn "smslxda" 0xbc001077 0xfe00707f
    ∷ insn "smsr64" 0x86001077 0xfe00707f
    ∷ insn "smtt16" 0x28001077 0xfe00707f
    ∷ insn "smtt32" 0x28002077 0xfe00707f
    ∷ insn "smul16" 0xa0000077 0xfe00707f
    ∷ insn "smul8" 0xa8000077 0xfe00707f
    ∷ insn "smulx16" 0xa2000077 0xfe00707f
    ∷ insn "smulx8" 0xaa000077 0xfe00707f
    ∷ insn "smxds" 0x78001077 0xfe00707f
    ∷ insn "smxds32" 0x78002077 0xfe00707f
    ∷ insn "sra" 0x40005033 0xfe00707f
    ∷ insn "sra16" 0x50000077 0xfe00707f
    ∷ insn "sra16_u" 0x60000077 0xfe00707f
    ∷ insn "sra32" 0x50002077 0xfe00707f
    ∷ insn "sra32_u" 0x60002077 0xfe00707f
    ∷ insn "sra8" 0x58000077 0xfe00707f
    ∷ insn "sra8_u" 0x68000077 0xfe00707f
    ∷ insn "sra_u" 0x24001077 0xfe00707f
    ∷ insn "srai" 0x40005013 0xfc00707f
    ∷ insn "srai16" 0x70000077 0xff00707f
    ∷ insn "srai16_u" 0x71000077 0xff00707f
    ∷ insn "srai32" 0x70002077 0xfe00707f
    ∷ insn "srai32_u" 0x80002077 0xfe00707f
    ∷ insn "srai8" 0x78000077 0xff80707f
    ∷ insn "srai8_u" 0x78800077 0xff80707f
    ∷ insn "srai_rv32" 0x40005013 0xfe00707f
    ∷ insn "srai_u" 0xd4001077 0xfc00707f
    ∷ insn "sraiw" 0x4000501b 0xfe00707f
    ∷ insn "sraiw_u" 0x34001077 0xfe00707f
    ∷ insn "sraw" 0x4000503b 0xfe00707f
    ∷ insn "sret" 0x10200073 0xffffffff
    ∷ insn "srl" 0x5033 0xfe00707f
    ∷ insn "srl16" 0x52000077 0xfe00707f
    ∷ insn "srl16_u" 0x62000077 0xfe00707f
    ∷ insn "srl32" 0x52002077 0xfe00707f
    ∷ insn "srl32_u" 0x62002077 0xfe00707f
    ∷ insn "srl8" 0x5a000077 0xfe00707f
    ∷ insn "srl8_u" 0x6a000077 0xfe00707f
    ∷ insn "srli" 0x5013 0xfc00707f
    ∷ insn "srli16" 0x72000077 0xff00707f
    ∷ insn "srli16_u" 0x73000077 0xff00707f
    ∷ insn "srli32" 0x72002077 0xfe00707f
    ∷ insn "srli32_u" 0x82002077 0xfe00707f
    ∷ insn "srli8" 0x7a000077 0xff80707f
    ∷ insn "srli8_u" 0x7a800077 0xff80707f
    ∷ insn "srli_rv32" 0x5013 0xfe00707f
    ∷ insn "srliw" 0x501b 0xfe00707f
    ∷ insn "srlw" 0x503b 0xfe00707f
    ∷ insn "sro" 0x20005033 0xfe00707f
    ∷ insn "sroi" 0x20005013 0xfc00707f
    ∷ insn "sroiw" 0x2000501b 0xfe00707f
    ∷ insn "srow" 0x2000503b 0xfe00707f
    ∷ insn "stas16" 0xf4002077 0xfe00707f
    ∷ insn "stas32" 0xf0002077 0xfe00707f
    ∷ insn "stsa16" 0xf6002077 0xfe00707f
    ∷ insn "stsa32" 0xf2002077 0xfe00707f
    ∷ insn "sub" 0x40000033 0xfe00707f
    ∷ []
