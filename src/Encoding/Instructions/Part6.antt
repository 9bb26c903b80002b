-- ===== src/Encoding/Instructions/Part6.antt =====
-- riscv-tests/env/encoding.h: MATCH and MASK from KHMTT to LBU.
use tartaruga.Base.{List, [], ◌∷◌}
use tartaruga.Encoding.{Pattern, insn}

abbrev pub patterns_6 : List Pattern
patterns_6 =
    insn "khmtt" 0x2c001077 0xfe00707f
    ∷ insn "khmtt16" 0xfc001077 0xfe00707f
    ∷ insn "khmx16" 0x96000077 0xfe00707f
    ∷ insn "khmx8" 0x9e000077 0xfe00707f
    ∷ insn "kmabb" 0x5a001077 0xfe00707f
    ∷ insn "kmabb32" 0x5a002077 0xfe00707f
    ∷ insn "kmabt" 0x6a001077 0xfe00707f
    ∷ insn "kmabt32" 0x6a002077 0xfe00707f
    ∷ insn "kmada" 0x48001077 0xfe00707f
    ∷ insn "kmadrs" 0x6c001077 0xfe00707f
    ∷ insn "kmadrs32" 0x6c002077 0xfe00707f
    ∷ insn "kmads" 0x5c001077 0xfe00707f
    ∷ insn "kmads32" 0x5c002077 0xfe00707f
    ∷ insn "kmar64" 0x94001077 0xfe00707f
    ∷ insn "kmatt" 0x7a001077 0xfe00707f
    ∷ insn "kmatt32" 0x7a002077 0xfe00707f
    ∷ insn "kmaxda" 0x4a001077 0xfe00707f
    ∷ insn "kmaxda32" 0x4a002077 0xfe00707f
    ∷ insn "kmaxds" 0x7c001077 0xfe00707f
    ∷ insn "kmaxds32" 0x7c002077 0xfe00707f
    ∷ insn "kmda" 0x38001077 0xfe00707f
    ∷ insn "kmda32" 0x38002077 0xfe00707f
    ∷ insn "kmmac" 0x60001077 0xfe00707f
    ∷ insn "kmmac_u" 0x70001077 0xfe00707f
    ∷ insn "kmmawb" 0x46001077 0xfe00707f
    ∷ insn "kmmawb2" 0xce001077 0xfe00707f
    ∷ insn "kmmawb2_u" 0xde001077 0xfe00707f
    ∷ insn "kmmawb_u" 0x56001077 0xfe00707f
    ∷ insn "kmmawt" 0x66001077 0xfe00707f
    ∷ insn "kmmawt2" 0xee001077 0xfe00707f
    ∷ insn "kmmawt2_u" 0xfe001077 0xfe00707f
    ∷ insn "kmmawt_u" 0x76001077 0xfe00707f
    ∷ insn "kmmsb" 0x42001077 0xfe00707f
    ∷ insn "kmmsb_u" 0x52001077 0xfe00707f
    ∷ insn "kmmwb2" 0x8e001077 0xfe00707f
    ∷ insn "kmmwb2_u" 0x9e001077 0xfe00707f
    ∷ insn "kmmwt2" 0xae001077 0xfe00707f
    ∷ insn "kmmwt2_u" 0xbe001077 0xfe00707f
    ∷ insn "kmsda" 0x4c001077 0xfe00707f
    ∷ insn "kmsda32" 0x4c002077 0xfe00707f
    ∷ insn "kmsr64" 0x96001077 0xfe00707f
    ∷ insn "kmsxda" 0x4e001077 0xfe00707f
    ∷ insn "kmsxda32" 0x4e002077 0xfe00707f
    ∷ insn "kmxda" 0x3a001077 0xfe00707f
    ∷ insn "kmxda32" 0x3a002077 0xfe00707f
    ∷ insn "ksll16" 0x64000077 0xfe00707f
    ∷ insn "ksll32" 0x64002077 0xfe00707f
    ∷ insn "ksll8" 0x6c000077 0xfe00707f
    ∷ insn "kslli16" 0x75000077 0xff00707f
    ∷ insn "kslli32" 0x84002077 0xfe00707f
    ∷ insn "kslli8" 0x7c800077 0xff80707f
    ∷ insn "kslliw" 0x36001077 0xfe00707f
    ∷ insn "ksllw" 0x26001077 0xfe00707f
    ∷ insn "kslra16" 0x56000077 0xfe00707f
    ∷ insn "kslra16_u" 0x66000077 0xfe00707f
    ∷ insn "kslra32" 0x56002077 0xfe00707f
    ∷ insn "kslra32_u" 0x66002077 0xfe00707f
    ∷ insn "kslra8" 0x5e000077 0xfe00707f
    ∷ insn "kslra8_u" 0x6e000077 0xfe00707f
    ∷ insn "kslraw" 0x6e001077 0xfe00707f
    ∷ insn "kslraw_u" 0x7e001077 0xfe00707f
    ∷ insn "kstas16" 0xc4002077 0xfe00707f
    ∷ insn "kstas32" 0xc0002077 0xfe00707f
    ∷ insn "kstsa16" 0xc6002077 0xfe00707f
    ∷ insn "kstsa32" 0xc2002077 0xfe00707f
    ∷ insn "ksub16" 0x12000077 0xfe00707f
    ∷ insn "ksub32" 0x12002077 0xfe00707f
    ∷ insn "ksub64" 0x92001077 0xfe00707f
    ∷ insn "ksub8" 0x1a000077 0xfe00707f
    ∷ insn "ksubh" 0x6001077 0xfe00707f
    ∷ insn "ksubw" 0x2001077 0xfe00707f
    ∷ insn "kwmmul" 0x62001077 0xfe00707f
    ∷ insn "kwmmul_u" 0x72001077 0xfe00707f
    ∷ insn "lb" 0x3 0x707f
    ∷ insn "lbu" 0x4003 0x707f
    ∷ []
