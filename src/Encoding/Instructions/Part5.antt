-- ===== src/Encoding/Instructions/Part5.antt =====
-- riscv-tests/env/encoding.h: MATCH and MASK from FSLW to KHMBT16.
use tartaruga.Base.{List, [], ◌∷◌}
use tartaruga.Encoding.{Pattern, insn}

abbrev pub patterns_5 : List Pattern
patterns_5 =
    insn "fslw" 0x400103b 0x600707f
    ∷ insn "fsq" 0x4027 0x707f
    ∷ insn "fsqrt_d" 0x5a000053 0xfff0007f
    ∷ insn "fsqrt_h" 0x5c000053 0xfff0007f
    ∷ insn "fsqrt_q" 0x5e000053 0xfff0007f
    ∷ insn "fsqrt_s" 0x58000053 0xfff0007f
    ∷ insn "fsr" 0x4005033 0x600707f
    ∷ insn "fsri" 0x4005013 0x400707f
    ∷ insn "fsriw" 0x400501b 0x600707f
    ∷ insn "fsrw" 0x400503b 0x600707f
    ∷ insn "fsub_d" 0xa000053 0xfe00007f
    ∷ insn "fsub_h" 0xc000053 0xfe00007f
    ∷ insn "fsub_q" 0xe000053 0xfe00007f
    ∷ insn "fsub_s" 0x8000053 0xfe00007f
    ∷ insn "fsw" 0x2027 0x707f
    ∷ insn "gorc" 0x28005033 0xfe00707f
    ∷ insn "gorci" 0x28005013 0xfc00707f
    ∷ insn "gorciw" 0x2800501b 0xfe00707f
    ∷ insn "gorcw" 0x2800503b 0xfe00707f
    ∷ insn "grev" 0x68005033 0xfe00707f
    ∷ insn "grevi" 0x68005013 0xfc00707f
    ∷ insn "greviw" 0x6800501b 0xfe00707f
    ∷ insn "grevw" 0x6800503b 0xfe00707f
    ∷ insn "hfence_gvma" 0x62000073 0xfe007fff
    ∷ insn "hfence_vvma" 0x22000073 0xfe007fff
    ∷ insn "hinval_gvma" 0x66000073 0xfe007fff
    ∷ insn "hinval_vvma" 0x26000073 0xfe007fff
    ∷ insn "hlv_b" 0x60004073 0xfff0707f
    ∷ insn "hlv_bu" 0x60104073 0xfff0707f
    ∷ insn "hlv_d" 0x6c004073 0xfff0707f
    ∷ insn "hlv_h" 0x64004073 0xfff0707f
    ∷ insn "hlv_hu" 0x64104073 0xfff0707f
    ∷ insn "hlv_w" 0x68004073 0xfff0707f
    ∷ insn "hlv_wu" 0x68104073 0xfff0707f
    ∷ insn "hlvx_hu" 0x64304073 0xfff0707f
    ∷ insn "hlvx_wu" 0x68304073 0xfff0707f
    ∷ insn "hsv_b" 0x62004073 0xfe007fff
    ∷ insn "hsv_d" 0x6e004073 0xfe007fff
    ∷ insn "hsv_h" 0x66004073 0xfe007fff
    ∷ insn "hsv_w" 0x6a004073 0xfe007fff
    ∷ insn "insb" 0xac000077 0xff80707f
    ∷ insn "jal" 0x6f 0x7f
    ∷ insn "jalr" 0x67 0x707f
    ∷ insn "kabs16" 0xad100077 0xfff0707f
    ∷ insn "kabs32" 0xad200077 0xfff0707f
    ∷ insn "kabs8" 0xad000077 0xfff0707f
    ∷ insn "kabsw" 0xad400077 0xfff0707f
    ∷ insn "kadd16" 0x10000077 0xfe00707f
    ∷ insn "kadd32" 0x10002077 0xfe00707f
    ∷ insn "kadd64" 0x90001077 0xfe00707f
    ∷ insn "kadd8" 0x18000077 0xfe00707f
    ∷ insn "kaddh" 0x4001077 0xfe00707f
    ∷ insn "kaddw" 0x1077 0xfe00707f
    ∷ insn "kcras16" 0x14000077 0xfe00707f
    ∷ insn "kcras32" 0x14002077 0xfe00707f
    ∷ insn "kcrsa16" 0x16000077 0xfe00707f
    ∷ insn "kcrsa32" 0x16002077 0xfe00707f
    ∷ insn "kdmabb" 0xd2001077 0xfe00707f
    ∷ insn "kdmabb16" 0xd8001077 0xfe00707f
    ∷ insn "kdmabt" 0xe2001077 0xfe00707f
    ∷ insn "kdmabt16" 0xe8001077 0xfe00707f
    ∷ insn "kdmatt" 0xf2001077 0xfe00707f
    ∷ insn "kdmatt16" 0xf8001077 0xfe00707f
    ∷ insn "kdmbb" 0xa001077 0xfe00707f
    ∷ insn "kdmbb16" 0xda001077 0xfe00707f
    ∷ insn "kdmbt" 0x1a001077 0xfe00707f
    ∷ insn "kdmbt16" 0xea001077 0xfe00707f
    ∷ insn "kdmtt" 0x2a001077 0xfe00707f
    ∷ insn "kdmtt16" 0xfa001077 0xfe00707f
    ∷ insn "khm16" 0x86000077 0xfe00707f
    ∷ insn "khm8" 0x8e000077 0xfe00707f
    ∷ insn "khmbb" 0xc001077 0xfe00707f
    ∷ insn "khmbb16" 0xdc001077 0xfe00707f
    ∷ insn "khmbt" 0x1c001077 0xfe00707f
    ∷ insn "khmbt16" 0xec001077 0xfe00707f
    ∷ []
