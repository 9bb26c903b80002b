-- ===== src/Encoding/Instructions/Part7.antt =====
-- riscv-tests/env/encoding.h: MATCH and MASK from LD to SCLIP16.
use tartaruga.Base.{List, [], ◌∷◌}
use tartaruga.Encoding.{Pattern, insn}

abbrev pub patterns_7 : List Pattern
patterns_7 =
    insn "ld" 0x3003 0x707f
    ∷ insn "lh" 0x1003 0x707f
    ∷ insn "lhu" 0x5003 0x707f
    ∷ insn "lr_d" 0x1000302f 0xf9f0707f
    ∷ insn "lr_w" 0x1000202f 0xf9f0707f
    ∷ insn "lui" 0x37 0x7f
    ∷ insn "lw" 0x2003 0x707f
    ∷ insn "lwu" 0x6003 0x707f
    ∷ insn "maddr32" 0xc4001077 0xfe00707f
    ∷ insn "max" 0xa006033 0xfe00707f
    ∷ insn "maxu" 0xa007033 0xfe00707f
    ∷ insn "min" 0xa004033 0xfe00707f
    ∷ insn "minu" 0xa005033 0xfe00707f
    ∷ insn "mnret" 0x70200073 0xffffffff
    ∷ insn "mret" 0x30200073 0xffffffff
    ∷ insn "msubr32" 0xc6001077 0xfe00707f
    ∷ insn "mul" 0x2000033 0xfe00707f
    ∷ insn "mulh" 0x2001033 0xfe00707f
    ∷ insn "mulhsu" 0x2002033 0xfe00707f
    ∷ insn "mulhu" 0x2003033 0xfe00707f
    ∷ insn "mulr64" 0xf0001077 0xfe00707f
    ∷ insn "mulsr64" 0xe0001077 0xfe00707f
    ∷ insn "mulw" 0x200003b 0xfe00707f
    ∷ insn "or" 0x6033 0xfe00707f
    ∷ insn "ori" 0x6013 0x707f
    ∷ insn "orn" 0x40006033 0xfe00707f
    ∷ insn "pack" 0x8004033 0xfe00707f
    ∷ insn "packh" 0x8007033 0xfe00707f
    ∷ insn "packu" 0x48004033 0xfe00707f
    ∷ insn "packuw" 0x4800403b 0xfe00707f
    ∷ insn "packw" 0x800403b 0xfe00707f
    ∷ insn "pause" 0x100000f 0xffffffff
    ∷ insn "pbsad" 0xfc000077 0xfe00707f
    ∷ insn "pbsada" 0xfe000077 0xfe00707f
    ∷ insn "pkbb16" 0xe001077 0xfe00707f
    ∷ insn "pkbt16" 0x1e001077 0xfe00707f
    ∷ insn "pkbt32" 0x1e002077 0xfe00707f
    ∷ insn "pktb16" 0x3e001077 0xfe00707f
    ∷ insn "pktb32" 0x3e002077 0xfe00707f
    ∷ insn "pktt16" 0x2e001077 0xfe00707f
    ∷ insn "prefetch_i" 0x6013 0x1f07fff
    ∷ insn "prefetch_r" 0x106013 0x1f07fff
    ∷ insn "prefetch_w" 0x306013 0x1f07fff
    ∷ insn "radd16" 0x77 0xfe00707f
    ∷ insn "radd32" 0x2077 0xfe00707f
    ∷ insn "radd64" 0x80001077 0xfe00707f
    ∷ insn "radd8" 0x8000077 0xfe00707f
    ∷ insn "raddw" 0x20001077 0xfe00707f
    ∷ insn "rcras16" 0x4000077 0xfe00707f
    ∷ insn "rcras32" 0x4002077 0xfe00707f
    ∷ insn "rcrsa16" 0x6000077 0xfe00707f
    ∷ insn "rcrsa32" 0x6002077 0xfe00707f
    ∷ insn "rem" 0x2006033 0xfe00707f
    ∷ insn "remu" 0x2007033 0xfe00707f
    ∷ insn "remuw" 0x200703b 0xfe00707f
    ∷ insn "remw" 0x200603b 0xfe00707f
    ∷ insn "rol" 0x60001033 0xfe00707f
    ∷ insn "rolw" 0x6000103b 0xfe00707f
    ∷ insn "ror" 0x60005033 0xfe00707f
    ∷ insn "rori" 0x60005013 0xfc00707f
    ∷ insn "roriw" 0x6000501b 0xfe00707f
    ∷ insn "rorw" 0x6000503b 0xfe00707f
    ∷ insn "rstas16" 0xb4002077 0xfe00707f
    ∷ insn "rstas32" 0xb0002077 0xfe00707f
    ∷ insn "rstsa16" 0xb6002077 0xfe00707f
    ∷ insn "rstsa32" 0xb2002077 0xfe00707f
    ∷ insn "rsub16" 0x2000077 0xfe00707f
    ∷ insn "rsub32" 0x2002077 0xfe00707f
    ∷ insn "rsub64" 0x82001077 0xfe00707f
    ∷ insn "rsub8" 0xa000077 0xfe00707f
    ∷ insn "rsubw" 0x22001077 0xfe00707f
    ∷ insn "sb" 0x23 0x707f
    ∷ insn "sc_d" 0x1800302f 0xf800707f
    ∷ insn "sc_w" 0x1800202f 0xf800707f
    ∷ insn "sclip16" 0x84000077 0xff00707f
    ∷ []
