-- ===== src/Encoding/Instructions/Part10.antt =====
-- riscv-tests/env/encoding.h: MATCH and MASK from SUB16 to VAADD_VV.
use tartaruga.Base.{List, [], ◌∷◌}
use tartaruga.Encoding.{Pattern, insn}

abbrev pub patterns_10 : List Pattern
patterns_10 =
    insn "sub16" 0x42000077 0xfe00707f
    ∷ insn "sub32" 0x42002077 0xfe00707f
    ∷ insn "sub64" 0xc2001077 0xfe00707f
    ∷ insn "sub8" 0x4a000077 0xfe00707f
    ∷ insn "subw" 0x4000003b 0xfe00707f
    ∷ insn "sunpkd810" 0xac800077 0xfff0707f
    ∷ insn "sunpkd820" 0xac900077 0xfff0707f
    ∷ insn "sunpkd830" 0xaca00077 0xfff0707f
    ∷ insn "sunpkd831" 0xacb00077 0xfff0707f
    ∷ insn "sunpkd832" 0xad300077 0xfff0707f
    ∷ insn "sw" 0x2023 0x707f
    ∷ insn "uclip16" 0x85000077 0xff00707f
    ∷ insn "uclip32" 0xf4000077 0xfe00707f
    ∷ insn "uclip8" 0x8d000077 0xff80707f
    ∷ insn "ucmple16" 0x3c000077 0xfe00707f
    ∷ insn "ucmple8" 0x3e000077 0xfe00707f
    ∷ insn "ucmplt16" 0x2c000077 0xfe00707f
    ∷ insn "ucmplt8" 0x2e000077 0xfe00707f
    ∷ insn "ukadd16" 0x30000077 0xfe00707f
    ∷ insn "ukadd32" 0x30002077 0xfe00707f
    ∷ insn "ukadd64" 0xb0001077 0xfe00707f
    ∷ insn "ukadd8" 0x38000077 0xfe00707f
    ∷ insn "ukaddh" 0x14001077 0xfe00707f
    ∷ insn "ukaddw" 0x10001077 0xfe00707f
    ∷ insn "ukcras16" 0x34000077 0xfe00707f
    ∷ insn "ukcras32" 0x34002077 0xfe00707f
    ∷ insn "ukcrsa16" 0x36000077 0xfe00707f
    ∷ insn "ukcrsa32" 0x36002077 0xfe00707f
    ∷ insn "ukmar64" 0xb4001077 0xfe00707f
    ∷ insn "ukmsr64" 0xb6001077 0xfe00707f
    ∷ insn "ukstas16" 0xe4002077 0xfe00707f
    ∷ insn "ukstas32" 0xe0002077 0xfe00707f
    ∷ insn "ukstsa16" 0xe6002077 0xfe00707f
    ∷ insn "ukstsa32" 0xe2002077 0xfe00707f
    ∷ insn "uksub16" 0x32000077 0xfe00707f
    ∷ insn "uksub32" 0x32002077 0xfe00707f
    ∷ insn "uksub64" 0xb2001077 0xfe00707f
    ∷ insn "uksub8" 0x3a000077 0xfe00707f
    ∷ insn "uksubh" 0x16001077 0xfe00707f
    ∷ insn "uksubw" 0x12001077 0xfe00707f
    ∷ insn "umaqa" 0xcc000077 0xfe00707f
    ∷ insn "umar64" 0xa4001077 0xfe00707f
    ∷ insn "umax16" 0x92000077 0xfe00707f
    ∷ insn "umax32" 0xa2002077 0xfe00707f
    ∷ insn "umax8" 0x9a000077 0xfe00707f
    ∷ insn "umin16" 0x90000077 0xfe00707f
    ∷ insn "umin32" 0xa0002077 0xfe00707f
    ∷ insn "umin8" 0x98000077 0xfe00707f
    ∷ insn "umsr64" 0xa6001077 0xfe00707f
    ∷ insn "umul16" 0xb0000077 0xfe00707f
    ∷ insn "umul8" 0xb8000077 0xfe00707f
    ∷ insn "umulx16" 0xb2000077 0xfe00707f
    ∷ insn "umulx8" 0xba000077 0xfe00707f
    ∷ insn "unshfl" 0x8005033 0xfe00707f
    ∷ insn "unshfli" 0x8005013 0xfe00707f
    ∷ insn "unshflw" 0x800503b 0xfe00707f
    ∷ insn "uradd16" 0x20000077 0xfe00707f
    ∷ insn "uradd32" 0x20002077 0xfe00707f
    ∷ insn "uradd64" 0xa0001077 0xfe00707f
    ∷ insn "uradd8" 0x28000077 0xfe00707f
    ∷ insn "uraddw" 0x30001077 0xfe00707f
    ∷ insn "urcras16" 0x24000077 0xfe00707f
    ∷ insn "urcras32" 0x24002077 0xfe00707f
    ∷ insn "urcrsa16" 0x26000077 0xfe00707f
    ∷ insn "urcrsa32" 0x26002077 0xfe00707f
    ∷ insn "urstas16" 0xd4002077 0xfe00707f
    ∷ insn "urstas32" 0xd0002077 0xfe00707f
    ∷ insn "urstsa16" 0xd6002077 0xfe00707f
    ∷ insn "urstsa32" 0xd2002077 0xfe00707f
    ∷ insn "ursub16" 0x22000077 0xfe00707f
    ∷ insn "ursub32" 0x22002077 0xfe00707f
    ∷ insn "ursub64" 0xa2001077 0xfe00707f
    ∷ insn "ursub8" 0x2a000077 0xfe00707f
    ∷ insn "ursubw" 0x32001077 0xfe00707f
    ∷ insn "vaadd_vv" 0x24002057 0xfc00707f
    ∷ []
