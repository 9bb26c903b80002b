-- ===== src/Encoding/Instructions/Part13.antt =====
-- riscv-tests/env/encoding.h: MATCH and MASK from VID_V to VMAXU_VX.
use tartaruga.Base.{List, [], ◌∷◌}
use tartaruga.Encoding.{Pattern, insn}

abbrev pub patterns_13 : List Pattern
patterns_13 =
    insn "vid_v" 0x5008a057 0xfdfff07f
    ∷ insn "viota_m" 0x50082057 0xfc0ff07f
    ∷ insn "vl1re16_v" 0x2805007 0xfff0707f
    ∷ insn "vl1re32_v" 0x2806007 0xfff0707f
    ∷ insn "vl1re64_v" 0x2807007 0xfff0707f
    ∷ insn "vl1re8_v" 0x2800007 0xfff0707f
    ∷ insn "vl2re16_v" 0x22805007 0xfff0707f
    ∷ insn "vl2re32_v" 0x22806007 0xfff0707f
    ∷ insn "vl2re64_v" 0x22807007 0xfff0707f
    ∷ insn "vl2re8_v" 0x22800007 0xfff0707f
    ∷ insn "vl4re16_v" 0x62805007 0xfff0707f
    ∷ insn "vl4re32_v" 0x62806007 0xfff0707f
    ∷ insn "vl4re64_v" 0x62807007 0xfff0707f
    ∷ insn "vl4re8_v" 0x62800007 0xfff0707f
    ∷ insn "vl8re16_v" 0xe2805007 0xfff0707f
    ∷ insn "vl8re32_v" 0xe2806007 0xfff0707f
    ∷ insn "vl8re64_v" 0xe2807007 0xfff0707f
    ∷ insn "vl8re8_v" 0xe2800007 0xfff0707f
    ∷ insn "vle1024_v" 0x10007007 0x1df0707f
    ∷ insn "vle1024ff_v" 0x11007007 0x1df0707f
    ∷ insn "vle128_v" 0x10000007 0x1df0707f
    ∷ insn "vle128ff_v" 0x11000007 0x1df0707f
    ∷ insn "vle16_v" 0x5007 0x1df0707f
    ∷ insn "vle16ff_v" 0x1005007 0x1df0707f
    ∷ insn "vle256_v" 0x10005007 0x1df0707f
    ∷ insn "vle256ff_v" 0x11005007 0x1df0707f
    ∷ insn "vle32_v" 0x6007 0x1df0707f
    ∷ insn "vle32ff_v" 0x1006007 0x1df0707f
    ∷ insn "vle512_v" 0x10006007 0x1df0707f
    ∷ insn "vle512ff_v" 0x11006007 0x1df0707f
    ∷ insn "vle64_v" 0x7007 0x1df0707f
    ∷ insn "vle64ff_v" 0x1007007 0x1df0707f
    ∷ insn "vle8_v" 0x7 0x1df0707f
    ∷ insn "vle8ff_v" 0x1000007 0x1df0707f
    ∷ insn "vlm_v" 0x2b00007 0xfff0707f
    ∷ insn "vloxei1024_v" 0x1c007007 0x1c00707f
    ∷ insn "vloxei128_v" 0x1c000007 0x1c00707f
    ∷ insn "vloxei16_v" 0xc005007 0x1c00707f
    ∷ insn "vloxei256_v" 0x1c005007 0x1c00707f
    ∷ insn "vloxei32_v" 0xc006007 0x1c00707f
    ∷ insn "vloxei512_v" 0x1c006007 0x1c00707f
    ∷ insn "vloxei64_v" 0xc007007 0x1c00707f
    ∷ insn "vloxei8_v" 0xc000007 0x1c00707f
    ∷ insn "vlse1024_v" 0x18007007 0x1c00707f
    ∷ insn "vlse128_v" 0x18000007 0x1c00707f
    ∷ insn "vlse16_v" 0x8005007 0x1c00707f
    ∷ insn "vlse256_v" 0x18005007 0x1c00707f
    ∷ insn "vlse32_v" 0x8006007 0x1c00707f
    ∷ insn "vlse512_v" 0x18006007 0x1c00707f
    ∷ insn "vlse64_v" 0x8007007 0x1c00707f
    ∷ insn "vlse8_v" 0x8000007 0x1c00707f
    ∷ insn "vluxei1024_v" 0x14007007 0x1c00707f
    ∷ insn "vluxei128_v" 0x14000007 0x1c00707f
    ∷ insn "vluxei16_v" 0x4005007 0x1c00707f
    ∷ insn "vluxei256_v" 0x14005007 0x1c00707f
    ∷ insn "vluxei32_v" 0x4006007 0x1c00707f
    ∷ insn "vluxei512_v" 0x14006007 0x1c00707f
    ∷ insn "vluxei64_v" 0x4007007 0x1c00707f
    ∷ insn "vluxei8_v" 0x4000007 0x1c00707f
    ∷ insn "vmacc_vv" 0xb4002057 0xfc00707f
    ∷ insn "vmacc_vx" 0xb4006057 0xfc00707f
    ∷ insn "vmadc_vi" 0x46003057 0xfe00707f
    ∷ insn "vmadc_vim" 0x44003057 0xfe00707f
    ∷ insn "vmadc_vv" 0x46000057 0xfe00707f
    ∷ insn "vmadc_vvm" 0x44000057 0xfe00707f
    ∷ insn "vmadc_vx" 0x46004057 0xfe00707f
    ∷ insn "vmadc_vxm" 0x44004057 0xfe00707f
    ∷ insn "vmadd_vv" 0xa4002057 0xfc00707f
    ∷ insn "vmadd_vx" 0xa4006057 0xfc00707f
    ∷ insn "vmand_mm" 0x64002057 0xfc00707f
    ∷ insn "vmandn_mm" 0x60002057 0xfc00707f
    ∷ insn "vmax_vv" 0x1c000057 0xfc00707f
    ∷ insn "vmax_vx" 0x1c004057 0xfc00707f
    ∷ insn "vmaxu_vv" 0x18000057 0xfc00707f
    ∷ insn "vmaxu_vx" 0x18004057 0xfc00707f
    ∷ []
