-- ===== src/Encoding/Instructions/Part15.antt =====
-- riscv-tests/env/encoding.h: MATCH and MASK from VNMSUB_VV to VSOXEI8_V.
use tartaruga.Base.{List, [], ◌∷◌}
use tartaruga.Encoding.{Pattern, insn}

abbrev pub patterns_15 : List Pattern
patterns_15 =
    insn "vnmsub_vv" 0xac002057 0xfc00707f
    ∷ insn "vnmsub_vx" 0xac006057 0xfc00707f
    ∷ insn "vnsra_wi" 0xb4003057 0xfc00707f
    ∷ insn "vnsra_wv" 0xb4000057 0xfc00707f
    ∷ insn "vnsra_wx" 0xb4004057 0xfc00707f
    ∷ insn "vnsrl_wi" 0xb0003057 0xfc00707f
    ∷ insn "vnsrl_wv" 0xb0000057 0xfc00707f
    ∷ insn "vnsrl_wx" 0xb0004057 0xfc00707f
    ∷ insn "vor_vi" 0x28003057 0xfc00707f
    ∷ insn "vor_vv" 0x28000057 0xfc00707f
    ∷ insn "vor_vx" 0x28004057 0xfc00707f
    ∷ insn "vredand_vs" 0x4002057 0xfc00707f
    ∷ insn "vredmax_vs" 0x1c002057 0xfc00707f
    ∷ insn "vredmaxu_vs" 0x18002057 0xfc00707f
    ∷ insn "vredmin_vs" 0x14002057 0xfc00707f
    ∷ insn "vredminu_vs" 0x10002057 0xfc00707f
    ∷ insn "vredor_vs" 0x8002057 0xfc00707f
    ∷ insn "vredsum_vs" 0x2057 0xfc00707f
    ∷ insn "vredxor_vs" 0xc002057 0xfc00707f
    ∷ insn "vrem_vv" 0x8c002057 0xfc00707f
    ∷ insn "vrem_vx" 0x8c006057 0xfc00707f
    ∷ insn "vremu_vv" 0x88002057 0xfc00707f
    ∷ insn "vremu_vx" 0x88006057 0xfc00707f
    ∷ insn "vrgather_vi" 0x30003057 0xfc00707f
    ∷ insn "vrgather_vv" 0x30000057 0xfc00707f
    ∷ insn "vrgather_vx" 0x30004057 0xfc00707f
    ∷ insn "vrgatherei16_vv" 0x38000057 0xfc00707f
    ∷ insn "vrsub_vi" 0xc003057 0xfc00707f
    ∷ insn "vrsub_vx" 0xc004057 0xfc00707f
    ∷ insn "vs1r_v" 0x2800027 0xfff0707f
    ∷ insn "vs2r_v" 0x22800027 0xfff0707f
    ∷ insn "vs4r_v" 0x62800027 0xfff0707f
    ∷ insn "vs8r_v" 0xe2800027 0xfff0707f
    ∷ insn "vsadd_vi" 0x84003057 0xfc00707f
    ∷ insn "vsadd_vv" 0x84000057 0xfc00707f
    ∷ insn "vsadd_vx" 0x84004057 0xfc00707f
    ∷ insn "vsaddu_vi" 0x80003057 0xfc00707f
    ∷ insn "vsaddu_vv" 0x80000057 0xfc00707f
    ∷ insn "vsaddu_vx" 0x80004057 0xfc00707f
    ∷ insn "vsbc_vvm" 0x48000057 0xfe00707f
    ∷ insn "vsbc_vxm" 0x48004057 0xfe00707f
    ∷ insn "vse1024_v" 0x10007027 0x1df0707f
    ∷ insn "vse128_v" 0x10000027 0x1df0707f
    ∷ insn "vse16_v" 0x5027 0x1df0707f
    ∷ insn "vse256_v" 0x10005027 0x1df0707f
    ∷ insn "vse32_v" 0x6027 0x1df0707f
    ∷ insn "vse512_v" 0x10006027 0x1df0707f
    ∷ insn "vse64_v" 0x7027 0x1df0707f
    ∷ insn "vse8_v" 0x27 0x1df0707f
    ∷ insn "vsetivli" 0xc0007057 0xc000707f
    ∷ insn "vsetvl" 0x80007057 0xfe00707f
    ∷ insn "vsetvli" 0x7057 0x8000707f
    ∷ insn "vsext_vf2" 0x4803a057 0xfc0ff07f
    ∷ insn "vsext_vf4" 0x4802a057 0xfc0ff07f
    ∷ insn "vsext_vf8" 0x4801a057 0xfc0ff07f
    ∷ insn "vslide1down_vx" 0x3c006057 0xfc00707f
    ∷ insn "vslide1up_vx" 0x38006057 0xfc00707f
    ∷ insn "vslidedown_vi" 0x3c003057 0xfc00707f
    ∷ insn "vslidedown_vx" 0x3c004057 0xfc00707f
    ∷ insn "vslideup_vi" 0x38003057 0xfc00707f
    ∷ insn "vslideup_vx" 0x38004057 0xfc00707f
    ∷ insn "vsll_vi" 0x94003057 0xfc00707f
    ∷ insn "vsll_vv" 0x94000057 0xfc00707f
    ∷ insn "vsll_vx" 0x94004057 0xfc00707f
    ∷ insn "vsm_v" 0x2b00027 0xfff0707f
    ∷ insn "vsmul_vv" 0x9c000057 0xfc00707f
    ∷ insn "vsmul_vx" 0x9c004057 0xfc00707f
    ∷ insn "vsoxei1024_v" 0x1c007027 0x1c00707f
    ∷ insn "vsoxei128_v" 0x1c000027 0x1c00707f
    ∷ insn "vsoxei16_v" 0xc005027 0x1c00707f
    ∷ insn "vsoxei256_v" 0x1c005027 0x1c00707f
    ∷ insn "vsoxei32_v" 0xc006027 0x1c00707f
    ∷ insn "vsoxei512_v" 0x1c006027 0x1c00707f
    ∷ insn "vsoxei64_v" 0xc007027 0x1c00707f
    ∷ insn "vsoxei8_v" 0xc000027 0x1c00707f
    ∷ []
