-- ===== src/Encoding/Instructions/Part16.antt =====
-- riscv-tests/env/encoding.h: MATCH and MASK from VSRA_VI to XNOR.
use tartaruga.Base.{List, [], ◌∷◌}
use tartaruga.Encoding.{Pattern, insn}

abbrev pub patterns_16 : List Pattern
patterns_16 =
    insn "vsra_vi" 0xa4003057 0xfc00707f
    ∷ insn "vsra_vv" 0xa4000057 0xfc00707f
    ∷ insn "vsra_vx" 0xa4004057 0xfc00707f
    ∷ insn "vsrl_vi" 0xa0003057 0xfc00707f
    ∷ insn "vsrl_vv" 0xa0000057 0xfc00707f
    ∷ insn "vsrl_vx" 0xa0004057 0xfc00707f
    ∷ insn "vsse1024_v" 0x18007027 0x1c00707f
    ∷ insn "vsse128_v" 0x18000027 0x1c00707f
    ∷ insn "vsse16_v" 0x8005027 0x1c00707f
    ∷ insn "vsse256_v" 0x18005027 0x1c00707f
    ∷ insn "vsse32_v" 0x8006027 0x1c00707f
    ∷ insn "vsse512_v" 0x18006027 0x1c00707f
    ∷ insn "vsse64_v" 0x8007027 0x1c00707f
    ∷ insn "vsse8_v" 0x8000027 0x1c00707f
    ∷ insn "vssra_vi" 0xac003057 0xfc00707f
    ∷ insn "vssra_vv" 0xac000057 0xfc00707f
    ∷ insn "vssra_vx" 0xac004057 0xfc00707f
    ∷ insn "vssrl_vi" 0xa8003057 0xfc00707f
    ∷ insn "vssrl_vv" 0xa8000057 0xfc00707f
    ∷ insn "vssrl_vx" 0xa8004057 0xfc00707f
    ∷ insn "vssub_vv" 0x8c000057 0xfc00707f
    ∷ insn "vssub_vx" 0x8c004057 0xfc00707f
    ∷ insn "vssubu_vv" 0x88000057 0xfc00707f
    ∷ insn "vssubu_vx" 0x88004057 0xfc00707f
    ∷ insn "vsub_vv" 0x8000057 0xfc00707f
    ∷ insn "vsub_vx" 0x8004057 0xfc00707f
    ∷ insn "vsuxei1024_v" 0x14007027 0x1c00707f
    ∷ insn "vsuxei128_v" 0x14000027 0x1c00707f
    ∷ insn "vsuxei16_v" 0x4005027 0x1c00707f
    ∷ insn "vsuxei256_v" 0x14005027 0x1c00707f
    ∷ insn "vsuxei32_v" 0x4006027 0x1c00707f
    ∷ insn "vsuxei512_v" 0x14006027 0x1c00707f
    ∷ insn "vsuxei64_v" 0x4007027 0x1c00707f
    ∷ insn "vsuxei8_v" 0x4000027 0x1c00707f
    ∷ insn "vwadd_vv" 0xc4002057 0xfc00707f
    ∷ insn "vwadd_vx" 0xc4006057 0xfc00707f
    ∷ insn "vwadd_wv" 0xd4002057 0xfc00707f
    ∷ insn "vwadd_wx" 0xd4006057 0xfc00707f
    ∷ insn "vwaddu_vv" 0xc0002057 0xfc00707f
    ∷ insn "vwaddu_vx" 0xc0006057 0xfc00707f
    ∷ insn "vwaddu_wv" 0xd0002057 0xfc00707f
    ∷ insn "vwaddu_wx" 0xd0006057 0xfc00707f
    ∷ insn "vwmacc_vv" 0xf4002057 0xfc00707f
    ∷ insn "vwmacc_vx" 0xf4006057 0xfc00707f
    ∷ insn "vwmaccsu_vv" 0xfc002057 0xfc00707f
    ∷ insn "vwmaccsu_vx" 0xfc006057 0xfc00707f
    ∷ insn "vwmaccu_vv" 0xf0002057 0xfc00707f
    ∷ insn "vwmaccu_vx" 0xf0006057 0xfc00707f
    ∷ insn "vwmaccus_vx" 0xf8006057 0xfc00707f
    ∷ insn "vwmul_vv" 0xec002057 0xfc00707f
    ∷ insn "vwmul_vx" 0xec006057 0xfc00707f
    ∷ insn "vwmulsu_vv" 0xe8002057 0xfc00707f
    ∷ insn "vwmulsu_vx" 0xe8006057 0xfc00707f
    ∷ insn "vwmulu_vv" 0xe0002057 0xfc00707f
    ∷ insn "vwmulu_vx" 0xe0006057 0xfc00707f
    ∷ insn "vwredsum_vs" 0xc4000057 0xfc00707f
    ∷ insn "vwredsumu_vs" 0xc0000057 0xfc00707f
    ∷ insn "vwsub_vv" 0xcc002057 0xfc00707f
    ∷ insn "vwsub_vx" 0xcc006057 0xfc00707f
    ∷ insn "vwsub_wv" 0xdc002057 0xfc00707f
    ∷ insn "vwsub_wx" 0xdc006057 0xfc00707f
    ∷ insn "vwsubu_vv" 0xc8002057 0xfc00707f
    ∷ insn "vwsubu_vx" 0xc8006057 0xfc00707f
    ∷ insn "vwsubu_wv" 0xd8002057 0xfc00707f
    ∷ insn "vwsubu_wx" 0xd8006057 0xfc00707f
    ∷ insn "vxor_vi" 0x2c003057 0xfc00707f
    ∷ insn "vxor_vv" 0x2c000057 0xfc00707f
    ∷ insn "vxor_vx" 0x2c004057 0xfc00707f
    ∷ insn "vzext_vf2" 0x48032057 0xfc0ff07f
    ∷ insn "vzext_vf4" 0x48022057 0xfc0ff07f
    ∷ insn "vzext_vf8" 0x48012057 0xfc0ff07f
    ∷ insn "wfi" 0x10500073 0xffffffff
    ∷ insn "wrs_nto" 0xd00073 0xffffffff
    ∷ insn "wrs_sto" 0x1d00073 0xffffffff
    ∷ insn "xnor" 0x40004033 0xfe00707f
    ∷ []
