-- ===== src/Encoding/Instructions/Part11.antt =====
-- riscv-tests/env/encoding.h: MATCH and MASK from VAADD_VX to VFMAX_VF.
use tartaruga.Base.{List, [], ◌∷◌}
use tartaruga.Encoding.{Pattern, insn}

abbrev pub patterns_11 : List Pattern
patterns_11 =
    insn "vaadd_vx" 0x24006057 0xfc00707f
    ∷ insn "vaaddu_vv" 0x20002057 0xfc00707f
    ∷ insn "vaaddu_vx" 0x20006057 0xfc00707f
    ∷ insn "vadc_vim" 0x40003057 0xfe00707f
    ∷ insn "vadc_vvm" 0x40000057 0xfe00707f
    ∷ insn "vadc_vxm" 0x40004057 0xfe00707f
    ∷ insn "vadd_vi" 0x3057 0xfc00707f
    ∷ insn "vadd_vv" 0x57 0xfc00707f
    ∷ insn "vadd_vx" 0x4057 0xfc00707f
    ∷ insn "vamoaddei16_v" 0x502f 0xf800707f
    ∷ insn "vamoaddei32_v" 0x602f 0xf800707f
    ∷ insn "vamoaddei64_v" 0x702f 0xf800707f
    ∷ insn "vamoaddei8_v" 0x2f 0xf800707f
    ∷ insn "vamoandei16_v" 0x6000502f 0xf800707f
    ∷ insn "vamoandei32_v" 0x6000602f 0xf800707f
    ∷ insn "vamoandei64_v" 0x6000702f 0xf800707f
    ∷ insn "vamoandei8_v" 0x6000002f 0xf800707f
    ∷ insn "vamomaxei16_v" 0xa000502f 0xf800707f
    ∷ insn "vamomaxei32_v" 0xa000602f 0xf800707f
    ∷ insn "vamomaxei64_v" 0xa000702f 0xf800707f
    ∷ insn "vamomaxei8_v" 0xa000002f 0xf800707f
    ∷ insn "vamomaxuei16_v" 0xe000502f 0xf800707f
    ∷ insn "vamomaxuei32_v" 0xe000602f 0xf800707f
    ∷ insn "vamomaxuei64_v" 0xe000702f 0xf800707f
    ∷ insn "vamomaxuei8_v" 0xe000002f 0xf800707f
    ∷ insn "vamominei16_v" 0x8000502f 0xf800707f
    ∷ insn "vamominei32_v" 0x8000602f 0xf800707f
    ∷ insn "vamominei64_v" 0x8000702f 0xf800707f
    ∷ insn "vamominei8_v" 0x8000002f 0xf800707f
    ∷ insn "vamominuei16_v" 0xc000502f 0xf800707f
    ∷ insn "vamominuei32_v" 0xc000602f 0xf800707f
    ∷ insn "vamominuei64_v" 0xc000702f 0xf800707f
    ∷ insn "vamominuei8_v" 0xc000002f 0xf800707f
    ∷ insn "vamoorei16_v" 0x4000502f 0xf800707f
    ∷ insn "vamoorei32_v" 0x4000602f 0xf800707f
    ∷ insn "vamoorei64_v" 0x4000702f 0xf800707f
    ∷ insn "vamoorei8_v" 0x4000002f 0xf800707f
    ∷ insn "vamoswapei16_v" 0x800502f 0xf800707f
    ∷ insn "vamoswapei32_v" 0x800602f 0xf800707f
    ∷ insn "vamoswapei64_v" 0x800702f 0xf800707f
    ∷ insn "vamoswapei8_v" 0x800002f 0xf800707f
    ∷ insn "vamoxorei16_v" 0x2000502f 0xf800707f
    ∷ insn "vamoxorei32_v" 0x2000602f 0xf800707f
    ∷ insn "vamoxorei64_v" 0x2000702f 0xf800707f
    ∷ insn "vamoxorei8_v" 0x2000002f 0xf800707f
    ∷ insn "vand_vi" 0x24003057 0xfc00707f
    ∷ insn "vand_vv" 0x24000057 0xfc00707f
    ∷ insn "vand_vx" 0x24004057 0xfc00707f
    ∷ insn "vasub_vv" 0x2c002057 0xfc00707f
    ∷ insn "vasub_vx" 0x2c006057 0xfc00707f
    ∷ insn "vasubu_vv" 0x28002057 0xfc00707f
    ∷ insn "vasubu_vx" 0x28006057 0xfc00707f
    ∷ insn "vcompress_vm" 0x5e002057 0xfe00707f
    ∷ insn "vcpop_m" 0x40082057 0xfc0ff07f
    ∷ insn "vdiv_vv" 0x84002057 0xfc00707f
    ∷ insn "vdiv_vx" 0x84006057 0xfc00707f
    ∷ insn "vdivu_vv" 0x80002057 0xfc00707f
    ∷ insn "vdivu_vx" 0x80006057 0xfc00707f
    ∷ insn "vfadd_vf" 0x5057 0xfc00707f
    ∷ insn "vfadd_vv" 0x1057 0xfc00707f
    ∷ insn "vfclass_v" 0x4c081057 0xfc0ff07f
    ∷ insn "vfcvt_f_x_v" 0x48019057 0xfc0ff07f
    ∷ insn "vfcvt_f_xu_v" 0x48011057 0xfc0ff07f
    ∷ insn "vfcvt_rtz_x_f_v" 0x48039057 0xfc0ff07f
    ∷ insn "vfcvt_rtz_xu_f_v" 0x48031057 0xfc0ff07f
    ∷ insn "vfcvt_x_f_v" 0x48009057 0xfc0ff07f
    ∷ insn "vfcvt_xu_f_v" 0x48001057 0xfc0ff07f
    ∷ insn "vfdiv_vf" 0x80005057 0xfc00707f
    ∷ insn "vfdiv_vv" 0x80001057 0xfc00707f
    ∷ insn "vfirst_m" 0x4008a057 0xfc0ff07f
    ∷ insn "vfmacc_vf" 0xb0005057 0xfc00707f
    ∷ insn "vfmacc_vv" 0xb0001057 0xfc00707f
    ∷ insn "vfmadd_vf" 0xa0005057 0xfc00707f
    ∷ insn "vfmadd_vv" 0xa0001057 0xfc00707f
    ∷ insn "vfmax_vf" 0x18005057 0xfc00707f
    ∷ []
