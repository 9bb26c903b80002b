-- ===== src/Encoding/Instructions/Part12.antt =====
-- riscv-tests/env/encoding.h: MATCH and MASK from VFMAX_VV to VFWSUB_WV.
use tartaruga.Base.{List, [], ◌∷◌}
use tartaruga.Encoding.{Pattern, insn}

abbrev pub patterns_12 : List Pattern
patterns_12 =
    insn "vfmax_vv" 0x18001057 0xfc00707f
    ∷ insn "vfmerge_vfm" 0x5c005057 0xfe00707f
    ∷ insn "vfmin_vf" 0x10005057 0xfc00707f
    ∷ insn "vfmin_vv" 0x10001057 0xfc00707f
    ∷ insn "vfmsac_vf" 0xb8005057 0xfc00707f
    ∷ insn "vfmsac_vv" 0xb8001057 0xfc00707f
    ∷ insn "vfmsub_vf" 0xa8005057 0xfc00707f
    ∷ insn "vfmsub_vv" 0xa8001057 0xfc00707f
    ∷ insn "vfmul_vf" 0x90005057 0xfc00707f
    ∷ insn "vfmul_vv" 0x90001057 0xfc00707f
    ∷ insn "vfmv_f_s" 0x42001057 0xfe0ff07f
    ∷ insn "vfmv_s_f" 0x42005057 0xfff0707f
    ∷ insn "vfmv_v_f" 0x5e005057 0xfff0707f
    ∷ insn "vfncvt_f_f_w" 0x480a1057 0xfc0ff07f
    ∷ insn "vfncvt_f_x_w" 0x48099057 0xfc0ff07f
    ∷ insn "vfncvt_f_xu_w" 0x48091057 0xfc0ff07f
    ∷ insn "vfncvt_rod_f_f_w" 0x480a9057 0xfc0ff07f
    ∷ insn "vfncvt_rtz_x_f_w" 0x480b9057 0xfc0ff07f
    ∷ insn "vfncvt_rtz_xu_f_w" 0x480b1057 0xfc0ff07f
    ∷ insn "vfncvt_x_f_w" 0x48089057 0xfc0ff07f
    ∷ insn "vfncvt_xu_f_w" 0x48081057 0xfc0ff07f
    ∷ insn "vfnmacc_vf" 0xb4005057 0xfc00707f
    ∷ insn "vfnmacc_vv" 0xb4001057 0xfc00707f
    ∷ insn "vfnmadd_vf" 0xa4005057 0xfc00707f
    ∷ insn "vfnmadd_vv" 0xa4001057 0xfc00707f
    ∷ insn "vfnmsac_vf" 0xbc005057 0xfc00707f
    ∷ insn "vfnmsac_vv" 0xbc001057 0xfc00707f
    ∷ insn "vfnmsub_vf" 0xac005057 0xfc00707f
    ∷ insn "vfnmsub_vv" 0xac001057 0xfc00707f
    ∷ insn "vfrdiv_vf" 0x84005057 0xfc00707f
    ∷ insn "vfrec7_v" 0x4c029057 0xfc0ff07f
    ∷ insn "vfredmax_vs" 0x1c001057 0xfc00707f
    ∷ insn "vfredmin_vs" 0x14001057 0xfc00707f
    ∷ insn "vfredosum_vs" 0xc001057 0xfc00707f
    ∷ insn "vfredusum_vs" 0x4001057 0xfc00707f
    ∷ insn "vfrsqrt7_v" 0x4c021057 0xfc0ff07f
    ∷ insn "vfrsub_vf" 0x9c005057 0xfc00707f
    ∷ insn "vfsgnj_vf" 0x20005057 0xfc00707f
    ∷ insn "vfsgnj_vv" 0x20001057 0xfc00707f
    ∷ insn "vfsgnjn_vf" 0x24005057 0xfc00707f
    ∷ insn "vfsgnjn_vv" 0x24001057 0xfc00707f
    ∷ insn "vfsgnjx_vf" 0x28005057 0xfc00707f
    ∷ insn "vfsgnjx_vv" 0x28001057 0xfc00707f
    ∷ insn "vfslide1down_vf" 0x3c005057 0xfc00707f
    ∷ insn "vfslide1up_vf" 0x38005057 0xfc00707f
    ∷ insn "vfsqrt_v" 0x4c001057 0xfc0ff07f
    ∷ insn "vfsub_vf" 0x8005057 0xfc00707f
    ∷ insn "vfsub_vv" 0x8001057 0xfc00707f
    ∷ insn "vfwadd_vf" 0xc0005057 0xfc00707f
    ∷ insn "vfwadd_vv" 0xc0001057 0xfc00707f
    ∷ insn "vfwadd_wf" 0xd0005057 0xfc00707f
    ∷ insn "vfwadd_wv" 0xd0001057 0xfc00707f
    ∷ insn "vfwcvt_f_f_v" 0x48061057 0xfc0ff07f
    ∷ insn "vfwcvt_f_x_v" 0x48059057 0xfc0ff07f
    ∷ insn "vfwcvt_f_xu_v" 0x48051057 0xfc0ff07f
    ∷ insn "vfwcvt_rtz_x_f_v" 0x48079057 0xfc0ff07f
    ∷ insn "vfwcvt_rtz_xu_f_v" 0x48071057 0xfc0ff07f
    ∷ insn "vfwcvt_x_f_v" 0x48049057 0xfc0ff07f
    ∷ insn "vfwcvt_xu_f_v" 0x48041057 0xfc0ff07f
    ∷ insn "vfwmacc_vf" 0xf0005057 0xfc00707f
    ∷ insn "vfwmacc_vv" 0xf0001057 0xfc00707f
    ∷ insn "vfwmsac_vf" 0xf8005057 0xfc00707f
    ∷ insn "vfwmsac_vv" 0xf8001057 0xfc00707f
    ∷ insn "vfwmul_vf" 0xe0005057 0xfc00707f
    ∷ insn "vfwmul_vv" 0xe0001057 0xfc00707f
    ∷ insn "vfwnmacc_vf" 0xf4005057 0xfc00707f
    ∷ insn "vfwnmacc_vv" 0xf4001057 0xfc00707f
    ∷ insn "vfwnmsac_vf" 0xfc005057 0xfc00707f
    ∷ insn "vfwnmsac_vv" 0xfc001057 0xfc00707f
    ∷ insn "vfwredosum_vs" 0xcc001057 0xfc00707f
    ∷ insn "vfwredusum_vs" 0xc4001057 0xfc00707f
    ∷ insn "vfwsub_vf" 0xc8005057 0xfc00707f
    ∷ insn "vfwsub_vv" 0xc8001057 0xfc00707f
    ∷ insn "vfwsub_wf" 0xd8005057 0xfc00707f
    ∷ insn "vfwsub_wv" 0xd8001057 0xfc00707f
    ∷ []
