-- ===== src/Encoding/Instructions/Part4.antt =====
-- riscv-tests/env/encoding.h: MATCH and MASK from FCVT_WU_D to FSL.
use tartaruga.Base.{List, [], ◌∷◌}
use tartaruga.Encoding.{Pattern, insn}

abbrev pub patterns_4 : List Pattern
patterns_4 =
    insn "fcvt_wu_d" 0xc2100053 0xfff0007f
    ∷ insn "fcvt_wu_h" 0xc4100053 0xfff0007f
    ∷ insn "fcvt_wu_q" 0xc6100053 0xfff0007f
    ∷ insn "fcvt_wu_s" 0xc0100053 0xfff0007f
    ∷ insn "fdiv_d" 0x1a000053 0xfe00007f
    ∷ insn "fdiv_h" 0x1c000053 0xfe00007f
    ∷ insn "fdiv_q" 0x1e000053 0xfe00007f
    ∷ insn "fdiv_s" 0x18000053 0xfe00007f
    ∷ insn "fence" 0xf 0x707f
    ∷ insn "fence_i" 0x100f 0x707f
    ∷ insn "feq_d" 0xa2002053 0xfe00707f
    ∷ insn "feq_h" 0xa4002053 0xfe00707f
    ∷ insn "feq_q" 0xa6002053 0xfe00707f
    ∷ insn "feq_s" 0xa0002053 0xfe00707f
    ∷ insn "fld" 0x3007 0x707f
    ∷ insn "fle_d" 0xa2000053 0xfe00707f
    ∷ insn "fle_h" 0xa4000053 0xfe00707f
    ∷ insn "fle_q" 0xa6000053 0xfe00707f
    ∷ insn "fle_s" 0xa0000053 0xfe00707f
    ∷ insn "flh" 0x1007 0x707f
    ∷ insn "flq" 0x4007 0x707f
    ∷ insn "flt_d" 0xa2001053 0xfe00707f
    ∷ insn "flt_h" 0xa4001053 0xfe00707f
    ∷ insn "flt_q" 0xa6001053 0xfe00707f
    ∷ insn "flt_s" 0xa0001053 0xfe00707f
    ∷ insn "flw" 0x2007 0x707f
    ∷ insn "fmadd_d" 0x2000043 0x600007f
    ∷ insn "fmadd_h" 0x4000043 0x600007f
    ∷ insn "fmadd_q" 0x6000043 0x600007f
    ∷ insn "fmadd_s" 0x43 0x600007f
    ∷ insn "fmax_d" 0x2a001053 0xfe00707f
    ∷ insn "fmax_h" 0x2c001053 0xfe00707f
    ∷ insn "fmax_q" 0x2e001053 0xfe00707f
    ∷ insn "fmax_s" 0x28001053 0xfe00707f
    ∷ insn "fmin_d" 0x2a000053 0xfe00707f
    ∷ insn "fmin_h" 0x2c000053 0xfe00707f
    ∷ insn "fmin_q" 0x2e000053 0xfe00707f
    ∷ insn "fmin_s" 0x28000053 0xfe00707f
    ∷ insn "fmsub_d" 0x2000047 0x600007f
    ∷ insn "fmsub_h" 0x4000047 0x600007f
    ∷ insn "fmsub_q" 0x6000047 0x600007f
    ∷ insn "fmsub_s" 0x47 0x600007f
    ∷ insn "fmul_d" 0x12000053 0xfe00007f
    ∷ insn "fmul_h" 0x14000053 0xfe00007f
    ∷ insn "fmul_q" 0x16000053 0xfe00007f
    ∷ insn "fmul_s" 0x10000053 0xfe00007f
    ∷ insn "fmv_d_x" 0xf2000053 0xfff0707f
    ∷ insn "fmv_h_x" 0xf4000053 0xfff0707f
    ∷ insn "fmv_w_x" 0xf0000053 0xfff0707f
    ∷ insn "fmv_x_d" 0xe2000053 0xfff0707f
    ∷ insn "fmv_x_h" 0xe4000053 0xfff0707f
    ∷ insn "fmv_x_w" 0xe0000053 0xfff0707f
    ∷ insn "fnmadd_d" 0x200004f 0x600007f
    ∷ insn "fnmadd_h" 0x400004f 0x600007f
    ∷ insn "fnmadd_q" 0x600004f 0x600007f
    ∷ insn "fnmadd_s" 0x4f 0x600007f
    ∷ insn "fnmsub_d" 0x200004b 0x600007f
    ∷ insn "fnmsub_h" 0x400004b 0x600007f
    ∷ insn "fnmsub_q" 0x600004b 0x600007f
    ∷ insn "fnmsub_s" 0x4b 0x600007f
    ∷ insn "fsd" 0x3027 0x707f
    ∷ insn "fsgnj_d" 0x22000053 0xfe00707f
    ∷ insn "fsgnj_h" 0x24000053 0xfe00707f
    ∷ insn "fsgnj_q" 0x26000053 0xfe00707f
    ∷ insn "fsgnj_s" 0x20000053 0xfe00707f
    ∷ insn "fsgnjn_d" 0x22001053 0xfe00707f
    ∷ insn "fsgnjn_h" 0x24001053 0xfe00707f
    ∷ insn "fsgnjn_q" 0x26001053 0xfe00707f
    ∷ insn "fsgnjn_s" 0x20001053 0xfe00707f
    ∷ insn "fsgnjx_d" 0x22002053 0xfe00707f
    ∷ insn "fsgnjx_h" 0x24002053 0xfe00707f
    ∷ insn "fsgnjx_q" 0x26002053 0xfe00707f
    ∷ insn "fsgnjx_s" 0x20002053 0xfe00707f
    ∷ insn "fsh" 0x1027 0x707f
    ∷ insn "fsl" 0x4001033 0x600707f
    ∷ []
