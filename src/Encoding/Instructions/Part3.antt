-- ===== src/Encoding/Instructions/Part3.antt =====
-- riscv-tests/env/encoding.h: MATCH and MASK from CRC32_B to FCVT_W_S.
use tartaruga.Base.{List, [], ◌∷◌}
use tartaruga.Encoding.{Pattern, insn}

abbrev pub patterns_3 : List Pattern
patterns_3 =
    insn "crc32_b" 0x61001013 0xfff0707f
    ∷ insn "crc32_d" 0x61301013 0xfff0707f
    ∷ insn "crc32_h" 0x61101013 0xfff0707f
    ∷ insn "crc32_w" 0x61201013 0xfff0707f
    ∷ insn "crc32c_b" 0x61801013 0xfff0707f
    ∷ insn "crc32c_d" 0x61b01013 0xfff0707f
    ∷ insn "crc32c_h" 0x61901013 0xfff0707f
    ∷ insn "crc32c_w" 0x61a01013 0xfff0707f
    ∷ insn "crsa16" 0x46000077 0xfe00707f
    ∷ insn "crsa32" 0x46002077 0xfe00707f
    ∷ insn "csrrc" 0x3073 0x707f
    ∷ insn "csrrci" 0x7073 0x707f
    ∷ insn "csrrs" 0x2073 0x707f
    ∷ insn "csrrsi" 0x6073 0x707f
    ∷ insn "csrrw" 0x1073 0x707f
    ∷ insn "csrrwi" 0x5073 0x707f
    ∷ insn "ctz" 0x60101013 0xfff0707f
    ∷ insn "ctzw" 0x6010101b 0xfff0707f
    ∷ insn "czero_eqz" 0xe005033 0xfe00707f
    ∷ insn "czero_nez" 0xe007033 0xfe00707f
    ∷ insn "div" 0x2004033 0xfe00707f
    ∷ insn "divu" 0x2005033 0xfe00707f
    ∷ insn "divuw" 0x200503b 0xfe00707f
    ∷ insn "divw" 0x200403b 0xfe00707f
    ∷ insn "dret" 0x7b200073 0xffffffff
    ∷ insn "ebreak" 0x100073 0xffffffff
    ∷ insn "ecall" 0x73 0xffffffff
    ∷ insn "fadd_d" 0x2000053 0xfe00007f
    ∷ insn "fadd_h" 0x4000053 0xfe00007f
    ∷ insn "fadd_q" 0x6000053 0xfe00007f
    ∷ insn "fadd_s" 0x53 0xfe00007f
    ∷ insn "fclass_d" 0xe2001053 0xfff0707f
    ∷ insn "fclass_h" 0xe4001053 0xfff0707f
    ∷ insn "fclass_q" 0xe6001053 0xfff0707f
    ∷ insn "fclass_s" 0xe0001053 0xfff0707f
    ∷ insn "fcvt_d_h" 0x42200053 0xfff0007f
    ∷ insn "fcvt_d_l" 0xd2200053 0xfff0007f
    ∷ insn "fcvt_d_lu" 0xd2300053 0xfff0007f
    ∷ insn "fcvt_d_q" 0x42300053 0xfff0007f
    ∷ insn "fcvt_d_s" 0x42000053 0xfff0007f
    ∷ insn "fcvt_d_w" 0xd2000053 0xfff0007f
    ∷ insn "fcvt_d_wu" 0xd2100053 0xfff0007f
    ∷ insn "fcvt_h_d" 0x44100053 0xfff0007f
    ∷ insn "fcvt_h_l" 0xd4200053 0xfff0007f
    ∷ insn "fcvt_h_lu" 0xd4300053 0xfff0007f
    ∷ insn "fcvt_h_q" 0x44300053 0xfff0007f
    ∷ insn "fcvt_h_s" 0x44000053 0xfff0007f
    ∷ insn "fcvt_h_w" 0xd4000053 0xfff0007f
    ∷ insn "fcvt_h_wu" 0xd4100053 0xfff0007f
    ∷ insn "fcvt_l_d" 0xc2200053 0xfff0007f
    ∷ insn "fcvt_l_h" 0xc4200053 0xfff0007f
    ∷ insn "fcvt_l_q" 0xc6200053 0xfff0007f
    ∷ insn "fcvt_l_s" 0xc0200053 0xfff0007f
    ∷ insn "fcvt_lu_d" 0xc2300053 0xfff0007f
    ∷ insn "fcvt_lu_h" 0xc4300053 0xfff0007f
    ∷ insn "fcvt_lu_q" 0xc6300053 0xfff0007f
    ∷ insn "fcvt_lu_s" 0xc0300053 0xfff0007f
    ∷ insn "fcvt_q_d" 0x46100053 0xfff0007f
    ∷ insn "fcvt_q_h" 0x46200053 0xfff0007f
    ∷ insn "fcvt_q_l" 0xd6200053 0xfff0007f
    ∷ insn "fcvt_q_lu" 0xd6300053 0xfff0007f
    ∷ insn "fcvt_q_s" 0x46000053 0xfff0007f
    ∷ insn "fcvt_q_w" 0xd6000053 0xfff0007f
    ∷ insn "fcvt_q_wu" 0xd6100053 0xfff0007f
    ∷ insn "fcvt_s_d" 0x40100053 0xfff0007f
    ∷ insn "fcvt_s_h" 0x40200053 0xfff0007f
    ∷ insn "fcvt_s_l" 0xd0200053 0xfff0007f
    ∷ insn "fcvt_s_lu" 0xd0300053 0xfff0007f
    ∷ insn "fcvt_s_q" 0x40300053 0xfff0007f
    ∷ insn "fcvt_s_w" 0xd0000053 0xfff0007f
    ∷ insn "fcvt_s_wu" 0xd0100053 0xfff0007f
    ∷ insn "fcvt_w_d" 0xc2000053 0xfff0007f
    ∷ insn "fcvt_w_h" 0xc4000053 0xfff0007f
    ∷ insn "fcvt_w_q" 0xc6000053 0xfff0007f
    ∷ insn "fcvt_w_s" 0xc0000053 0xfff0007f
    ∷ []
