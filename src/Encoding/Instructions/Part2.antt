-- ===== src/Encoding/Instructions/Part2.antt =====
-- riscv-tests/env/encoding.h: MATCH and MASK from C_BNEZ to CRAS32.
use tartaruga.Base.{List, [], ◌∷◌}
use tartaruga.Encoding.{Pattern, insn}

abbrev pub patterns_2 : List Pattern
patterns_2 =
    insn "c_bnez" 0xe001 0xe003
    ∷ insn "c_ebreak" 0x9002 0xffff
    ∷ insn "c_fld" 0x2000 0xe003
    ∷ insn "c_fldsp" 0x2002 0xe003
    ∷ insn "c_flw" 0x6000 0xe003
    ∷ insn "c_flwsp" 0x6002 0xe003
    ∷ insn "c_fsd" 0xa000 0xe003
    ∷ insn "c_fsdsp" 0xa002 0xe003
    ∷ insn "c_fsw" 0xe000 0xe003
    ∷ insn "c_fswsp" 0xe002 0xe003
    ∷ insn "c_j" 0xa001 0xe003
    ∷ insn "c_jal" 0x2001 0xe003
    ∷ insn "c_jalr" 0x9002 0xf07f
    ∷ insn "c_jr" 0x8002 0xf07f
    ∷ insn "c_lbu" 0x8000 0xfc03
    ∷ insn "c_ld" 0x6000 0xe003
    ∷ insn "c_ldsp" 0x6002 0xe003
    ∷ insn "c_lh" 0x8440 0xfc43
    ∷ insn "c_lhu" 0x8400 0xfc43
    ∷ insn "c_li" 0x4001 0xe003
    ∷ insn "c_lui" 0x6001 0xe003
    ∷ insn "c_lw" 0x4000 0xe003
    ∷ insn "c_lwsp" 0x4002 0xe003
    ∷ insn "c_mul" 0x9c41 0xfc63
    ∷ insn "c_mv" 0x8002 0xf003
    ∷ insn "c_nop" 0x1 0xef83
    ∷ insn "c_not" 0x9c75 0xfc7f
    ∷ insn "c_or" 0x8c41 0xfc63
    ∷ insn "c_sb" 0x8800 0xfc03
    ∷ insn "c_sd" 0xe000 0xe003
    ∷ insn "c_sdsp" 0xe002 0xe003
    ∷ insn "c_sext_b" 0x9c65 0xfc7f
    ∷ insn "c_sext_h" 0x9c6d 0xfc7f
    ∷ insn "c_sh" 0x8c00 0xfc43
    ∷ insn "c_slli" 0x2 0xe003
    ∷ insn "c_srai" 0x8401 0xec03
    ∷ insn "c_srli" 0x8001 0xec03
    ∷ insn "c_sub" 0x8c01 0xfc63
    ∷ insn "c_subw" 0x9c01 0xfc63
    ∷ insn "c_sw" 0xc000 0xe003
    ∷ insn "c_swsp" 0xc002 0xe003
    ∷ insn "c_xor" 0x8c21 0xfc63
    ∷ insn "c_zext_b" 0x9c61 0xfc7f
    ∷ insn "c_zext_h" 0x9c69 0xfc7f
    ∷ insn "c_zext_w" 0x9c71 0xfc7f
    ∷ insn "cbo_clean" 0x10200f 0xfff07fff
    ∷ insn "cbo_flush" 0x20200f 0xfff07fff
    ∷ insn "cbo_inval" 0x200f 0xfff07fff
    ∷ insn "cbo_zero" 0x40200f 0xfff07fff
    ∷ insn "clmul" 0xa001033 0xfe00707f
    ∷ insn "clmulh" 0xa003033 0xfe00707f
    ∷ insn "clmulr" 0xa002033 0xfe00707f
    ∷ insn "clrs16" 0xae800077 0xfff0707f
    ∷ insn "clrs32" 0xaf800077 0xfff0707f
    ∷ insn "clrs8" 0xae000077 0xfff0707f
    ∷ insn "clz" 0x60001013 0xfff0707f
    ∷ insn "clz16" 0xae900077 0xfff0707f
    ∷ insn "clz32" 0xaf900077 0xfff0707f
    ∷ insn "clz8" 0xae100077 0xfff0707f
    ∷ insn "clzw" 0x6000101b 0xfff0707f
    ∷ insn "cm_jalt" 0xa002 0xfc03
    ∷ insn "cm_mva01s" 0xac62 0xfc63
    ∷ insn "cm_mvsa01" 0xac22 0xfc63
    ∷ insn "cm_pop" 0xba02 0xff03
    ∷ insn "cm_popret" 0xbe02 0xff03
    ∷ insn "cm_popretz" 0xbc02 0xff03
    ∷ insn "cm_push" 0xb802 0xff03
    ∷ insn "cmix" 0x6001033 0x600707f
    ∷ insn "cmov" 0x6005033 0x600707f
    ∷ insn "cmpeq16" 0x4c000077 0xfe00707f
    ∷ insn "cmpeq8" 0x4e000077 0xfe00707f
    ∷ insn "cpop" 0x60201013 0xfff0707f
    ∷ insn "cpopw" 0x6020101b 0xfff0707f
    ∷ insn "cras16" 0x44000077 0xfe00707f
    ∷ insn "cras32" 0x44002077 0xfe00707f
    ∷ []
