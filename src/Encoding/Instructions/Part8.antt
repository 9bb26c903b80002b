-- ===== src/Encoding/Instructions/Part8.antt =====
-- riscv-tests/env/encoding.h: MATCH and MASK from SCLIP32 to SMAX32.
use tartaruga.Base.{List, [], ◌∷◌}
use tartaruga.Encoding.{Pattern, insn}

abbrev pub patterns_8 : List Pattern
patterns_8 =
    insn "sclip32" 0xe4000077 0xfe00707f
    ∷ insn "sclip8" 0x8c000077 0xff80707f
    ∷ insn "scmple16" 0x1c000077 0xfe00707f
    ∷ insn "scmple8" 0x1e000077 0xfe00707f
    ∷ insn "scmplt16" 0xc000077 0xfe00707f
    ∷ insn "scmplt8" 0xe000077 0xfe00707f
    ∷ insn "sd" 0x3023 0x707f
    ∷ insn "sext_b" 0x60401013 0xfff0707f
    ∷ insn "sext_h" 0x60501013 0xfff0707f
    ∷ insn "sfence_inval_ir" 0x18100073 0xffffffff
    ∷ insn "sfence_vma" 0x12000073 0xfe007fff
    ∷ insn "sfence_w_inval" 0x18000073 0xffffffff
    ∷ insn "sh" 0x1023 0x707f
    ∷ insn "sh1add" 0x20002033 0xfe00707f
    ∷ insn "sh1add_uw" 0x2000203b 0xfe00707f
    ∷ insn "sh2add" 0x20004033 0xfe00707f
    ∷ insn "sh2add_uw" 0x2000403b 0xfe00707f
    ∷ insn "sh3add" 0x20006033 0xfe00707f
    ∷ insn "sh3add_uw" 0x2000603b 0xfe00707f
    ∷ insn "sha256sig0" 0x10201013 0xfff0707f
    ∷ insn "sha256sig1" 0x10301013 0xfff0707f
    ∷ insn "sha256sum0" 0x10001013 0xfff0707f
    ∷ insn "sha256sum1" 0x10101013 0xfff0707f
    ∷ insn "sha512sig0" 0x10601013 0xfff0707f
    ∷ insn "sha512sig0h" 0x5c000033 0xfe00707f
    ∷ insn "sha512sig0l" 0x54000033 0xfe00707f
    ∷ insn "sha512sig1" 0x10701013 0xfff0707f
    ∷ insn "sha512sig1h" 0x5e000033 0xfe00707f
    ∷ insn "sha512sig1l" 0x56000033 0xfe00707f
    ∷ insn "sha512sum0" 0x10401013 0xfff0707f
    ∷ insn "sha512sum0r" 0x50000033 0xfe00707f
    ∷ insn "sha512sum1" 0x10501013 0xfff0707f
    ∷ insn "sha512sum1r" 0x52000033 0xfe00707f
    ∷ insn "shfl" 0x8001033 0xfe00707f
    ∷ insn "shfli" 0x8001013 0xfe00707f
    ∷ insn "shflw" 0x800103b 0xfe00707f
    ∷ insn "sinval_vma" 0x16000073 0xfe007fff
    ∷ insn "sll" 0x1033 0xfe00707f
    ∷ insn "sll16" 0x54000077 0xfe00707f
    ∷ insn "sll32" 0x54002077 0xfe00707f
    ∷ insn "sll8" 0x5c000077 0xfe00707f
    ∷ insn "slli" 0x1013 0xfc00707f
    ∷ insn "slli16" 0x74000077 0xff00707f
    ∷ insn "slli32" 0x74002077 0xfe00707f
    ∷ insn "slli8" 0x7c000077 0xff80707f
    ∷ insn "slli_rv32" 0x1013 0xfe00707f
    ∷ insn "slli_uw" 0x800101b 0xfc00707f
    ∷ insn "slliw" 0x101b 0xfe00707f
    ∷ insn "sllw" 0x103b 0xfe00707f
    ∷ insn "slo" 0x20001033 0xfe00707f
    ∷ insn "sloi" 0x20001013 0xfc00707f
    ∷ insn "sloiw" 0x2000101b 0xfe00707f
    ∷ insn "slow" 0x2000103b 0xfe00707f
    ∷ insn "slt" 0x2033 0xfe00707f
    ∷ insn "slti" 0x2013 0x707f
    ∷ insn "sltiu" 0x3013 0x707f
    ∷ insn "sltu" 0x3033 0xfe00707f
    ∷ insn "sm3p0" 0x10801013 0xfff0707f
    ∷ insn "sm3p1" 0x10901013 0xfff0707f
    ∷ insn "sm4ed" 0x30000033 0x3e00707f
    ∷ insn "sm4ks" 0x34000033 0x3e00707f
    ∷ insn "smal" 0x5e001077 0xfe00707f
    ∷ insn "smalbb" 0x88001077 0xfe00707f
    ∷ insn "smalbt" 0x98001077 0xfe00707f
    ∷ insn "smalda" 0x8c001077 0xfe00707f
    ∷ insn "smaldrs" 0x9a001077 0xfe00707f
    ∷ insn "smalds" 0x8a001077 0xfe00707f
    ∷ insn "smaltt" 0xa8001077 0xfe00707f
    ∷ insn "smalxda" 0x9c001077 0xfe00707f
    ∷ insn "smalxds" 0xaa001077 0xfe00707f
    ∷ insn "smaqa" 0xc8000077 0xfe00707f
    ∷ insn "smaqa_su" 0xca000077 0xfe00707f
    ∷ insn "smar64" 0x84001077 0xfe00707f
    ∷ insn "smax16" 0x82000077 0xfe00707f
    ∷ insn "smax32" 0x92002077 0xfe00707f
    ∷ []
