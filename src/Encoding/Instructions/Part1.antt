-- ===== src/Encoding/Instructions/Part1.antt =====
-- riscv-tests/env/encoding.h: MATCH and MASK from ADD to C_BEQZ.
use tartaruga.Base.{List, [], ◌∷◌}
use tartaruga.Encoding.{Pattern, insn}

abbrev pub patterns_1 : List Pattern
patterns_1 =
    insn "add" 0x33 0xfe00707f
    ∷ insn "add16" 0x40000077 0xfe00707f
    ∷ insn "add32" 0x40002077 0xfe00707f
    ∷ insn "add64" 0xc0001077 0xfe00707f
    ∷ insn "add8" 0x48000077 0xfe00707f
    ∷ insn "add_uw" 0x800003b 0xfe00707f
    ∷ insn "addi" 0x13 0x707f
    ∷ insn "addiw" 0x1b 0x707f
    ∷ insn "addw" 0x3b 0xfe00707f
    ∷ insn "aes32dsi" 0x2a000033 0x3e00707f
    ∷ insn "aes32dsmi" 0x2e000033 0x3e00707f
    ∷ insn "aes32esi" 0x22000033 0x3e00707f
    ∷ insn "aes32esmi" 0x26000033 0x3e00707f
    ∷ insn "aes64ds" 0x3a000033 0xfe00707f
    ∷ insn "aes64dsm" 0x3e000033 0xfe00707f
    ∷ insn "aes64es" 0x32000033 0xfe00707f
    ∷ insn "aes64esm" 0x36000033 0xfe00707f
    ∷ insn "aes64im" 0x30001013 0xfff0707f
    ∷ insn "aes64ks1i" 0x31001013 0xff00707f
    ∷ insn "aes64ks2" 0x7e000033 0xfe00707f
    ∷ insn "amoadd_d" 0x302f 0xf800707f
    ∷ insn "amoadd_w" 0x202f 0xf800707f
    ∷ insn "amoand_d" 0x6000302f 0xf800707f
    ∷ insn "amoand_w" 0x6000202f 0xf800707f
    ∷ insn "amomax_d" 0xa000302f 0xf800707f
    ∷ insn "amomax_w" 0xa000202f 0xf800707f
    ∷ insn "amomaxu_d" 0xe000302f 0xf800707f
    ∷ insn "amomaxu_w" 0xe000202f 0xf800707f
    ∷ insn "amomin_d" 0x8000302f 0xf800707f
    ∷ insn "amomin_w" 0x8000202f 0xf800707f
    ∷ insn "amominu_d" 0xc000302f 0xf800707f
    ∷ insn "amominu_w" 0xc000202f 0xf800707f
    ∷ insn "amoor_d" 0x4000302f 0xf800707f
    ∷ insn "amoor_w" 0x4000202f 0xf800707f
    ∷ insn "amoswap_d" 0x800302f 0xf800707f
    ∷ insn "amoswap_w" 0x800202f 0xf800707f
    ∷ insn "amoxor_d" 0x2000302f 0xf800707f
    ∷ insn "amoxor_w" 0x2000202f 0xf800707f
    ∷ insn "and" 0x7033 0xfe00707f
    ∷ insn "andi" 0x7013 0x707f
    ∷ insn "andn" 0x40007033 0xfe00707f
    ∷ insn "auipc" 0x17 0x7f
    ∷ insn "ave" 0xe0000077 0xfe00707f
    ∷ insn "bclr" 0x48001033 0xfe00707f
    ∷ insn "bclri" 0x48001013 0xfc00707f
    ∷ insn "bcompress" 0x8006033 0xfe00707f
    ∷ insn "bcompressw" 0x800603b 0xfe00707f
    ∷ insn "bdecompress" 0x48006033 0xfe00707f
    ∷ insn "bdecompressw" 0x4800603b 0xfe00707f
    ∷ insn "beq" 0x63 0x707f
    ∷ insn "bext" 0x48005033 0xfe00707f
    ∷ insn "bexti" 0x48005013 0xfc00707f
    ∷ insn "bfp" 0x48007033 0xfe00707f
    ∷ insn "bfpw" 0x4800703b 0xfe00707f
    ∷ insn "bge" 0x5063 0x707f
    ∷ insn "bgeu" 0x7063 0x707f
    ∷ insn "binv" 0x68001033 0xfe00707f
    ∷ insn "binvi" 0x68001013 0xfc00707f
    ∷ insn "blt" 0x4063 0x707f
    ∷ insn "bltu" 0x6063 0x707f
    ∷ insn "bmatflip" 0x60301013 0xfff0707f
    ∷ insn "bmator" 0x8003033 0xfe00707f
    ∷ insn "bmatxor" 0x48003033 0xfe00707f
    ∷ insn "bne" 0x1063 0x707f
    ∷ insn "bset" 0x28001033 0xfe00707f
    ∷ insn "bseti" 0x28001013 0xfc00707f
    ∷ insn "c_add" 0x9002 0xf003
    ∷ insn "c_addi" 0x1 0xe003
    ∷ insn "c_addi16sp" 0x6101 0xef83
    ∷ insn "c_addi4spn" 0x0 0xe003
    ∷ insn "c_addiw" 0x2001 0xe003
    ∷ insn "c_addw" 0x9c21 0xfc63
    ∷ insn "c_and" 0x8c61 0xfc63
    ∷ insn "c_andi" 0x8801 0xec03
    ∷ insn "c_beqz" 0xc001 0xe003
    ∷ []
