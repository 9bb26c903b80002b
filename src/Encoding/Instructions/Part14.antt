-- ===== src/Encoding/Instructions/Part14.antt =====
-- riscv-tests/env/encoding.h: MATCH and MASK from VMERGE_VIM to VNMSAC_VX.
use tartaruga.Base.{List, [], ◌∷◌}
use tartaruga.Encoding.{Pattern, insn}

abbrev pub patterns_14 : List Pattern
patterns_14 =
    insn "vmerge_vim" 0x5c003057 0xfe00707f
    ∷ insn "vmerge_vvm" 0x5c000057 0xfe00707f
    ∷ insn "vmerge_vxm" 0x5c004057 0xfe00707f
    ∷ insn "vmfeq_vf" 0x60005057 0xfc00707f
    ∷ insn "vmfeq_vv" 0x60001057 0xfc00707f
    ∷ insn "vmfge_vf" 0x7c005057 0xfc00707f
    ∷ insn "vmfgt_vf" 0x74005057 0xfc00707f
    ∷ insn "vmfle_vf" 0x64005057 0xfc00707f
    ∷ insn "vmfle_vv" 0x64001057 0xfc00707f
    ∷ insn "vmflt_vf" 0x6c005057 0xfc00707f
    ∷ insn "vmflt_vv" 0x6c001057 0xfc00707f
    ∷ insn "vmfne_vf" 0x70005057 0xfc00707f
    ∷ insn "vmfne_vv" 0x70001057 0xfc00707f
    ∷ insn "vmin_vv" 0x14000057 0xfc00707f
    ∷ insn "vmin_vx" 0x14004057 0xfc00707f
    ∷ insn "vminu_vv" 0x10000057 0xfc00707f
    ∷ insn "vminu_vx" 0x10004057 0xfc00707f
    ∷ insn "vmnand_mm" 0x74002057 0xfc00707f
    ∷ insn "vmnor_mm" 0x78002057 0xfc00707f
    ∷ insn "vmor_mm" 0x68002057 0xfc00707f
    ∷ insn "vmorn_mm" 0x70002057 0xfc00707f
    ∷ insn "vmsbc_vv" 0x4e000057 0xfe00707f
    ∷ insn "vmsbc_vvm" 0x4c000057 0xfe00707f
    ∷ insn "vmsbc_vx" 0x4e004057 0xfe00707f
    ∷ insn "vmsbc_vxm" 0x4c004057 0xfe00707f
    ∷ insn "vmsbf_m" 0x5000a057 0xfc0ff07f
    ∷ insn "vmseq_vi" 0x60003057 0xfc00707f
    ∷ insn "vmseq_vv" 0x60000057 0xfc00707f
    ∷ insn "vmseq_vx" 0x60004057 0xfc00707f
    ∷ insn "vmsgt_vi" 0x7c003057 0xfc00707f
    ∷ insn "vmsgt_vx" 0x7c004057 0xfc00707f
    ∷ insn "vmsgtu_vi" 0x78003057 0xfc00707f
    ∷ insn "vmsgtu_vx" 0x78004057 0xfc00707f
    ∷ insn "vmsif_m" 0x5001a057 0xfc0ff07f
    ∷ insn "vmsle_vi" 0x74003057 0xfc00707f
    ∷ insn "vmsle_vv" 0x74000057 0xfc00707f
    ∷ insn "vmsle_vx" 0x74004057 0xfc00707f
    ∷ insn "vmsleu_vi" 0x70003057 0xfc00707f
    ∷ insn "vmsleu_vv" 0x70000057 0xfc00707f
    ∷ insn "vmsleu_vx" 0x70004057 0xfc00707f
    ∷ insn "vmslt_vv" 0x6c000057 0xfc00707f
    ∷ insn "vmslt_vx" 0x6c004057 0xfc00707f
    ∷ insn "vmsltu_vv" 0x68000057 0xfc00707f
    ∷ insn "vmsltu_vx" 0x68004057 0xfc00707f
    ∷ insn "vmsne_vi" 0x64003057 0xfc00707f
    ∷ insn "vmsne_vv" 0x64000057 0xfc00707f
    ∷ insn "vmsne_vx" 0x64004057 0xfc00707f
    ∷ insn "vmsof_m" 0x50012057 0xfc0ff07f
    ∷ insn "vmul_vv" 0x94002057 0xfc00707f
    ∷ insn "vmul_vx" 0x94006057 0xfc00707f
    ∷ insn "vmulh_vv" 0x9c002057 0xfc00707f
    ∷ insn "vmulh_vx" 0x9c006057 0xfc00707f
    ∷ insn "vmulhsu_vv" 0x98002057 0xfc00707f
    ∷ insn "vmulhsu_vx" 0x98006057 0xfc00707f
    ∷ insn "vmulhu_vv" 0x90002057 0xfc00707f
    ∷ insn "vmulhu_vx" 0x90006057 0xfc00707f
    ∷ insn "vmv1r_v" 0x9e003057 0xfe0ff07f
    ∷ insn "vmv2r_v" 0x9e00b057 0xfe0ff07f
    ∷ insn "vmv4r_v" 0x9e01b057 0xfe0ff07f
    ∷ insn "vmv8r_v" 0x9e03b057 0xfe0ff07f
    ∷ insn "vmv_s_x" 0x42006057 0xfff0707f
    ∷ insn "vmv_v_i" 0x5e003057 0xfff0707f
    ∷ insn "vmv_v_v" 0x5e000057 0xfff0707f
    ∷ insn "vmv_v_x" 0x5e004057 0xfff0707f
    ∷ insn "vmv_x_s" 0x42002057 0xfe0ff07f
    ∷ insn "vmxnor_mm" 0x7c002057 0xfc00707f
    ∷ insn "vmxor_mm" 0x6c002057 0xfc00707f
    ∷ insn "vnclip_wi" 0xbc003057 0xfc00707f
    ∷ insn "vnclip_wv" 0xbc000057 0xfc00707f
    ∷ insn "vnclip_wx" 0xbc004057 0xfc00707f
    ∷ insn "vnclipu_wi" 0xb8003057 0xfc00707f
    ∷ insn "vnclipu_wv" 0xb8000057 0xfc00707f
    ∷ insn "vnclipu_wx" 0xb8004057 0xfc00707f
    ∷ insn "vnmsac_vv" 0xbc002057 0xfc00707f
    ∷ insn "vnmsac_vx" 0xbc006057 0xfc00707f
    ∷ []
