-- ===== src/Decode.antt =====
-- rtl/datapath/decode/decoder.sv and immediate.sv. Every path of the combinational blocks assigns
-- every field, so the values that the fields have before are of no account.
pub mod Encode
pub mod Laws
pub mod Slot
use tartaruga.Base.{
  ◌^◌, ◌-◌, ◌/◌, ◌%◌, ℕ, Bool, true, false, ◌+◌, ◌*◌, ◌==◌, if◌then◌else◌, bits, ◌&&◌, ◌||◌, not,
}
use tartaruga.Pkg.{InstrData, nop_instr_data, exe_stages_mult, Opcode, opcode_of}
use tartaruga.Pkg.{
  op_lw, op_alu_i, op_auipc, op_sw, op_alu, op_lui, op_branch, op_jal, op_jalr, op_other,
}
use tartaruga.Pkg.{AluOp, add, sub, slt, sltu, sll, srl, sra, xor, or, and, rs1, pc, rs2, imm}
use tartaruga.Pkg.{JumpKind, jump, bne, beq, blt, bltu, bge, bgeu, bnone, alu, mem, pc_4}
use tartaruga.Pkg.{Rs1OrPc, Rs2OrImm}

-- The fields of `rtype_t`.
abbrev pub opcode_field : ℕ → ℕ
opcode_field i = bits i 0 7

abbrev pub rd_field : ℕ → ℕ
rd_field i = bits i 7 5

abbrev pub func3_field : ℕ → ℕ
func3_field i = bits i 12 3

abbrev pub rs1_field : ℕ → ℕ
rs1_field i = bits i 15 5

abbrev pub rs2_field : ℕ → ℕ
rs2_field i = bits i 20 5

abbrev pub func7_field : ℕ → ℕ
func7_field i = bits i 25 7

-- f7_alu_modifier_t
abbrev pub f7_alu_normal : ℕ
f7_alu_normal = 0

abbrev pub f7_mul : ℕ
f7_mul = 1

abbrev pub f7_alu_modified : ℕ
f7_alu_modified = 0x20

-- The assignments before the `case`.
decode_defaults : ℕ → ℕ → ℕ → ℕ → InstrData
decode_defaults pc_i instr_i rob_idx_i id_i = record nop_instr_data {
  pc_of = pc_i;
  instr = instr_i;
  addr_rs1 = rs1_field instr_i;
  addr_rs2 = rs2_field instr_i;
  addr_rd = rd_field instr_i;
  exe_stages = 1;
  is_mul = false;
  rob_idx = rob_idx_i;
  kanata_id = id_i;
}

-- The illegal instruction: a NOP that adds x0 to x0 and writes nothing.
illegal : InstrData → InstrData
illegal d = record d {
  write_enable = false;
  rs1_or_pc = rs1;
  rs2_or_imm = rs2;
  addr_rs1 = 0;
  addr_rs2 = 0;
  addr_rd = 0;
  alu_op = add;
  wb_origin = alu;
  store_to_mem = false;
}

-- A case of `func7` with one legal value, F7_ALU_NORMAL.
normal_only : AluOp → ℕ → InstrData → InstrData
unfolding illegal
normal_only op f7 d = if f7 == f7_alu_normal then record d { alu_op = op } else illegal d

-- SRL and SRA, selected by `func7`.
right_shift : ℕ → InstrData → InstrData
unfolding illegal
right_shift f7 d =
    if f7 == f7_alu_normal
    then record d { alu_op = srl }
    else if f7 == f7_alu_modified
    then record d { alu_op = sra }
    else illegal d

decode_alu_i : ℕ → InstrData → InstrData
unfolding normal_only right_shift
decode_alu_i instr_i d0 =
    let d : InstrData = record d0 {
      write_enable = true;
      rs1_or_pc = rs1;
      rs2_or_imm = imm;
      wb_origin = alu;
      store_to_mem = false;
      jump_kind = bnone;
    } in
    let f3 = func3_field instr_i in
    let f7 = func7_field instr_i in
    if f3 == 0
    then record d { alu_op = add }
    else if f3 == 2
    then record d { alu_op = slt }
    else if f3 == 3
    then record d { alu_op = sltu }
    else if f3 == 4
    then record d { alu_op = xor }
    else if f3 == 6
    then record d { alu_op = or }
    else if f3 == 7
    then record d { alu_op = and }
    else if f3 == 1
    then normal_only sll f7 d
    else right_shift f7 d

decode_add_sub_mul : ℕ → InstrData → InstrData
unfolding illegal
decode_add_sub_mul f7 d =
    if f7 == f7_alu_normal
    then record d { alu_op = add }
    else if f7 == f7_alu_modified
    then record d { alu_op = sub }
    else if f7 == f7_mul
    then record d { alu_op = add; is_mul = true; exe_stages = exe_stages_mult }
    else illegal d

decode_alu : ℕ → InstrData → InstrData
unfolding normal_only right_shift decode_add_sub_mul
decode_alu instr_i d0 =
    let d : InstrData = record d0 {
      write_enable = true;
      rs1_or_pc = rs1;
      rs2_or_imm = rs2;
      wb_origin = alu;
      store_to_mem = false;
      jump_kind = bnone;
    } in
    let f3 = func3_field instr_i in
    let f7 = func7_field instr_i in
    if f3 == 0
    then decode_add_sub_mul f7 d
    else if f3 == 1
    then normal_only sll f7 d
    else if f3 == 2
    then normal_only slt f7 d
    else if f3 == 3
    then normal_only sltu f7 d
    else if f3 == 4
    then normal_only xor f7 d
    else if f3 == 5
    then right_shift f7 d
    else if f3 == 6
    then normal_only or f7 d
    else normal_only and f7 d

decode_branch_kind : ℕ → JumpKind
decode_branch_kind f3 =
    if f3 == 0
    then beq
    else if f3 == 1
    then bne
    else if f3 == 4
    then blt
    else if f3 == 6
    then bltu
    else if f3 == 5
    then bge
    else if f3 == 7
    then bgeu
    else bnone

-- The `case` of the opcode.
decode_case : Opcode → ℕ → InstrData → InstrData
unfolding illegal decode_alu_i decode_alu decode_branch_kind
decode_case op_alu_i i d = decode_alu_i i d
decode_case op_alu i d = decode_alu i d
decode_case op_lui i d = record d {
  write_enable = true;
  rs1_or_pc = rs1;
  rs2_or_imm = imm;
  alu_op = add;
  wb_origin = alu;
  store_to_mem = false;
  jump_kind = bnone;
  addr_rs1 = 0;
}
decode_case op_auipc i d = record d {
  write_enable = true;
  rs1_or_pc = pc;
  rs2_or_imm = imm;
  alu_op = add;
  wb_origin = alu;
  store_to_mem = false;
  jump_kind = bnone;
}
decode_case op_lw i d = record d {
  write_enable = true;
  rs1_or_pc = rs1;
  rs2_or_imm = imm;
  alu_op = add;
  wb_origin = mem;
  store_to_mem = false;
  jump_kind = bnone;
}
decode_case op_sw i d = record d {
  write_enable = false;
  rs1_or_pc = rs1;
  rs2_or_imm = imm;
  alu_op = add;
  wb_origin = alu;
  store_to_mem = true;
  jump_kind = bnone;
}
decode_case op_branch i d = record d {
  write_enable = false;
  rs1_or_pc = pc;
  rs2_or_imm = imm;
  alu_op = add;
  wb_origin = alu;
  store_to_mem = false;
  jump_kind = decode_branch_kind (func3_field i);
}
decode_case op_jal i d = record d {
  write_enable = true;
  rs1_or_pc = pc;
  rs2_or_imm = imm;
  alu_op = add;
  wb_origin = pc_4;
  store_to_mem = false;
  jump_kind = jump;
}
decode_case op_jalr i d = record d {
  write_enable = true;
  rs1_or_pc = rs1;
  rs2_or_imm = imm;
  alu_op = add;
  wb_origin = pc_4;
  store_to_mem = false;
  jump_kind = jump;
}
decode_case op_other i d = record (illegal d) { jump_kind = bnone }

abbrev pub is_pc : Rs1OrPc → Bool
is_pc rs1 = false
is_pc pc = true

abbrev pub is_imm : Rs2OrImm → Bool
is_imm rs2 = false
is_imm imm = true

abbrev pub is_bnone : JumpKind → Bool
is_bnone bnone = true
is_bnone _ = false

abbrev pub is_jal : Opcode → Bool
is_jal op_jal = true
is_jal _ = false

-- The source registers that are not read become x0, for the hazard detection.
hardwire_sources : Opcode → InstrData → InstrData
hardwire_sources op d = record d {
  addr_rs1 = if is_pc d.rs1_or_pc && is_bnone d.jump_kind || is_jal op then 0 else d.addr_rs1;
  addr_rs2 =
      if is_imm d.rs2_or_imm && is_bnone d.jump_kind && not d.store_to_mem || is_jal op
      then 0
      else d.addr_rs2;
}

unfoldable pub decode : ℕ → ℕ → ℕ → ℕ → InstrData
unfolding decode_defaults decode_case hardwire_sources
decode pc_i instr_i rob_idx_i id_i =
    let op = opcode_of (opcode_field instr_i) in
    hardwire_sources op (decode_case op instr_i (decode_defaults pc_i instr_i rob_idx_i id_i))

-- `{n{b}}`: n copies of a bit.
abbrev pub replicate_bit : ℕ → ℕ → ℕ
replicate_bit n b = b * (2 ^ n - 1)

immediate_case : Opcode → ℕ → ℕ
immediate_case op_lui i = bits i 12 20 * 2 ^ 12
immediate_case op_auipc i = bits i 12 20 * 2 ^ 12
immediate_case op_alu_i i = replicate_bit 20 (bits i 31 1) * 2 ^ 12 + bits i 20 12
immediate_case op_lw i = replicate_bit 20 (bits i 31 1) * 2 ^ 12 + bits i 20 12
immediate_case op_jalr i = replicate_bit 20 (bits i 31 1) * 2 ^ 12 + bits i 20 12
immediate_case op_sw i = replicate_bit 20 (bits i 31 1) * 2 ^ 12 + bits i 25 7 * 2 ^ 5 + bits i 7 5
immediate_case op_branch i =
    replicate_bit 20 (bits i 7 1) * 2 ^ 12
    + bits i 7 1 * 2 ^ 11
    + bits i 25 6 * 2 ^ 5
    + bits i 8 4 * 2
immediate_case op_jal i =
    replicate_bit 11 (bits i 31 1) * 2 ^ 21
    + bits i 31 1 * 2 ^ 20
    + bits i 12 8 * 2 ^ 12
    + bits i 20 1 * 2 ^ 11
    + bits i 21 10 * 2
immediate_case op_alu i = 0
immediate_case op_other i = 0

-- The `case` of the opcode of the instruction.
unfoldable pub immediate_word : ℕ → ℕ
unfolding immediate_case
immediate_word i = immediate_case (opcode_of (opcode_field i)) i

unfoldable pub immediate : InstrData → ℕ
immediate d = immediate_word d.instr
