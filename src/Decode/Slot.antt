-- ===== src/Decode/Slot.antt =====
-- rtl/datapath/decode/decoder.sv: the slot of the reorder buffer goes through the decoder.
use tartaruga.Base.{ℕ, ◌≡◌, refl, arith}
use tartaruga.Pkg.{
  InstrData, AluOp, Opcode, opcode_of, op_lw, op_alu_i, op_auipc, op_sw, op_alu, op_lui, op_branch,
  op_jal, op_jalr, op_other,
}
use tartaruga.Decode.{
  decode, decode_case, decode_defaults, decode_alu, decode_alu_i, decode_add_sub_mul, normal_only,
  right_shift, illegal, hardwire_sources, opcode_field,
}

abbrev IsFor : ℕ → InstrData → Type 0
IsFor r d = d.rob_idx ≡ r

normal_only-IsFor :
    {r : ℕ} (op : AluOp) (f7 : ℕ) (d : InstrData) → IsFor r d → IsFor r (normal_only op f7 d)
unfolding normal_only illegal
normal_only-IsFor op f7 d h = ground (arith, h)

right_shift-IsFor : {r : ℕ} (f7 : ℕ) (d : InstrData) → IsFor r d → IsFor r (right_shift f7 d)
unfolding right_shift illegal
right_shift-IsFor f7 d h = ground (arith, h)

add_sub_mul-IsFor : {r : ℕ} (f7 : ℕ) (d : InstrData) → IsFor r d → IsFor r (decode_add_sub_mul f7 d)
unfolding decode_add_sub_mul illegal
add_sub_mul-IsFor f7 d h = ground (arith, h)

alu_i-IsFor : {r : ℕ} (i : ℕ) (d : InstrData) → IsFor r d → IsFor r (decode_alu_i i d)
unfolding decode_alu_i normal_only right_shift illegal
alu_i-IsFor i d h = ground (arith, h)

alu-IsFor : {r : ℕ} (i : ℕ) (d : InstrData) → IsFor r d → IsFor r (decode_alu i d)
unfolding decode_alu decode_add_sub_mul normal_only right_shift illegal
alu-IsFor i d h = ground (arith, h)

case-IsFor :
    {r : ℕ} (op : Opcode) (i : ℕ) (d : InstrData) → IsFor r d → IsFor r (decode_case op i d)
unfolding decode_case illegal
case-IsFor op_lw i d h = h
case-IsFor op_alu_i i d h = alu_i-IsFor i d h
case-IsFor op_auipc i d h = h
case-IsFor op_sw i d h = h
case-IsFor op_alu i d h = alu-IsFor i d h
case-IsFor op_lui i d h = h
case-IsFor op_branch i d h = h
case-IsFor op_jal i d h = h
case-IsFor op_jalr i d h = h
case-IsFor op_other i d h = h

pub decode-rob_idx : (pc i r id : ℕ) → (decode pc i r id).rob_idx ≡ r
unfolding decode hardwire_sources decode_defaults
decode-rob_idx pc i r id =
    case-IsFor (opcode_of (opcode_field i)) i (decode_defaults pc i r id) refl
