-- ===== src/Encoding/Words.antt =====
-- riscv-tests/env/encoding.h: which words are instances of the base patterns.
use mathlib.Core.Option.{some-injective}
use tartaruga.Base.{some, ap, sym, ◌∙◌, ◌↔◌}
use tartaruga.Encoding.{Pattern, find}
use tartaruga.Encoding.Instructions.{instructions}
use tartaruga.Encoding.Kinds.{name_of, find-pattern_of}
use tartaruga.Base.{ℕ, true, ◌+◌, ◌*◌, ◌/◌, ◌%◌, ◌<◌, ◌≡◌, ◌==◌, arith, word_mod, refl}
use tartaruga.Pkg.{add, sub, slt, sltu, sll, srl, sra, xor, or, and}
use tartaruga.Decode.Encode.{
  Instr, op, mul, op_imm, shift_imm, lui, auipc, lw, sw, branch, jal, jalr, addi, slti, sltiu, xori,
  ori, andi, slli, srli, srai, eq, ne, lt, ge, lt_u, ge_u, encode, IsEncodable,
}
use tartaruga.Encoding.{matches}
use tartaruga.Masks.{mask_opcode, mask_func3, mask_func7}
use tartaruga.Encoding.Kinds.{
  Kind, k_op, k_mul, k_lui, k_auipc, k_lw, k_sw, k_jal, k_jalr, k_op_imm, k_shift_imm, k_branch,
  kind_of, pattern_of,
}

-- The instruction of a kind whose fields are those of a word.
unfoldable pub instr_of : Kind → ℕ → Instr
instr_of (k_op o) w = op o (w / 128 % 32) (w / 0x8000 % 32) (w / 0x100000 % 32)
instr_of k_mul w = mul (w / 128 % 32) (w / 0x8000 % 32) (w / 0x100000 % 32)
instr_of (k_op_imm o) w = op_imm o (w / 128 % 32) (w / 0x8000 % 32) (w / 0x100000)
instr_of (k_shift_imm o) w = shift_imm o (w / 128 % 32) (w / 0x8000 % 32) (w / 0x100000 % 32)
instr_of k_lui w = lui (w / 128 % 32) (w / 4096)
instr_of k_auipc w = auipc (w / 128 % 32) (w / 4096)
instr_of k_lw w = lw (w / 128 % 32) (w / 0x8000 % 32) (w / 0x100000)
instr_of k_sw w = sw (w / 0x8000 % 32) (w / 0x100000 % 32) (w / 0x2000000 * 32 + w / 128 % 32)
instr_of (k_branch c) w =
    branch c (w / 0x8000 % 32) (w / 0x100000 % 32)
      (w / 0x8000_0000 * 2048 + w / 128 % 2 * 1024 + w / 0x2000000 % 64 * 16 + w / 256 % 16)
instr_of k_jal w = jal (w / 128 % 32) (
    w / 0x8000_0000 * 0x80000
    + w / 4096 % 256 * 2048
    + w / 0x100000 % 2 * 1024
    + w / 0x200000 % 1024)
instr_of k_jalr w = jalr (w / 128 % 32) (w / 0x8000 % 32) (w / 0x100000)

instr_of-kind : (k : Kind) (w : ℕ) → kind_of (instr_of k w) ≡ k
unfolding instr_of
instr_of-kind (k_op o) w = refl
instr_of-kind k_mul w = refl
instr_of-kind (k_op_imm o) w = refl
instr_of-kind (k_shift_imm o) w = refl
instr_of-kind k_lui w = refl
instr_of-kind k_auipc w = refl
instr_of-kind k_lw w = refl
instr_of-kind k_sw w = refl
instr_of-kind (k_branch c) w = refl
instr_of-kind k_jal w = refl
instr_of-kind k_jalr w = refl

pub instr_of-IsEncodable : (k : Kind) (w : ℕ) → w < word_mod → IsEncodable (instr_of k w)
unfolding instr_of
instr_of-IsEncodable (k_op o) w h = (omega arith, omega arith, omega arith)
instr_of-IsEncodable k_mul w h = (omega arith, omega arith, omega arith)
instr_of-IsEncodable (k_op_imm o) w h = (omega arith, omega arith, omega arith)
instr_of-IsEncodable (k_shift_imm o) w h = (omega arith, omega arith, omega arith)
instr_of-IsEncodable k_lui w h = (omega arith, omega arith)
instr_of-IsEncodable k_auipc w h = (omega arith, omega arith)
instr_of-IsEncodable k_lw w h = (omega arith, omega arith, omega arith)
instr_of-IsEncodable k_sw w h = (omega arith, omega arith, omega arith)
instr_of-IsEncodable (k_branch c) w h = (omega arith, omega arith, omega arith)
instr_of-IsEncodable k_jal w h = (omega arith, omega arith)
instr_of-IsEncodable k_jalr w h = (omega arith, omega arith, omega arith)

same : (a b : ℕ) → (a == b) ≡ true → a ≡ b
same a b h = ground arith

pub encode-instr_of :
    (k : Kind) (w : ℕ) → w < word_mod → matches (pattern_of k) w ≡ true → encode (instr_of k w) ≡ w
unfolding encode instr_of matches
encode-instr_of (k_op add) w h m = omega (arith, same _ _ m, mask_func7 w)
encode-instr_of (k_op sub) w h m = omega (arith, same _ _ m, mask_func7 w)
encode-instr_of (k_op slt) w h m = omega (arith, same _ _ m, mask_func7 w)
encode-instr_of (k_op sltu) w h m = omega (arith, same _ _ m, mask_func7 w)
encode-instr_of (k_op sll) w h m = omega (arith, same _ _ m, mask_func7 w)
encode-instr_of (k_op srl) w h m = omega (arith, same _ _ m, mask_func7 w)
encode-instr_of (k_op sra) w h m = omega (arith, same _ _ m, mask_func7 w)
encode-instr_of (k_op xor) w h m = omega (arith, same _ _ m, mask_func7 w)
encode-instr_of (k_op or) w h m = omega (arith, same _ _ m, mask_func7 w)
encode-instr_of (k_op and) w h m = omega (arith, same _ _ m, mask_func7 w)
encode-instr_of k_mul w h m = omega (arith, same _ _ m, mask_func7 w)
encode-instr_of (k_op_imm addi) w h m = omega (arith, same _ _ m, mask_func3 w)
encode-instr_of (k_op_imm slti) w h m = omega (arith, same _ _ m, mask_func3 w)
encode-instr_of (k_op_imm sltiu) w h m = omega (arith, same _ _ m, mask_func3 w)
encode-instr_of (k_op_imm xori) w h m = omega (arith, same _ _ m, mask_func3 w)
encode-instr_of (k_op_imm ori) w h m = omega (arith, same _ _ m, mask_func3 w)
encode-instr_of (k_op_imm andi) w h m = omega (arith, same _ _ m, mask_func3 w)
encode-instr_of (k_shift_imm slli) w h m = omega (arith, same _ _ m, mask_func7 w)
encode-instr_of (k_shift_imm srli) w h m = omega (arith, same _ _ m, mask_func7 w)
encode-instr_of (k_shift_imm srai) w h m = omega (arith, same _ _ m, mask_func7 w)
encode-instr_of k_lui w h m = omega (arith, same _ _ m, mask_opcode w)
encode-instr_of k_auipc w h m = omega (arith, same _ _ m, mask_opcode w)
encode-instr_of k_lw w h m = omega (arith, same _ _ m, mask_func3 w)
encode-instr_of k_sw w h m = omega (arith, same _ _ m, mask_func3 w)
encode-instr_of (k_branch eq) w h m = omega (arith, same _ _ m, mask_func3 w)
encode-instr_of (k_branch ne) w h m = omega (arith, same _ _ m, mask_func3 w)
encode-instr_of (k_branch lt) w h m = omega (arith, same _ _ m, mask_func3 w)
encode-instr_of (k_branch ge) w h m = omega (arith, same _ _ m, mask_func3 w)
encode-instr_of (k_branch lt_u) w h m = omega (arith, same _ _ m, mask_func3 w)
encode-instr_of (k_branch ge_u) w h m = omega (arith, same _ _ m, mask_func3 w)
encode-instr_of k_jal w h m = omega (arith, same _ _ m, mask_opcode w)
encode-instr_of k_jalr w h m = omega (arith, same _ _ m, mask_func3 w)

agrees : (a b : ℕ) → a ≡ b → (a == b) ≡ true
agrees a b h = ground arith

matches-encode : (x : Instr) → IsEncodable x → matches (pattern_of (kind_of x)) (encode x) ≡ true
unfolding encode matches
matches-encode (op add rd rs1 rs2) h =
    agrees _ _ (omega (arith, h, mask_func7 (encode (op add rd rs1 rs2))))
matches-encode (op sub rd rs1 rs2) h =
    agrees _ _ (omega (arith, h, mask_func7 (encode (op sub rd rs1 rs2))))
matches-encode (op slt rd rs1 rs2) h =
    agrees _ _ (omega (arith, h, mask_func7 (encode (op slt rd rs1 rs2))))
matches-encode (op sltu rd rs1 rs2) h =
    agrees _ _ (omega (arith, h, mask_func7 (encode (op sltu rd rs1 rs2))))
matches-encode (op sll rd rs1 rs2) h =
    agrees _ _ (omega (arith, h, mask_func7 (encode (op sll rd rs1 rs2))))
matches-encode (op srl rd rs1 rs2) h =
    agrees _ _ (omega (arith, h, mask_func7 (encode (op srl rd rs1 rs2))))
matches-encode (op sra rd rs1 rs2) h =
    agrees _ _ (omega (arith, h, mask_func7 (encode (op sra rd rs1 rs2))))
matches-encode (op xor rd rs1 rs2) h =
    agrees _ _ (omega (arith, h, mask_func7 (encode (op xor rd rs1 rs2))))
matches-encode (op or rd rs1 rs2) h =
    agrees _ _ (omega (arith, h, mask_func7 (encode (op or rd rs1 rs2))))
matches-encode (op and rd rs1 rs2) h =
    agrees _ _ (omega (arith, h, mask_func7 (encode (op and rd rs1 rs2))))
matches-encode (mul rd rs1 rs2) h =
    agrees _ _ (omega (arith, h, mask_func7 (encode (mul rd rs1 rs2))))
matches-encode (op_imm addi rd rs1 i) h =
    agrees _ _ (omega (arith, h, mask_func3 (encode (op_imm addi rd rs1 i))))
matches-encode (op_imm slti rd rs1 i) h =
    agrees _ _ (omega (arith, h, mask_func3 (encode (op_imm slti rd rs1 i))))
matches-encode (op_imm sltiu rd rs1 i) h =
    agrees _ _ (omega (arith, h, mask_func3 (encode (op_imm sltiu rd rs1 i))))
matches-encode (op_imm xori rd rs1 i) h =
    agrees _ _ (omega (arith, h, mask_func3 (encode (op_imm xori rd rs1 i))))
matches-encode (op_imm ori rd rs1 i) h =
    agrees _ _ (omega (arith, h, mask_func3 (encode (op_imm ori rd rs1 i))))
matches-encode (op_imm andi rd rs1 i) h =
    agrees _ _ (omega (arith, h, mask_func3 (encode (op_imm andi rd rs1 i))))
matches-encode (shift_imm slli rd rs1 i) h =
    agrees _ _ (omega (arith, h, mask_func7 (encode (shift_imm slli rd rs1 i))))
matches-encode (shift_imm srli rd rs1 i) h =
    agrees _ _ (omega (arith, h, mask_func7 (encode (shift_imm srli rd rs1 i))))
matches-encode (shift_imm srai rd rs1 i) h =
    agrees _ _ (omega (arith, h, mask_func7 (encode (shift_imm srai rd rs1 i))))
matches-encode (lui rd i) h = agrees _ _ (omega (arith, h, mask_opcode (encode (lui rd i))))
matches-encode (auipc rd i) h = agrees _ _ (omega (arith, h, mask_opcode (encode (auipc rd i))))
matches-encode (lw rd rs1 i) h = agrees _ _ (omega (arith, h, mask_func3 (encode (lw rd rs1 i))))
matches-encode (sw rs1 rs2 i) h = agrees _ _ (omega (arith, h, mask_func3 (encode (sw rs1 rs2 i))))
matches-encode (branch eq rs1 rs2 i) h =
    agrees _ _ (omega (arith, h, mask_func3 (encode (branch eq rs1 rs2 i))))
matches-encode (branch ne rs1 rs2 i) h =
    agrees _ _ (omega (arith, h, mask_func3 (encode (branch ne rs1 rs2 i))))
matches-encode (branch lt rs1 rs2 i) h =
    agrees _ _ (omega (arith, h, mask_func3 (encode (branch lt rs1 rs2 i))))
matches-encode (branch ge rs1 rs2 i) h =
    agrees _ _ (omega (arith, h, mask_func3 (encode (branch ge rs1 rs2 i))))
matches-encode (branch lt_u rs1 rs2 i) h =
    agrees _ _ (omega (arith, h, mask_func3 (encode (branch lt_u rs1 rs2 i))))
matches-encode (branch ge_u rs1 rs2 i) h =
    agrees _ _ (omega (arith, h, mask_func3 (encode (branch ge_u rs1 rs2 i))))
matches-encode (jal rd i) h = agrees _ _ (omega (arith, h, mask_opcode (encode (jal rd i))))
matches-encode (jalr rd rs1 i) h =
    agrees _ _ (omega (arith, h, mask_func3 (encode (jalr rd rs1 i))))

-- The table has one pattern for each name.
pub found-pattern_of :
    (k : Kind) (p : Pattern)
    → find (name_of (pattern_of k)) instructions ≡ some p
    → pattern_of k ≡ p
found-pattern_of k p f = some-injective _ _ (sym (find-pattern_of k) ∙ f)

-- A 32-bit word is an instance of the pattern that the table has for an instruction of the core
-- exactly when it is the encoding of that instruction with the fields of the word.
pub matches_iff :
    (k : Kind) (p : Pattern) (w : ℕ)
    → find (name_of (pattern_of k)) instructions ≡ some p
    → w < word_mod
    → (matches p w ≡ true) ↔ (encode (instr_of k w) ≡ w)
matches_iff k p w f h =
    let e = found-pattern_of k p f in
    let m : matches (pattern_of k) (encode (instr_of k w)) ≡ true =
      ap (λ t. matches (pattern_of t) (encode (instr_of k w))) (sym (instr_of-kind k w))
      ∙ matches-encode (instr_of k w) (instr_of-IsEncodable k w h) in
    (
      (λ u. encode-instr_of k w h (ap (λ q. matches q w) e ∙ u)),
      (λ u. ap (λ q. matches q w) (sym e) ∙ sym (ap (matches (pattern_of k)) u) ∙ m),
    )
