-- ===== src/Decode/Laws.antt =====
-- rtl/datapath/decode/decoder.sv and immediate.sv: fields and immediates of encoded words.
use tartaruga.Base.{
  ℕ, ◌+◌, ◌*◌, ◌/◌, ◌%◌, ◌<◌, ◌≡◌, ◌⊎◌, inl, inr, arith, bits, if◌then◌else◌, ltb, word_mod, ◌-◌,
}
use tartaruga.Decode.{opcode_field, func3_field, func7_field, rs1_field, rs2_field, rd_field}
use tartaruga.Decode.{immediate_word}
use tartaruga.Decode.Encode.{r_type, i_type}

-- The fields that the decoder cuts out of a word are the ones that it was put together from, when
-- each fits in its width.
r_type_fields :
    (f7 r2 r1 f3 rd opc : ℕ)
    → f7 < 128
    → r2 < 32
    → r1 < 32
    → f3 < 8
    → rd < 32
    → opc < 128
    → let i = r_type f7 r2 r1 f3 rd opc in
      (opcode_field i ≡ opc)
      × (rd_field i ≡ rd)
      × (func3_field i ≡ f3)
      × (rs1_field i ≡ r1)
      × (rs2_field i ≡ r2)
      × (func7_field i ≡ f7)
r_type_fields f7 r2 r1 f3 rd opc a b c d e f = omega arith

-- A 12-bit immediate, as the upper fields of a word.
pub i_type-eq-r_type :
    (i r1 f3 rd opc : ℕ) → i_type i r1 f3 rd opc ≡ r_type (i / 32) (i % 32) r1 f3 rd opc
i_type-eq-r_type i r1 f3 rd opc = omega arith

-- The three sign-extended forms, by the fields.
pub immediate_word-i :
    (w i : ℕ)
    → (opcode_field w ≡ 0x13) ⊎ ((opcode_field w ≡ 3) ⊎ (opcode_field w ≡ 0x67))
    → bits w 20 12 ≡ i
    → bits w 31 1 ≡ i / 2048
    → i < 4096
    → immediate_word w ≡ (if ltb i 2048 then i else i + word_mod - 4096)
unfolding immediate_word
immediate_word-i w i (inl o) b c h = rw (o, b, c) (ground arith)
immediate_word-i w i (inr (inl o)) b c h = rw (o, b, c) (ground arith)
immediate_word-i w i (inr (inr o)) b c h = rw (o, b, c) (ground arith)

pub immediate_word-s :
    (w i : ℕ)
    → opcode_field w ≡ 0x23
    → func7_field w ≡ i / 32
    → rd_field w ≡ i % 32
    → bits w 31 1 ≡ i / 2048
    → i < 4096
    → immediate_word w ≡ (if ltb i 2048 then i else i + word_mod - 4096)
unfolding immediate_word
immediate_word-s w i o a b c h = rw (o, a, b, c) (ground arith)

pub immediate_word-u :
    (w i : ℕ)
    → (opcode_field w ≡ 0x37) ⊎ (opcode_field w ≡ 0x17)
    → bits w 12 20 ≡ i
    → immediate_word w ≡ i * 4096
unfolding immediate_word
immediate_word-u w i (inl o) b = rw (o, b)
immediate_word-u w i (inr o) b = rw (o, b)

-- The immediate of a branch, whose sign is taken from bit 11 of the offset, not from bit 12.
pub immediate_word-b :
    (w i : ℕ)
    → opcode_field w ≡ 0x63
    → bits w 7 1 ≡ i / 0x400 % 2
    → bits w 25 6 ≡ i / 16 % 64
    → bits w 8 4 ≡ i % 16
    → i < 4096
    → immediate_word w
      ≡ (if ltb (i % 0x800) 0x400 then 2 * (i % 0x800) else 2 * (i % 0x800) + word_mod - 4096)
unfolding immediate_word
immediate_word-b w i o a b c h = rw (o, a, b, c) (ground arith)

pub immediate_word-j :
    (w i : ℕ)
    → opcode_field w ≡ 0x6f
    → bits w 31 1 ≡ i / 0x80000
    → bits w 12 8 ≡ i / 0x800 % 0x100
    → bits w 20 1 ≡ i / 0x400 % 2
    → bits w 21 10 ≡ i % 0x400
    → i < 0x100000
    → immediate_word w ≡ (if ltb (2 * i) 0x100000 then 2 * i else 2 * i + word_mod - 0x200000)
unfolding immediate_word
immediate_word-j w i o a b c d h = rw (o, a, b, c, d) (ground arith)
