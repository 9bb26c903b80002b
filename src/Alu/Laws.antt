-- ===== src/Alu/Laws.antt =====
-- rtl/datapath/exe/alu.sv and branch.sv: the operations by digits and the conditions as relations.
use native.Mathlib.Nat.{one-le-pow}
use tartaruga.Base.{ℕ, true, ◌+◌, ◌-◌, ◌*◌, ◌/◌, ◌%◌, ◌^◌, ◌≤◌, ◌<◌, ◌≡◌, ◌↔◌, ◌≢◌}
use tartaruga.Base.{arith, ap, word_mod, sign_bit, min, ltb, if◌then◌else◌}
use tartaruga.Base.Bits.{
  bit, bit-bit_and, bit-bit_or, bit-bit_xor, bit_and-lt, bit_or-lt, bit_xor-lt,
}
use tartaruga.Base.Bits.{bit-shift_right, bit-shift_left, bit-shift_left_low, bit-mod_pow}
use tartaruga.Base.Bits.{bit-complement, bit-high, bit-lt}
use native.Mathlib.Decide.{dec_lt}
use Prim.Native.Nat.{max, differ}
use tartaruga.Pkg.{AluOp, add, sub, slt, sltu, sll, srl, sra, xor, or, and}
use tartaruga.Pkg.{bne, beq, blt, bltu, bge, bgeu}
use tartaruga.Alu.{alu_result, taken, shamt}

pub div-pow-le : (a k : ℕ) → a / 2 ^ k ≤ a
div-pow-le a k = omega (arith, one-le-pow k 2 (omega arith))

-- Every operation of the arithmetic unit gives a 32-bit word on 32-bit words.
alu_result-lt : (op : AluOp) (a b : ℕ) → a < word_mod → b < word_mod → alu_result op a b < word_mod
unfolding alu_result
alu_result-lt add a b p q = omega arith
alu_result-lt sub a b p q = omega arith
alu_result-lt slt a b p q = ground arith
alu_result-lt sltu a b p q = ground arith
alu_result-lt sll a b p q = omega arith
alu_result-lt srl a b p q = omega (arith, div-pow-le a (shamt b))
alu_result-lt sra a b p q = ground arith
alu_result-lt xor a b p q = bit_xor-lt 32 a b p q
alu_result-lt or a b p q = bit_or-lt 32 a b p q
alu_result-lt and a b p q = bit_and-lt 32 a b p q

-- What digit `i` of a shift or of a bitwise operation is, in terms of the digits of the operands.
abbrev pub digit_of : AluOp → ℕ → ℕ → ℕ → ℕ
digit_of sll a k i = if ltb i k then 0 else bit a (i - k)
digit_of srl a k i = if ltb (k + i) 32 then bit a (k + i) else 0
digit_of sra a k i = if ltb (k + i) 32 then bit a (k + i) else bit a 31
digit_of _ a k i = 0

bit-sll : (a b i : ℕ) → i < 32 → bit (alu_result sll a b) i ≡ digit_of sll a (b % 32) i
unfolding alu_result
bit-sll a b i h = elim (dec_lt i (b % 32)) [
  | yes p ↦ ground (arith, bit-mod_pow 32 (a * 2 ^ (b % 32)) i, bit-shift_left_low (b % 32) a i)
  | no p ↦
      let up : b % 32 + (i - b % 32) ≡ i = omega arith in
      ground (
        arith,
        bit-mod_pow 32 (a * 2 ^ (b % 32)) i,
        bit-shift_left (b % 32) a (i - b % 32),
        ap (bit (a * 2 ^ (b % 32))) up,
      )
]

bit-srl : (a b i : ℕ) → a < word_mod → bit (alu_result srl a b) i ≡ digit_of srl a (b % 32) i
unfolding alu_result
bit-srl a b i h = ground (arith, bit-shift_right (b % 32) a i, bit-high 32 a (b % 32 + i))

-- The digits of a shifted word with the sign bit set, through its complement.
bit-sra_negative :
    (a k i : ℕ)
    → a < word_mod
    → sign_bit ≤ a
    → i < 32
    → bit (word_mod - 1 - (word_mod - 1 - a) / 2 ^ k) i
      ≡ (if ltb (k + i) 32 then bit a (k + i) else 1)
bit-sra_negative a k i h s p = ground (
  arith,
  div-pow-le (word_mod - 1 - a) k,
  bit-complement 32 ((word_mod - 1 - a) / 2 ^ k) i,
  bit-shift_right k (word_mod - 1 - a) i,
  bit-complement 32 a (k + i),
  bit-high 32 (word_mod - 1 - a) (k + i),
  bit-lt a (k + i),
)

bit-sra :
    (a b i : ℕ) → a < word_mod → i < 32 → bit (alu_result sra a b) i ≡ digit_of sra a (b % 32) i
unfolding alu_result
bit-sra a b i h p = elim (dec_lt a sign_bit) [
  | yes s ↦ ground (
    arith,
    div-pow-le a (b % 32),
    bit-shift_right (b % 32) a i,
    bit-high 31 a (b % 32 + i),
    bit-high 31 a 31,
  )
  | no s ↦ ground (
    arith,
    div-pow-le (word_mod - 1 - a) (b % 32),
    bit-sra_negative a (b % 32) i,
    bit-complement 32 a 31,
    bit-high 31 (word_mod - 1 - a) 31,
    bit-lt a 31,
  )
]

-- The shifts of a 32-bit word move its binary digits by the low five bits of the second operand:
-- zeros come in at the bottom of SLL and at the top of SRL, copies of the sign at the top of SRA.
alu_shift_digits :
    (a b i : ℕ)
    → a < word_mod
    → i < 32
    → (bit (alu_result sll a b) i ≡ digit_of sll a (b % 32) i)
      × (bit (alu_result srl a b) i ≡ digit_of srl a (b % 32) i)
      × (bit (alu_result sra a b) i ≡ digit_of sra a (b % 32) i)
alu_shift_digits a b i p h = (bit-sll a b i h, bit-srl a b i p, bit-sra a b i p h)

-- XOR, OR and AND act on each binary digit alone: as inequality, maximum and minimum.
alu_logic_digits :
    (a b i : ℕ)
    → (bit (alu_result xor a b) i ≡ differ (bit a i) (bit b i))
      × (bit (alu_result or a b) i ≡ max (bit a i) (bit b i))
      × (bit (alu_result and a b) i ≡ min (bit a i) (bit b i))
unfolding alu_result
alu_logic_digits a b i = (bit-bit_xor i a b, bit-bit_or i a b, bit-bit_and i a b)

-- On 32-bit words SUB undoes ADD of the same second operand, and ADD undoes SUB.
alu_add_sub :
    (a b : ℕ)
    → a < word_mod
    → b < word_mod
    → (alu_result sub (alu_result add a b) b ≡ a) × (alu_result add (alu_result sub a b) b ≡ a)
unfolding alu_result
alu_add_sub a b p q = omega arith

-- A word with its sign bit flipped: two's complement order is the order of these.
abbrev pub flip_sign : ℕ → ℕ
flip_sign x = (x + sign_bit) % word_mod

-- On 32-bit words each condition of the branch unit is the relation that its name says; the signed
-- ones compare the words with their sign bits flipped.
pub taken_iff :
    (a b : ℕ)
    → a < word_mod
    → b < word_mod
    → ((taken beq a b ≡ true) ↔ (a ≡ b))
      × ((taken bne a b ≡ true) ↔ (a ≢ b))
      × ((taken bltu a b ≡ true) ↔ (a < b))
      × ((taken bgeu a b ≡ true) ↔ (b ≤ a))
      × ((taken blt a b ≡ true) ↔ (flip_sign a < flip_sign b))
      × ((taken bge a b ≡ true) ↔ (flip_sign b ≤ flip_sign a))
unfolding taken
taken_iff a b p q = ground arith

sums :
    (a b : ℕ)
    → a < word_mod
    → b < word_mod
    → (alu_result add a b + (if ltb (a + b) word_mod then 0 else word_mod) ≡ a + b)
      × (alu_result sub a b + b ≡ a + (if ltb a b then word_mod else 0))
unfolding alu_result
sums a b p q = (ground arith, ground arith)

comparisons :
    (a b : ℕ)
    → a < word_mod
    → b < word_mod
    → ((alu_result slt a b ≡ 1) ↔ (flip_sign a < flip_sign b))
      × ((alu_result slt a b ≡ 0) ↔ (flip_sign b ≤ flip_sign a))
      × ((alu_result sltu a b ≡ 1) ↔ (a < b))
      × ((alu_result sltu a b ≡ 0) ↔ (b ≤ a))
unfolding alu_result
comparisons a b p q = ground arith

-- On 32-bit words, ADD gives the sum, less 2 ^ 32 if it overflows; SUB gives the number that with
-- the second operand makes the first one, or 2 ^ 32 more if the first is below the second; SLT and
-- SLTU give 1 or 0 as the words are in order or not, for SLT with the sign bits flipped. Every
-- result is a 32-bit word. The shifts move the digits by the low five bits of the second operand,
-- with zeros coming in at the bottom of SLL and at the top of SRL and copies of the sign at the top
-- of SRA; XOR, OR and AND act on each digit alone, as inequality, maximum and minimum.
pub alu_result_lem :
    (a b : ℕ)
    → a < word_mod
    → b < word_mod
    → (alu_result add a b + (if ltb (a + b) word_mod then 0 else word_mod) ≡ a + b)
      × (alu_result sub a b + b ≡ a + (if ltb a b then word_mod else 0))
      × ((alu_result slt a b ≡ 1) ↔ (flip_sign a < flip_sign b))
      × ((alu_result slt a b ≡ 0) ↔ (flip_sign b ≤ flip_sign a))
      × ((alu_result sltu a b ≡ 1) ↔ (a < b))
      × ((alu_result sltu a b ≡ 0) ↔ (b ≤ a))
      × ((op : AluOp) → alu_result op a b < word_mod)
      × ((i : ℕ)
          → i < 32
          → (bit (alu_result sll a b) i ≡ digit_of sll a (b % 32) i)
            × (bit (alu_result srl a b) i ≡ digit_of srl a (b % 32) i)
            × (bit (alu_result sra a b) i ≡ digit_of sra a (b % 32) i)
            × (bit (alu_result xor a b) i ≡ differ (bit a i) (bit b i))
            × (bit (alu_result or a b) i ≡ max (bit a i) (bit b i))
            × (bit (alu_result and a b) i ≡ min (bit a i) (bit b i)))
alu_result_lem a b p q =
    let (s, d) = sums a b p q in
    let (c1, c2, c3, c4) = comparisons a b p q in
    (
      s,
      d,
      c1,
      c2,
      c3,
      c4,
      (λ op. alu_result-lt op a b p q),
      (λ i h.
          let (x, y, z) = alu_shift_digits a b i p h in
          let (u, v, w) = alu_logic_digits a b i in (x, y, z, u, v, w)),
    )
