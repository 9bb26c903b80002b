-- ===== src/Masks.antt =====
-- Masks as fields of a word: what `w & mask` is for runs of ones and of zeros.
use native.Mathlib.Nat.{pow-succ', mul_assoc, mod-eq-sub-div-mul, div-mul-le_self}
use tartaruga.Base.{
  ℕ, zero, suc, ◌+◌, ◌*◌, ◌/◌, ◌%◌, ◌^◌, ◌<◌, ◌≡◌, ◌∙◌, ap, sym, arith, bit_and, min,
}
use tartaruga.Base.Bits.{
  bit, bit-bit_and, bit-zero, bit_and-lt, div-pow-suc, mod-pow-half, mul-pow-half,
}

-- Numbers with the same digits are the same.
digits-ext : (w a b : ℕ) → a < 2 ^ w → b < 2 ^ w → ((i : ℕ) → bit a i ≡ bit b i) → a ≡ b
digits-ext zero a b p q h = omega arith
digits-ext (suc w) a b p q h =
    let e =
      digits-ext w (a / 2) (b / 2) (omega (arith, pow-succ' 2 w)) (omega (arith, pow-succ' 2 w))
        (λ i. h (suc i)) in
    omega (arith, e, h 0)

lt_pow : (a : ℕ) → a < 2 ^ a
lt_pow zero = omega arith
lt_pow (suc a) = omega (arith, lt_pow a, pow-succ' 2 a)

pub digits-equal : (a b : ℕ) → ((i : ℕ) → bit a i ≡ bit b i) → a ≡ b
digits-equal a b h =
    digits-ext (suc (a + b)) a b (omega (arith, lt_pow (a + b), pow-succ' 2 (a + b)))
      (omega (arith, lt_pow (a + b), pow-succ' 2 (a + b))) h

-- One digit of a conjunction, and the others.
and_digits :
    (a b i : ℕ) → bit (bit_and a b) i ≡ bit (min (a % 2) (b % 2) + 2 * bit_and (a / 2) (b / 2)) i
and_digits a b zero = omega (arith, bit-bit_and 0 a b)
and_digits a b (suc i) =
    let x = bit_and (a / 2) (b / 2) in
    let e : x ≡ (min (a % 2) (b % 2) + 2 * x) / 2 = omega arith in
    bit-bit_and (suc i) a b ∙ sym (bit-bit_and i (a / 2) (b / 2)) ∙ ap (λ t. bit t i) e

and_step : (a b : ℕ) → bit_and a b ≡ min (a % 2) (b % 2) + 2 * bit_and (a / 2) (b / 2)
and_step a b =
    digits-equal (bit_and a b) (min (a % 2) (b % 2) + 2 * bit_and (a / 2) (b / 2)) (and_digits a b)

-- The masks from bit `k` on: ones below it, or zeros below it.
unfoldable pub ones_then : ℕ → ℕ → ℕ
ones_then zero c = c
ones_then (suc k) c = 1 + 2 * ones_then k c

unfoldable pub zeros_then : ℕ → ℕ → ℕ
zeros_then zero c = c
zeros_then (suc k) c = 2 * zeros_then k c

mod_parity : (k a : ℕ) → a % 2 ^ suc k % 2 ≡ a % 2
mod_parity k a = omega (
  arith,
  mod-eq-sub-div-mul a (2 ^ suc k),
  mul-pow-half (a / 2 ^ suc k) k,
  div-mul-le_self a (2 ^ suc k),
)

-- `w & mask` for a mask with a run of `k` ones at the bottom.
pub and_ones : (k a c : ℕ) → bit_and a (ones_then k c) ≡ a % 2 ^ k + 2 ^ k * bit_and (a / 2 ^ k) c
unfolding ones_then
and_ones zero a c = let e : a / 1 ≡ a = omega arith in omega (arith, ap (λ t. bit_and t c) e)
and_ones (suc k) a c =
    let t = ones_then k c in
    let h : (1 + 2 * t) / 2 ≡ t = omega arith in
    let m = bit_and (a / 2 ^ suc k) c in
    omega (
      arith,
      and_step a (1 + 2 * t),
      ap (λ (u : ℕ). bit_and (a / 2) u) h,
      and_ones k (a / 2) c,
      ap (λ (u : ℕ). 2 ^ k * bit_and u c) (div-pow-suc a k),
      mod-pow-half a k,
      mod_parity k a,
      ap (λ (u : ℕ). u * m) (pow-succ' 2 k),
      mul_assoc 2 (2 ^ k) m,
    )

-- `w & mask` for a mask with a run of `k` zeros at the bottom.
pub and_zeros : (k a c : ℕ) → bit_and a (zeros_then k c) ≡ 2 ^ k * bit_and (a / 2 ^ k) c
unfolding zeros_then
and_zeros zero a c = let e : a / 1 ≡ a = omega arith in omega (arith, ap (λ t. bit_and t c) e)
and_zeros (suc k) a c =
    let t = zeros_then k c in
    let h : 2 * t / 2 ≡ t = omega arith in
    let m = bit_and (a / 2 ^ suc k) c in
    omega (
      arith,
      and_step a (2 * t),
      ap (λ (u : ℕ). bit_and (a / 2) u) h,
      and_zeros k (a / 2) c,
      ap (λ (u : ℕ). 2 ^ k * bit_and u c) (div-pow-suc a k),
      ap (λ (u : ℕ). u * m) (pow-succ' 2 k),
      mul_assoc 2 (2 ^ k) m,
    )

pub and_none : (a : ℕ) → bit_and a 0 ≡ 0
and_none a =
    let z : 0 < 2 ^ a = omega (arith, lt_pow a) in
    digits-ext a (bit_and a 0) 0 (bit_and-lt a a 0 (lt_pow a) z) z
      (λ i. bit-bit_and i a 0 ∙ omega (arith, bit-zero i))

-- The mask of an opcode.
pub mask_opcode : (w : ℕ) → bit_and w 0x7f ≡ w % 128
unfolding ones_then
mask_opcode w = omega (arith, and_ones 7 w 0, and_none (w / 128))

pub mask_byte : (w : ℕ) → bit_and w 0xff ≡ w % 256
unfolding ones_then
mask_byte w = omega (arith, and_ones 8 w 0, and_none (w / 256))

-- opcode and func3
pub mask_func3 : (w : ℕ) → bit_and w 0x707f ≡ w % 128 + 4096 * (w / 4096 % 8)
unfolding ones_then zeros_then
mask_func3 w = omega (
  arith,
  and_ones 7 w 0xe0,
  and_zeros 5 (w / 128) 7,
  and_ones 3 (w / 128 / 32) 0,
  and_none (w / 128 / 32 / 8),
)

-- opcode, func3 and func7
pub mask_func7 :
    (w : ℕ)
    → bit_and w 0xfe00707f ≡ w % 128 + 4096 * (w / 4096 % 8) + 0x2000000 * (w / 0x2000000 % 128)
unfolding ones_then zeros_then
mask_func7 w = omega (
  arith,
  and_ones 7 w 0x1fc00e0,
  and_zeros 5 (w / 128) 0xfe007,
  and_ones 3 (w / 128 / 32) 0x1fc00,
  and_zeros 10 (w / 128 / 32 / 8) 127,
  and_ones 7 (w / 128 / 32 / 8 / 1024) 0,
  and_none (w / 128 / 32 / 8 / 1024 / 128),
)
