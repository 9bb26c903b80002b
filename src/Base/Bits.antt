-- ===== src/Base/Bits.antt =====
-- The binary digits of a number, and what the digits of a shift or of a bitwise operation are.
use Prim.Native.Nat.{ℕ, zero, suc, ◌+◌, ◌-◌, ◌*◌, ◌/◌, ◌%◌, ◌^◌, ◌≤◌, ◌<◌, min, max}
use Prim.Native.Nat.{digits, differ, bit_and, bit_or, bit_xor}
use Prim.Native.Nat.{bit_and-bitwise, bit_or-bitwise, bit_xor-bitwise}
use mathlib.Core.Path.{◌≡◌, refl, sym, ap, ap₂, ◌∙◌}
use native.Mathlib.Nat.{pow-suc, pow-succ', mul_left_comm}
use native.Mathlib.Nat.{div-div-eq-div-mul, mod-eq-sub-div-mul, div-mul-le_self}
use native.Mathlib.Omega.{arith}

-- Digit `i` of a number, the lowest first.
abbrev pub bit : ℕ → ℕ → ℕ
bit x zero = x % 2
bit x (suc i) = bit (x / 2) i

pub bit-lt : (x i : ℕ) → bit x i < 2
bit-lt x zero = omega arith
bit-lt x (suc i) = bit-lt (x / 2) i

pub bit-zero : (i : ℕ) → bit 0 i ≡ 0
bit-zero zero = refl
bit-zero (suc i) = bit-zero i

module _ (z : ℕ → ℕ) (f : ℕ → ℕ → ℕ) where
  -- An operation on digits acts on every digit.
  pub bit-digits :
      ((b i : ℕ) → bit (z b) i ≡ f 0 (bit b i))
      → ((p q : ℕ) → p < 2 → q < 2 → f p q < 2)
      → (i n a b : ℕ) → a ≤ n
      → bit (digits z f n a b) i ≡ f (bit a i) (bit b i)
  bit-digits hz hf i zero zero b h = hz b i ∙ ap (λ t. f t (bit b i)) (omega (arith, bit-zero i))
  bit-digits hz hf i zero (suc a) b h = absurd (omega arith)
  bit-digits hz hf i (suc n) zero b h = hz b i ∙ ap (λ t. f t (bit b i)) (omega (arith, bit-zero i))
  bit-digits hz hf zero (suc n) (suc a) b h =
      omega (arith, hf (suc a % 2) (b % 2) (omega arith) (omega arith))
  bit-digits hz hf (suc i) (suc n) (suc a) b h =
      ap (λ t. bit t i) (omega (arith, hf (suc a % 2) (b % 2) (omega arith) (omega arith)))
      ∙ bit-digits hz hf i n (suc a / 2) (b / 2) (omega arith)

  pub digits-lt :
      ((b : ℕ) → z b ≤ b)
      → ((p q : ℕ) → p < 2 → q < 2 → f p q < 2)
      → (w n a b : ℕ) → a < 2 ^ w
      → b < 2 ^ w
      → digits z f n a b < 2 ^ w
  digits-lt hz hf w zero a b p q = omega (arith, hz b)
  digits-lt hz hf w (suc n) zero b p q = omega (arith, hz b)
  digits-lt hz hf zero (suc n) (suc a) b p q = absurd (omega arith)
  digits-lt hz hf (suc w) (suc n) (suc a) b p q = omega (
    arith,
    pow-suc 2 w,
    hf (suc a % 2) (b % 2) (omega arith) (omega arith),
    digits-lt hz hf w n (suc a / 2) (b / 2) (omega (arith, pow-suc 2 w))
        (omega (arith, pow-suc 2 w)),
  )

min-lt : (p q : ℕ) → p < 2 → q < 2 → min p q < 2
min-lt p q hp hq = omega arith

max-lt : (p q : ℕ) → p < 2 → q < 2 → max p q < 2
max-lt p q hp hq = omega arith

differ-lt : (p q : ℕ) → p < 2 → q < 2 → differ p q < 2
differ-lt zero q hp hq = hq
differ-lt (suc p) zero hp hq = hp
differ-lt (suc p) (suc q) hp hq = differ-lt p q (omega arith) (omega arith)

pub bit-bit_and : (i a b : ℕ) → bit (bit_and a b) i ≡ min (bit a i) (bit b i)
bit-bit_and i a b =
    ap (λ t. bit t i) (bit_and-bitwise a b)
    ∙ bit-digits (λ b. 0) min (λ b i. bit-zero i ∙ omega arith) min-lt i a a b (omega arith)

pub bit-bit_or : (i a b : ℕ) → bit (bit_or a b) i ≡ max (bit a i) (bit b i)
bit-bit_or i a b =
    ap (λ t. bit t i) (bit_or-bitwise a b)
    ∙ bit-digits (λ b. b) max (λ b i. omega arith) max-lt i a a b (omega arith)

pub bit-bit_xor : (i a b : ℕ) → bit (bit_xor a b) i ≡ differ (bit a i) (bit b i)
bit-bit_xor i a b =
    ap (λ t. bit t i) (bit_xor-bitwise a b)
    ∙ bit-digits (λ b. b) differ (λ b i. refl) differ-lt i a a b (omega arith)

pub bit_and-lt : (w a b : ℕ) → a < 2 ^ w → b < 2 ^ w → bit_and a b < 2 ^ w
bit_and-lt w a b p q =
    omega (arith, bit_and-bitwise a b, digits-lt (λ b. 0) min (λ b. omega arith) min-lt w a a b p q)

pub bit_or-lt : (w a b : ℕ) → a < 2 ^ w → b < 2 ^ w → bit_or a b < 2 ^ w
bit_or-lt w a b p q =
    omega (arith, bit_or-bitwise a b, digits-lt (λ b. b) max (λ b. omega arith) max-lt w a a b p q)

pub bit_xor-lt : (w a b : ℕ) → a < 2 ^ w → b < 2 ^ w → bit_xor a b < 2 ^ w
bit_xor-lt w a b p q =
    omega (
      arith,
      bit_xor-bitwise a b,
      digits-lt (λ b. b) differ (λ b. omega arith) differ-lt w a a b p q,
    )

two_pow-suc : (k : ℕ) → 2 ^ suc k ≡ 2 * 2 ^ k
two_pow-suc k = pow-succ' 2 k

pub div-pow-suc : (x k : ℕ) → x / 2 ^ suc k ≡ x / 2 / 2 ^ k
div-pow-suc x k = rw (two_pow-suc k) (sym (div-div-eq-div-mul x 2 (2 ^ k)))

-- The half of a remainder by a power of two.
pub mod-pow-half : (x k : ℕ) → x % 2 ^ suc k / 2 ≡ x / 2 % 2 ^ k
mod-pow-half x k = omega (
  arith,
  mod-eq-sub-div-mul x (2 ^ suc k),
  mod-eq-sub-div-mul (x / 2) (2 ^ k),
  ap₂ (λ (a b : ℕ). a * b) (div-pow-suc x k) (two_pow-suc k),
  mul_left_comm (x / 2 / 2 ^ k) 2 (2 ^ k),
  div-mul-le_self (x / 2) (2 ^ k),
)

pub mul-pow-half : (x k : ℕ) → x * 2 ^ suc k ≡ 2 * (x * 2 ^ k)
mul-pow-half x k = omega (arith, ap (λ (t : ℕ). x * t) (two_pow-suc k), mul_left_comm x 2 (2 ^ k))

suc-add : (k i : ℕ) → suc (k + i) ≡ suc k + i
suc-add k i = omega arith

-- A shift to the right moves every digit down.
pub bit-shift_right : (k x i : ℕ) → bit (x / 2 ^ k) i ≡ bit x (k + i)
bit-shift_right zero x i =
    let e : x / 2 ^ 0 ≡ x = omega arith in let j : i ≡ 0 + i = omega arith in ap₂ bit e j
bit-shift_right (suc k) x i =
    ap (λ t. bit t i) (div-pow-suc x k) ∙ bit-shift_right k (x / 2) i ∙ ap (bit x) (suc-add k i)

-- A shift to the left moves the digits up and brings zeros in; a word of `w` digits keeps `w`.
pub bit-shift_left_low : (k x i : ℕ) → i < k → bit (x * 2 ^ k) i ≡ 0
bit-shift_left_low zero x i h = absurd (omega arith)
bit-shift_left_low (suc k) x zero h = omega (arith, mul-pow-half x k)
bit-shift_left_low (suc k) x (suc i) h =
    ap (λ t. bit t i) (omega (arith, mul-pow-half x k)) ∙ bit-shift_left_low k x i (omega arith)

pub bit-shift_left : (k x i : ℕ) → bit (x * 2 ^ k) (k + i) ≡ bit x i
bit-shift_left zero x i =
    let e : x * 2 ^ 0 ≡ x = omega arith in let j : 0 + i ≡ i = omega arith in ap₂ bit e j
bit-shift_left (suc k) x i =
    ap (bit (x * 2 ^ suc k)) (sym (suc-add k i))
    ∙ ap (λ t. bit t (k + i)) (omega (arith, mul-pow-half x k))
    ∙ bit-shift_left k x i

pub bit-mod_pow : (w x i : ℕ) → i < w → bit (x % 2 ^ w) i ≡ bit x i
bit-mod_pow zero x i h = absurd (omega arith)
bit-mod_pow (suc w) x zero h = omega (
  arith,
  mod-eq-sub-div-mul x (2 ^ suc w),
  mul-pow-half (x / 2 ^ suc w) w,
  div-mul-le_self x (2 ^ suc w),
)
bit-mod_pow (suc w) x (suc i) h =
    ap (λ t. bit t i) (mod-pow-half x w) ∙ bit-mod_pow w (x / 2) i (omega arith)

-- The complement of a word has the other digit everywhere.
pub bit-complement : (w x i : ℕ) → x < 2 ^ w → i < w → bit (2 ^ w - 1 - x) i ≡ 1 - bit x i
bit-complement zero x i p h = absurd (omega arith)
bit-complement (suc w) x zero p h = omega (arith, two_pow-suc w)
bit-complement (suc w) x (suc i) p h =
    ap (λ t. bit t i) (omega (arith, two_pow-suc w))
    ∙ bit-complement w (x / 2) i (omega (arith, two_pow-suc w)) (omega arith)

-- Digits from `w` on of a number below 2 ^ w.
pub bit-high : (w x i : ℕ) → x < 2 ^ w → w ≤ i → bit x i ≡ 0
bit-high zero x i p h = ap (λ t. bit t i) (omega arith) ∙ bit-zero i
bit-high (suc w) x zero p h = absurd (omega arith)
bit-high (suc w) x (suc i) p h = bit-high w (x / 2) i (omega (arith, two_pow-suc w)) (omega arith)
