-- ===== src/Base/Word.antt =====
-- 32-bit words as numbers below 2 ^ 32, the operators of SystemVerilog on them, and the
-- integers that `$signed` reads them as.
use Prim.Native.Nat.{ℕ, ◌+◌, ◌-◌, ◌/◌, ◌%◌, ◌^◌}
use mathlib.Core.Bool.{Bool, true, false}
use tartaruga.Base.Tests.{ltb, if◌then◌else◌}

abbrev pub word_mod : ℕ
word_mod = 0x1_0000_0000

abbrev pub sign_bit : ℕ
sign_bit = 0x8000_0000

abbrev pub add32 : ℕ → ℕ → ℕ
add32 a b = (a + b) % word_mod

-- `-` on ℕ stops at 0, so the modulus is added first.
abbrev pub sub32 : ℕ → ℕ → ℕ
sub32 a b = (a + word_mod - b) % word_mod

-- The bits `[lo + width - 1 : lo]` of a word.
abbrev pub bits : ℕ → ℕ → ℕ → ℕ
bits x lo width = x / 2 ^ lo % 2 ^ width

abbrev pub bool_bit : Bool → ℕ
bool_bit b = if b then 1 else 0

-- `negsuc n` is -(n + 1).
pub data ℤ : Type 0 where
  pos : ℕ → ℤ
  negsuc : ℕ → ℤ

-- `$signed(x)`.
abbrev pub signed : ℕ → ℤ
signed x = if ltb x sign_bit then pos x else negsuc (word_mod - 1 - x)

-- The 32 low bits of an integer.
abbrev pub to_word : ℤ → ℕ
to_word (pos n) = n % word_mod
to_word (negsuc n) = word_mod - 1 - n % word_mod

abbrev pub ltbℤ : ℤ → ℤ → Bool
ltbℤ (pos a) (pos b) = ltb a b
ltbℤ (pos a) (negsuc b) = false
ltbℤ (negsuc a) (pos b) = true
ltbℤ (negsuc a) (negsuc b) = ltb b a

-- `>>>` of a signed operand: division by a power of two, rounded down.
abbrev pub shift_right : ℤ → ℕ → ℤ
shift_right (pos n) k = pos (n / 2 ^ k)
shift_right (negsuc n) k = negsuc (n / 2 ^ k)
