-- ===== src/Encoding.antt =====
-- riscv-tests/env/encoding.h: an instruction of the RISC-V ISA as the words that agree with
-- MATCH_<name> in the bits of MASK_<name>.
pub mod Instructions
pub mod Kinds
pub mod Words
pub mod Run
pub mod Lengths
use Prim.Native.String.{String}
use text.Mathlib.Text.{◌==◌ as str_eq}
use tartaruga.Base.{ℕ, Bool, ◌==◌, if◌then◌else◌, List, [], ◌∷◌, Option, none, some, bit_and}

-- DECLARE_INSN(name, match, mask)
pub data Pattern : Type 0 where
  insn : String → ℕ → ℕ → Pattern

abbrev pub match_of : Pattern → ℕ
match_of (insn name m k) = m

abbrev pub mask_of : Pattern → ℕ
mask_of (insn name m k) = k

abbrev pub named : String → Pattern → Bool
named n (insn name m k) = str_eq n name

-- Whether a word is an instance of the pattern.
unfoldable pub matches : Pattern → ℕ → Bool
matches p w = bit_and w (mask_of p) == match_of p

unfoldable pub find : String → List Pattern → Option Pattern
find n [] = none
find n (p ∷ ps) = if named n p then some p else find n ps
