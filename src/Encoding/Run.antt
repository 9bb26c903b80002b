-- ===== src/Encoding/Run.antt =====
-- riscv-tests/env/encoding.h and rtl/datapath/: a word of a base pattern through the hardware.
use tartaruga.Base.{ℕ, true, ◌<◌, ◌≡◌, ◌∙◌, ap, sym, some, word_mod}
use tartaruga.Single.Isa.{isa}
use tartaruga.Single.Hardware.{run_word}
use tartaruga.Single.Refines.{IsRegisters, IsReached, run_word-encode}
use tartaruga.Encoding.{Pattern, find, matches}
use tartaruga.Encoding.Instructions.{instructions}
use tartaruga.Encoding.Kinds.{Kind, pattern_of, name_of}
use tartaruga.Encoding.Words.{instr_of, found-pattern_of, encode-instr_of, instr_of-IsEncodable}

module _ (pc : ℕ) (regs load : ℕ → ℕ) (r : IsRegisters regs) where
  -- A 32-bit word that is an instance of the pattern of a base instruction, as the table of the
  -- test suite gives it, has through the hardware the effect that the manual gives the instruction
  -- with the fields of the word. The registers hold 32-bit words and x0 is zero, a branch reaches
  -- less than 2 KiB forward or at most 2 KiB back, and the target of JALR is even.
  pub run_word-matches :
      (k : Kind) (p : Pattern) (w : ℕ)
      → find (name_of (pattern_of k)) instructions ≡ some p
      → w < word_mod
      → matches p w ≡ true
      → IsReached regs (instr_of k w)
      → run_word pc regs load w ≡ isa pc regs load (instr_of k w)
  run_word-matches k p w f h m reach =
      ap (run_word pc regs load)
        (sym (encode-instr_of k w h (ap (λ q. matches q w) (found-pattern_of k p f) ∙ m)))
      ∙ run_word-encode pc regs load r (instr_of k w) (instr_of-IsEncodable k w h) reach
