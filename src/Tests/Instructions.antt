-- ===== src/Tests/Instructions.antt =====
-- Instructions that run with x1 = 0x1000, x2 = 7 and every word of memory 9.
use tartaruga.Base.{ℕ, ◌+◌, ◌≡◌, ◌≢◌, ◌==◌, if◌then◌else◌, refl, arith}
use Prim.{tt}
use tartaruga.Decode.Encode.{sw, branch, eq, jalr, encode}
use tartaruga.Single.Isa.{isa}
use tartaruga.Single.Hardware.{run_word}
use tartaruga.Single.Refines.{IsRegisters, run_word-encode, run_branch-far, run_jalr-odd}

abbrev pub registers : ℕ → ℕ
registers i = if i == 1 then 0x1000 else if i == 2 then 7 else 0

abbrev pub memory : ℕ → ℕ
memory i = 9

pub registers-IsRegisters : IsRegisters registers
registers-IsRegisters = record { words = λ i. ground arith; zero_register = refl }

run_word-encode_example :
    run_word 0x100 registers memory (encode (sw 1 2 4092))
    ≡ isa 0x100 registers memory (sw 1 2 4092)
run_word-encode_example =
    run_word-encode 0x100 registers memory registers-IsRegisters (sw 1 2 4092)
      (omega arith, omega arith, omega arith) tt

run_branch-far_example :
    (run_word 0x100 registers memory (encode (branch eq 0 0 1024))).next_pc
    ≢ (isa 0x100 registers memory (branch eq 0 0 1024)).next_pc
run_branch-far_example =
    run_branch-far 0x100 registers memory registers-IsRegisters eq 0 0 1024
      (omega arith, omega arith, omega arith) (omega arith) (omega arith) refl

run_jalr-odd_example :
    (run_word 0x100 registers memory (encode (jalr 5 2 2))).next_pc
    ≡ (isa 0x100 registers memory (jalr 5 2 2)).next_pc + 1
run_jalr-odd_example =
    run_jalr-odd 0x100 registers memory registers-IsRegisters 5 2 2
      (omega arith, omega arith, omega arith) refl
