-- ===== src/Tests/Log.antt =====
-- The log of stages with two instructions in flight.
use tartaruga.Base.{true, false, ◌≡◌, ◌==◌, none, some, if◌then◌else◌, arith}
use tartaruga.Sim.Kanata.{
  StageMap, Signals, stage_of, stage_or_none, is_stage, writeback, decode, print_kanata,
}
use tartaruga.Sim.Kanata.Laws.{IsOpen, known, retirements, print_kanata-retirements}

-- Instruction 4 writes back, instruction 5 is decoded.
abbrev stages : StageMap
stages i = if i == 4 then some writeback else if i == 5 then some decode else none

stages-IsOpen : IsOpen stages
unfolding stage_of stage_or_none is_stage
stages-IsOpen = record { not_committed = λ i. ground arith }

-- Instruction 4 commits.
abbrev signals : Signals
signals = record {
  valid_decode = true;
  valid_execute = true;
  valid_memory = false;
  valid_writeback = false;
  valid_commit = true;
  id_fetch = 6;
  id_decode = 6;
  id_execute = 5;
  id_memory = 0;
  id_writeback = 0;
  id_commit = 4;
  pc_decode = 0x100;
  instr_decode = 0x33;
}

print_kanata-retirements_example : retirements (print_kanata 10 stages signals true).1 5 ≡ 1
unfolding known
print_kanata-retirements_example =
    print_kanata-retirements 10 stages signals 5 stages-IsOpen (omega arith)
