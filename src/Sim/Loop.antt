-- ===== src/Sim/Loop.antt =====
-- simulator/sim_main.cpp: the main loop. The core that Verilator makes of the RTL is a parameter.
pub mod Laws
use tartaruga.Base.{
  ℕ, Bool, true, false, ◌&&◌, not, ◌+◌, ◌-◌, ◌%◌, zero, suc, leb, if◌then◌else◌, add32, Option,
  none, some, ◌≤◌, ◌<◌, ◌≡◌, ◌⊎◌, inl, inr, arith, Bool-cases, word_mod,
}

-- `Vtop`: `fall` and `rise` set `clk_i` and evaluate.
pub record Core : Type 1 where
  pub State : Type 0
  pub fall : State → State
  pub rise : State → State
  pub commit_valid : State → Bool
  pub got_finish : State → Bool

module _ (c : Core) where
  -- The variables of the loop; the counters are `uint32_t`.
  pub record Run : Type 0 where
    pub core : c.State
    pub cycles_without_commit : ℕ
    pub total_cycles : ℕ
    pub commited_instructions : ℕ

  -- The condition of the `while`.
  unfoldable pub goes_on : Run → Bool
  goes_on r = not (c.got_finish r.core) && leb r.cycles_without_commit 100

  unfoldable pub cycle : Run → Run
  cycle r =
      let low = c.fall r.core in
      if c.commit_valid low
      then record {
        core = c.rise low;
        cycles_without_commit = 0;
        total_cycles = add32 r.total_cycles 1;
        commited_instructions = add32 r.commited_instructions 1;
      }
      else record {
        core = c.rise low;
        cycles_without_commit = add32 r.cycles_without_commit 1;
        total_cycles = add32 r.total_cycles 1;
        commited_instructions = r.commited_instructions;
      }

  -- The loop with fuel; `none` if the fuel runs out.
  unfoldable pub main_loop : ℕ → Run → Option Run
  unfolding goes_on cycle
  main_loop zero r = none
  main_loop (suc fuel) r = let rest = main_loop fuel (cycle r) in if goes_on r then rest else some r
