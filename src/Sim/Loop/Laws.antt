-- ===== src/Sim/Loop/Laws.antt =====
-- simulator/sim_main.cpp: the end of the main loop and its counters.
use tartaruga.Base.{
  ℕ, true, false, ◌+◌, zero, suc, some, ◌≤◌, ◌<◌, ◌≡◌, ◌⊎◌, inl, inr, arith, Bool-cases, word_mod,
}
use tartaruga.Sim.Loop.{Core, Run, goes_on, cycle, main_loop}

module _ (c : Core) where
  -- The core after `n` cycles of the loop's body.
  pub cycles : ℕ → Run c → Run c
  cycles zero r = r
  cycles (suc n) r = cycles n (cycle c r)

  -- What holds of the counters.
  pub record IsCounted (r : Run c) : Type 0 where
    pub commits : r.commited_instructions + r.cycles_without_commit ≤ r.total_cycles
    pub waiting : r.cycles_without_commit ≤ 101

  stops :
      (r : Run c)
      → goes_on c r ≡ false
      → IsCounted r
      → (c.got_finish r.core ≡ true) ⊎ (r.cycles_without_commit ≡ 101)
  unfolding goes_on
  stops r e k = ground arith

  cycle-IsCounted :
      (r : Run c)
      → goes_on c r ≡ true
      → IsCounted r
      → r.total_cycles + 1 < word_mod
      → IsCounted (cycle c r) × ((cycle c r).total_cycles ≡ r.total_cycles + 1)
  unfolding goes_on cycle
  cycle-IsCounted r g k w = ground arith

  -- When the main loop returns, the core finished or 101 cycles have gone by with no commit. If the
  -- total stays below 2 ^ 32, the committed instructions and the cycles since the last commit are
  -- together at most all cycles, and the loop has counted at most as many cycles as it had fuel.
  main_loop-IsCounted :
      (fuel : ℕ) (r e : Run c)
      → IsCounted r
      → r.total_cycles + fuel < word_mod
      → main_loop c fuel r ≡ some e
      → IsCounted e
        × ((c.got_finish e.core ≡ true) ⊎ (e.cycles_without_commit ≡ 101))
        × (e.total_cycles ≤ r.total_cycles + fuel)
  unfolding main_loop
  main_loop-IsCounted zero r e k w h = absurd (cc)
  main_loop-IsCounted (suc fuel) r e k w h = elim (Bool-cases (goes_on c r)) [
    | inl g ↦
        let n = cycle-IsCounted r g k (omega arith) in
        let i = main_loop-IsCounted fuel (cycle c r) e n.0 (omega arith) (rw g at h) in
        (i.0, i.1, omega arith)
    | inr g ↦
        let h' = rw g at h in let same : r ≡ e = cc h' in rw (← same) (k, stops r g k, omega arith)
  ]

  cycle-idle :
      (r : Run c)
      → c.commit_valid (c.fall r.core) ≡ false
      → r.cycles_without_commit ≤ 100
      → (cycle c r).cycles_without_commit ≡ r.cycles_without_commit + 1
  unfolding cycle
  cycle-idle r n b = rw n (omega arith)

  stuck : (r : Run c) → r.cycles_without_commit ≡ 101 → goes_on c r ≡ false
  unfolding goes_on
  stuck r e = ground arith

  -- The main loop ends on a core that commits nothing in the cycles up to the limit: with more fuel
  -- than the cycles that are left until 101 without a commit, the loop returns a state.
  pub main_loop-timeout :
      (left fuel : ℕ) (r : Run c)
      → r.cycles_without_commit + left ≡ 101
      → left < fuel
      → ((n : ℕ) → n < left → c.commit_valid (c.fall (cycles n r).core) ≡ false)
      → (e : Run c) × (main_loop c fuel r ≡ some e)
  unfolding main_loop cycles
  main_loop-timeout left zero r w f h = absurd (omega arith)
  main_loop-timeout zero (suc fuel) r w f h = (r, rw (stuck r (omega arith)))
  main_loop-timeout (suc left) (suc fuel) r w f h = elim (Bool-cases (goes_on c r)) [
    | inl g ↦
        let i = cycle-idle r (h 0 (omega arith)) (omega arith) in
        rw g (
          main_loop-timeout left fuel (cycle c r) (omega arith) (omega arith)
            (λ n p. h (suc n) (omega arith)))
    | inr g ↦ (r, rw g)
  ]
