-- ===== src/StoreBuffer/Reach.antt =====
-- rtl/datapath/mem/store_buffer.sv: the states that clock cycles lead to.
use tartaruga.Base.{List, [], arith, refl}
use tartaruga.StoreBuffer
use tartaruga.StoreBuffer.{StoreBuffer, Store, Inputs, sb_step}
use tartaruga.StoreBuffer.Refines.{Holds, sb_step-Holds}

-- The states from reset on, with any inputs.
pub data IsReachable : StoreBuffer → Type 0 where
  at_reset : IsReachable tartaruga.StoreBuffer.reset
  cycle : {s : StoreBuffer} (x : Inputs) → IsReachable s → IsReachable (sb_step s x)

reset_buffer-Holds : Holds tartaruga.StoreBuffer.reset []
unfolding tartaruga.StoreBuffer.reset
reset_buffer-Holds = record {
  head_in = omega arith;
  size = omega arith;
  tail_at = refl;
  slots = λ k p. absurd (omega arith);
  flags = λ i p. ground arith;
}

-- In every state that clock cycles lead to from reset, whatever the inputs, the store buffer holds
-- a queue of at most 4 stores.
IsReachable-Holds : {s : StoreBuffer} → IsReachable s → (q : List Store) × Holds s q
IsReachable-Holds at_reset = ([], reset_buffer-Holds)
IsReachable-Holds (cycle x r) = let (q, h) = IsReachable-Holds r in (_, sb_step-Holds x h)
