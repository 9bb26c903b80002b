-- ===== src/Datapath/Reach.antt =====
-- rtl/datapath/datapath.sv: the states of the reorder buffer that clock cycles lead to.
use tartaruga.Base.{◌<◌, List, [], arith, refl}
use tartaruga.Pkg.{InstrData}
use tartaruga.Rob
use tartaruga.Rob.{Rob, Entry}
use tartaruga.Rob.Ring.{Holds}
use tartaruga.Datapath.{Wires, datapath_rob}
use tartaruga.Datapath.Operands.{datapath_rob-Holds}

-- The states from reset on, whatever the other stages send.
pub data Reachable : Rob → Type 0 where
  at_reset : Reachable tartaruga.Rob.reset
  cycle :
      {r : Rob} (w : Wires) (d : InstrData)
      → w.mem_to_wb_q.instr.rob_idx < 16
      → Reachable r
      → Reachable (datapath_rob r w d)

pub reset-Holds : Holds tartaruga.Rob.reset []
unfolding tartaruga.Rob.reset
reset-Holds = record {
  head_in = omega arith;
  size = omega arith;
  tail_at = refl;
  slots = λ k p. absurd (omega arith);
  flags = λ i p. ground arith;
}

-- In every state that clock cycles of the datapath lead to from reset, with write-back naming slots
-- below 16, the reorder buffer holds a queue of at most 15 instructions.
Reachable-Holds : {r : Rob} → Reachable r → (q : List Entry) × Holds r q
Reachable-Holds at_reset = ([], reset-Holds)
Reachable-Holds (cycle w d c s) = let (q, h) = Reachable-Holds s in (_, datapath_rob-Holds h w d c)
