-- ===== src/Frontend.antt =====
-- rtl/datapath/fetch/fetch.sv: the program counter, the instruction cache and the wrapper of its
-- memory, connected.
pub mod Correct
pub mod Miss
use tartaruga.Base.{ℕ, Bool, true, false}
use tartaruga.Fetch
use tartaruga.Fetch.{FetchState, fetch_step}
use tartaruga.Icache
use tartaruga.Icache.{Icache, icache_step, line_aligned}
use tartaruga.Imem
use tartaruga.Imem.{Imem, imem_step}
use tartaruga.Sim.Memory.{Memory}

pub record Frontend : Type 0 where
  pub counter : FetchState
  pub icache : Icache
  pub imem : Imem

pub record Inputs : Type 0 where
  pub taken_branch : Bool
  pub new_pc : ℕ
  pub stall : Bool

unfoldable pub reset : Frontend
reset = record {
  counter = tartaruga.Fetch.reset;
  icache = tartaruga.Icache.reset;
  imem = tartaruga.Imem.reset;
}

-- The inputs of `icache`.
unfoldable pub icache_inputs : Frontend → tartaruga.Icache.Inputs
icache_inputs s = record {
  pc = s.counter.pc_q;
  req_ready = tartaruga.Imem.req_ready s.imem;
  instr_line = s.imem.words 4;
  rsp_valid = s.imem.valid 4;
  rsp_addr = s.imem.addr 4;
}

-- The inputs of `imem_wrapper`.
unfoldable pub imem_inputs : Frontend → tartaruga.Imem.Inputs
imem_inputs s = record {
  req_valid = tartaruga.Icache.req_valid s.icache s.counter.pc_q;
  pc = line_aligned s.counter.pc_q;
  rsp_ready = true;
}

-- A clock cycle, with the memory that the DPI calls reach.
unfoldable pub frontend_step : Memory → Frontend → Inputs → Frontend
frontend_step m s x = record {
  counter = fetch_step s.counter x.stall x.taken_branch x.new_pc;
  icache = icache_step s.icache (icache_inputs s);
  imem = imem_step m s.imem (imem_inputs s);
}

-- valid_o
unfoldable pub valid_out : Frontend → Bool
valid_out s = tartaruga.Icache.hit s.icache s.counter.pc_q

-- instr_o
unfoldable pub instr_out : Frontend → ℕ
instr_out s = tartaruga.Icache.instr s.icache s.counter.pc_q
