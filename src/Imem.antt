-- ===== src/Imem.antt =====
-- rtl/caches/imem_wrapper.sv: the pipes between the instruction cache and the DPI memory. The array
-- `imem` that the module fills is not read.
pub mod Pipes
pub mod Latency
pub mod Answers
use tartaruga.Base.{
  ℕ, zero, suc, Bool, true, false, not, ◌&&◌, ◌+◌, ◌-◌, ◌*◌, ◌==◌, if◌then◌else◌, add32, update,
}
use tartaruga.Sim.Memory.{Memory, read_mem}
use tartaruga.Wrapper.{none_valid}

-- LAT
abbrev pub lat : ℕ
lat = 5

-- req_valid_pipe, req_addr_pipe, valid_pipe, data_pipe and rsp_mem_addr_pipe.
pub record Imem : Type 0 where
  pub req_valid : ℕ → Bool
  pub req_addr : ℕ → ℕ
  pub valid : ℕ → Bool
  pub words : ℕ → ℕ → ℕ
  pub addr : ℕ → ℕ

pub record Inputs : Type 0 where
  pub req_valid : Bool
  pub pc : ℕ
  pub rsp_ready : Bool

unfoldable pub reset : Imem
reset = record {
  req_valid = λ i. false;
  req_addr = λ i. 0;
  valid = λ i. false;
  words = λ i k. 0;
  addr = λ i. 0;
}

unfoldable pub req_ready : Imem → Bool
unfolding none_valid
req_ready q = none_valid q.valid lat && none_valid q.req_valid lat

-- Word `k` of the line at an address.
unfoldable pub read_line : Memory → ℕ → ℕ → ℕ
read_line m a k = let (w, report, m') = read_mem m (add32 a (k * 4)) in w

-- A round of the loop, for the stages `i` and `i + 1`: `q` is the state before the cycle, `d` what
-- is assigned so far.
unfoldable pub shift_stage : Imem → ℕ → Imem → Imem
shift_stage q i d = record {
  req_valid = update d.req_valid (suc i) (q.req_valid i);
  req_addr = update d.req_addr (suc i) (q.req_addr i);
  valid = if q.valid (suc i) then d.valid else update (update d.valid (suc i) (q.valid i)) i false;
  words = if q.valid (suc i) then d.words else update d.words (suc i) (q.words i);
  addr = if q.valid (suc i) then d.addr else update d.addr (suc i) (q.addr i);
}

unfoldable pub shift : Imem → ℕ → Imem → Imem
unfolding shift_stage
shift q zero d = d
shift q (suc i) d = shift q i (shift_stage q i d)

-- The response that is taken leaves the pipe.
unfoldable pub take_response : Imem → Bool → Imem
take_response q rsp_ready =
    if q.valid (lat - 1) && rsp_ready
    then record q { valid = update q.valid (lat - 1) false }
    else q

-- A request at the end of its pipes is read from memory.
unfoldable pub read_request : Memory → Imem → Imem → Imem
unfolding read_line
read_request m q d =
    if q.req_valid (lat - 1)
    then record d {
      words = update d.words 0 (read_line m (q.req_addr (lat - 1)));
      valid = update d.valid 0 true;
      addr = update d.addr 0 (q.req_addr (lat - 1));
    }
    else d

unfoldable pub imem_step : Memory → Imem → Inputs → Imem
unfolding shift take_response read_request
imem_step m q x =
    let d = read_request m q (shift q (lat - 1) (take_response q x.rsp_ready)) in
    record d { req_valid = update d.req_valid 0 x.req_valid; req_addr = update d.req_addr 0 x.pc }
