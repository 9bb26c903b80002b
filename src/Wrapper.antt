-- ===== src/Wrapper.antt =====
-- rtl/caches/dmem_wrapper.sv: the delay lines between the data cache and the DPI memory.
pub mod Pipes
pub mod Latency
pub mod Lines
use tartaruga.Base.{
  ℕ, zero, suc, Bool, true, false, not, ◌&&◌, ◌+◌, ◌-◌, ◌*◌, ◌==◌, if◌then◌else◌, add32,
}
use tartaruga.Sim.Memory.{Memory, read_mem, write_mem}

-- LAT
abbrev pub lat : ℕ
lat = 5

-- One stage of the request pipes, and the request inputs.
pub record Request : Type 0 where
  pub valid : Bool
  pub addr : ℕ
  pub we : Bool
  pub words : ℕ → ℕ

-- One stage of the response pipes.
pub record Response : Type 0 where
  pub valid : Bool
  pub addr : ℕ
  pub words : ℕ → ℕ

pub record Wrapper : Type 0 where
  pub req : ℕ → Request
  pub rsp : ℕ → Response

-- Word `i` of the line at an address. The first read clears an uninitialized memory.
unfoldable pub read_line : Memory → ℕ → ℕ → ℕ
read_line m addr i = let (w, report, m') = read_mem m (add32 addr (i * 4)) in w

unfoldable pub write_word : ℕ → (ℕ → ℕ) → ℕ → Memory → Memory
write_word addr d i m = let (m', report) = write_mem m (add32 addr (i * 4)) (d i) in m'

unfoldable pub write_line : Memory → ℕ → (ℕ → ℕ) → Memory
unfolding write_word
write_line m addr d =
    write_word addr d 3 (write_word addr d 2 (write_word addr d 1 (write_word addr d 0 m)))

-- "Process memory operation": what enters the response pipes. A write leaves the data as they were.
unfoldable pub rsp_next : Wrapper → Memory → Response
unfolding read_line
rsp_next s m =
    let q = s.req (lat - 1) in
    if q.valid
    then record {
      valid = true;
      addr = q.addr;
      words = if q.we then (s.rsp 0).words else read_line m q.addr;
    }
    else record (s.rsp 0) { valid = false }

unfoldable pub memory_next : Wrapper → Memory → Memory
unfolding write_line
memory_next s m =
    let q = s.req (lat - 1) in
    if q.valid
    then if q.we
      then write_line m q.addr q.words
      else (let (w, report, m') = read_mem m q.addr in m')
    else m

-- The wrapper and the memory behind it.
pub record System : Type 0 where
  pub wrapper : Wrapper
  pub memory : Memory

unfoldable pub wrapper_step : System → Request → System
unfolding rsp_next memory_next
wrapper_step s x =
    let w = s.wrapper in
    record {
      wrapper = record {
        req = λ i. if i == 0 then x else w.req (i - 1);
        rsp = λ i. if i == 0 then rsp_next w s.memory else w.rsp (i - 1);
      };
      memory = memory_next w s.memory;
    }

-- The loops of req_ready_o.
unfoldable pub none_valid : (ℕ → Bool) → ℕ → Bool
none_valid v zero = true
none_valid v (suc n) = not (v n) && none_valid v n

unfoldable pub req_ready : Wrapper → Bool
unfolding none_valid
req_ready w = none_valid (λ i. (w.req i).valid) lat && none_valid (λ i. (w.rsp i).valid) lat

-- rsp_valid_o, rsp_mem_addr_o and data_line_o
abbrev pub response : Wrapper → Response
response w = w.rsp (lat - 1)
