-- ===== src/Dmem.antt =====
-- rtl/datapath/mem/mem.sv: the data cache connected to the wrapper of the memory.
pub mod Run
pub mod Refill
pub mod Stale
use tartaruga.Base.{ℕ, Bool, true, false}
use tartaruga.Dcache
use tartaruga.Dcache.{Dcache, dcache_step, data_rd, ready, mem_request}
use tartaruga.Wrapper
use tartaruga.Wrapper.{System, Request, wrapper_step, req_ready, response}

pub record Dmem : Type 0 where
  pub cache : Dcache
  pub system : System

-- What the memory stage asks of the cache in a cycle.
pub record Access : Type 0 where
  pub addr : ℕ
  pub data_wr : ℕ
  pub we : Bool
  pub req : Bool

-- The inputs of `dcache_inst`.
unfoldable pub cache_inputs : Dmem → Access → tartaruga.Dcache.Inputs
cache_inputs s x = record {
  addr = x.addr;
  data_wr = x.data_wr;
  we = x.we;
  req = x.req;
  mem_req_ready = req_ready s.system.wrapper;
  mem_data_line = (response s.system.wrapper).words;
  mem_rsp_valid = (response s.system.wrapper).valid;
}

-- The inputs of `dmem_wrapper_inst`.
unfoldable pub wrapper_request : Dmem → Access → Request
wrapper_request s x =
    let q = mem_request s.cache (cache_inputs s x) in
    record { valid = q.valid; addr = q.address; we = q.we; words = q.data_wr }

unfoldable pub dmem_ready : Dmem → Access → Bool
dmem_ready s x = ready s.cache (cache_inputs s x)

unfoldable pub dmem_data : Dmem → Access → ℕ
dmem_data s x = data_rd s.cache (cache_inputs s x)

unfoldable pub dmem_step : Dmem → Access → Dmem
dmem_step s x = record {
  cache = dcache_step s.cache (cache_inputs s x);
  system = wrapper_step s.system (wrapper_request s x);
}
