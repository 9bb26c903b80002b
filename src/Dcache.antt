-- ===== src/Dcache.antt =====
-- rtl/caches/dcache.sv: the data cache, direct-mapped and write-through, 16 lines of 4 words. A line
-- of 128 bits is the list of its words as a function of their number. `dcache_step` is a clock
-- cycle, the outputs are functions of the state and of the inputs.
pub mod Coherent
pub mod Reach
use tartaruga.Base.{
  ℕ, Bool, true, false, ◌&&◌, ◌||◌, not, ◌+◌, ◌-◌, ◌*◌, ◌==◌, if◌then◌else◌, update, bits,
}

abbrev pub Line : Type 0
Line = ℕ → ℕ

-- cache_line_t
pub record CacheLine : Type 0 where
  pub valid : Bool
  pub tag : ℕ
  pub words : Line

pub data CacheState : Type 0 where
  idle miss load_line : CacheState

pub record Dcache : Type 0 where
  pub lines : ℕ → CacheLine
  pub state : CacheState

-- The inputs: the access, and the channels from memory.
pub record Inputs : Type 0 where
  pub addr : ℕ
  pub data_wr : ℕ
  pub we : Bool
  pub req : Bool
  pub mem_req_ready : Bool
  pub mem_data_line : Line
  pub mem_rsp_valid : Bool

unfoldable pub reset : Dcache
reset = record { lines = λ i. record { valid = false; tag = 0; words = λ k. 0 }; state = idle }

abbrev pub index : ℕ → ℕ
index a = bits a 4 4

abbrev pub tag_in : ℕ → ℕ
tag_in a = bits a 8 24

abbrev pub word_offset : ℕ → ℕ
word_offset a = bits a 2 2

-- `{addr_i[31:OFFSET_BITS], {OFFSET_BITS{1'b0}}}`
abbrev pub line_aligned : ℕ → ℕ
line_aligned a = bits a 4 28 * 16

unfoldable pub hit : Dcache → ℕ → Bool
hit d a = (d.lines (index a)).valid && (d.lines (index a)).tag == tag_in a

abbrev pub is_idle : CacheState → Bool
is_idle idle = true
is_idle _ = false

unfoldable pub ready : Dcache → Inputs → Bool
unfolding hit
ready d x =
    is_idle d.state
    && (not x.req || hit d x.addr && not x.we || hit d x.addr && (x.we && x.mem_rsp_valid))

unfoldable pub next_state : Dcache → Inputs → CacheState
unfolding hit
next_state d x = elim d.state [
  | idle ↦ if x.req && not (hit d x.addr) then miss else idle
  | miss ↦ if x.mem_rsp_valid then load_line else miss
  | load_line ↦ idle
]

-- data_rd_o
unfoldable pub data_rd : Dcache → Inputs → ℕ
unfolding hit
data_rd d x = elim d.state [
  | idle ↦
      if x.req && hit d x.addr && not x.we
      then (d.lines (index x.addr)).words (word_offset x.addr)
      else 0
  | _ ↦ 0
]

-- A request on the memory channel.
pub record MemRequest : Type 0 where
  pub valid : Bool
  pub address : ℕ
  pub we : Bool
  pub data_wr : Line

abbrev pub no_request : MemRequest
no_request = record { valid = false; address = 0; we = false; data_wr = λ k. 0 }

-- mem_req_valid_o, mem_addr_o, mem_we_o and mem_data_wr_o.
unfoldable pub mem_request : Dcache → Inputs → MemRequest
unfolding hit
mem_request d x = elim d.state [
  | idle ↦
      if x.req && hit d x.addr && x.we
      then record {
        valid = true;
        address = line_aligned x.addr;
        we = true;
        data_wr = update (d.lines (index x.addr)).words (word_offset x.addr) x.data_wr;
      }
      else no_request
  | miss ↦
      if x.mem_req_ready
      then record { valid = true; address = line_aligned x.addr; we = false; data_wr = λ k. 0 }
      else no_request
  | load_line ↦ no_request
]

-- `line`, `tag` and `valid`: what the indexed line becomes.
unfoldable pub line_next : Dcache → Inputs → CacheLine
unfolding hit
line_next d x =
    let old = d.lines (index x.addr) in
    elim d.state [
      | idle ↦
          if x.req && hit d x.addr && x.we
          then record old { words = update old.words (word_offset x.addr) x.data_wr }
          else old
      | miss ↦ old
      | load_line ↦ record { valid = true; tag = tag_in x.addr; words = x.mem_data_line }
    ]

unfoldable pub dcache_step : Dcache → Inputs → Dcache
unfolding next_state line_next
dcache_step d x = record {
  lines = update d.lines (index x.addr) (line_next d x);
  state = next_state d x;
}
