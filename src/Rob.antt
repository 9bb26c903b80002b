-- ===== src/Rob.antt =====
-- rtl/datapath/wb/rob.sv: the reorder buffer, a ring of ROB_SIZE entries. One call of `rob_step`
-- is a clock cycle; the module's outputs are functions of the state and of the inputs.
pub mod Queue
pub mod Ring
pub mod Refines
pub mod Hazard
use tartaruga.Base.{
  ℕ, Bool, true, false, ◌&&◌, ◌||◌, not, ◌+◌, ◌-◌, ◌%◌, ◌==◌, if◌then◌else◌, update, zero, suc,
}
use tartaruga.Base.{Option, none, some}

-- rob_entry_t
pub record Entry : Type 0 where
  pub valid : Bool
  pub completed : Bool
  pub pc : ℕ
  pub instr : ℕ
  pub addr_rd : ℕ
  pub write_enable : Bool
  pub store_to_mem : Bool
  pub result : ℕ
  pub new_pc : ℕ
  pub branch_taken : Bool
  pub store_buffer_idx : ℕ
  pub kanata_id : ℕ

abbrev pub empty_entry : Entry
empty_entry = record {
  valid = false;
  completed = false;
  pc = 0;
  instr = 0;
  addr_rd = 0;
  write_enable = false;
  store_to_mem = false;
  result = 0;
  new_pc = 0;
  branch_taken = false;
  store_buffer_idx = 0;
  kanata_id = 0;
}

pub record Rob : Type 0 where
  pub entries : ℕ → Entry
  pub head : ℕ
  pub tail : ℕ

-- The inputs of one cycle: from decode, then from write-back.
pub record Inputs : Type 0 where
  pub valid_decode : Bool
  pub pc_i : ℕ
  pub instr_i : ℕ
  pub rd_addr_i : ℕ
  pub write_enable_i : Bool
  pub store_to_mem_i : Bool
  pub kanata_id_i : ℕ
  pub rob_entry_commit : ℕ
  pub valid_wb : Bool
  pub result_i : ℕ
  pub new_pc_i : ℕ
  pub branch_taken_i : Bool
  pub store_buffer_idx_i : ℕ

unfoldable pub reset : Rob
reset = record { entries = λ i. empty_entry; head = 0; tail = 0 }

-- Full when the next tail equals head and head is valid.
unfoldable pub rob_full : Rob → Bool
rob_full r = (r.tail + 1) % 16 == r.head && (r.entries r.head).valid

-- "New data from decode": the entry keeps the fields that decode does not give.
unfoldable pub allocated : Inputs → Entry → Entry
allocated x e = record e {
  valid = true;
  pc = x.pc_i;
  instr = x.instr_i;
  addr_rd = x.rd_addr_i;
  write_enable = x.write_enable_i;
  store_to_mem = x.store_to_mem_i;
  completed = false;
  kanata_id = x.kanata_id_i;
}

-- "Update from wb".
unfoldable pub completion : Inputs → Entry → Entry
completion x e = record e {
  completed = true;
  result = x.result_i;
  new_pc = x.new_pc_i;
  branch_taken = x.branch_taken_i;
  store_buffer_idx = x.store_buffer_idx_i;
}

-- rob_d after the allocation.
unfoldable pub alloc : Rob → Inputs → ℕ → Entry
unfolding allocated
alloc r x =
    if x.valid_decode then update r.entries r.tail (allocated x (r.entries r.tail)) else r.entries

-- rob_d after the update from write-back, whose guard reads rob_q.
unfoldable pub write_back : Rob → Inputs → (ℕ → Entry) → ℕ → Entry
unfolding completion
write_back r x d =
    if x.valid_wb && (r.entries x.rob_entry_commit).valid
    then update d x.rob_entry_commit (completion x (d x.rob_entry_commit))
    else d

-- commit_valid_o
unfoldable pub commit_valid : Rob → Bool
commit_valid r = (r.entries r.head).valid && (r.entries r.head).completed

-- The commit outputs: the head's entry, if it commits.
unfoldable pub commit_out : Rob → Option Entry
unfolding commit_valid
commit_out r = if commit_valid r then some (r.entries r.head) else none

-- rob_d after the commit.
unfoldable pub retire : Rob → (ℕ → Entry) → ℕ → Entry
unfolding commit_valid
retire r d = if commit_valid r then update d r.head (record (d r.head) { valid = false }) else d

-- The condition of the flush: the committed instruction is a taken branch.
unfoldable pub flush : Rob → Bool
unfolding commit_valid
flush r = commit_valid r && (r.entries r.head).branch_taken

-- rob_d before the flush.
unfoldable pub updated : Rob → Inputs → ℕ → Entry
unfolding alloc write_back retire
updated r x = retire r (write_back r x (alloc r x))

unfoldable pub rob_step : Rob → Inputs → Rob
unfolding updated flush
rob_step r x =
    if flush r
    then record { entries = λ i. record (updated r x i) { valid = false }; head = 0; tail = 0 }
    else record {
      entries = updated r x;
      head = if commit_valid r then (r.head + 1) % 16 else r.head;
      tail = if x.valid_decode then (r.tail + 1) % 16 else r.tail;
    }

-- still_alive_o reads rob_d.
unfoldable pub still_alive : Rob → Inputs → ℕ → Bool
unfolding rob_step
still_alive r x i = ((rob_step r x).entries i).valid

-- The outer condition on an entry in the hazard search.
abbrev pub is_writer : ℕ → Entry → Bool
is_writer rs e = e.valid && (e.addr_rd == rs && e.write_enable && not (e.addr_rd == 0))

-- The hazard loop, from index `i` down to the tail: the newest valid entry that writes `rs`.
-- It runs 15 rounds, for the indices other than the tail.
unfoldable pub scan : (ℕ → Entry) → ℕ → ℕ → ℕ → Option ℕ
scan q rs zero i = none
scan q rs (suc left) i =
    let rest = scan q rs left ((i + 15) % 16) in if is_writer rs (q i) then some i else rest

-- hazard_rs1_o and rob_entry_rs1_o (or those of rs2).
unfoldable pub hazard : Rob → ℕ → Option ℕ
unfolding scan
hazard r rs = scan r.entries rs 15 ((r.tail + 15) % 16)

-- completed_rs1_o and result_rs1_o (or those of rs2), by the hazard found.
abbrev pub hazard_completed : Rob → Option ℕ → Bool
hazard_completed r none = false
hazard_completed r (some i) = (r.entries i).completed

abbrev pub hazard_result : Rob → Option ℕ → ℕ
hazard_result r none = 0
hazard_result r (some i) = (r.entries i).result

-- The loop over rob_d: whether an entry below `n` is a store of slot `k` of the store buffer.
unfoldable pub discards : (ℕ → Entry) → ℕ → ℕ → Bool
discards d k zero = false
discards d k (suc i) =
    (d i).valid && (d i).store_to_mem && (d i).store_buffer_idx == k || discards d k i

-- discard_store_buffer_o
unfoldable pub discard_store_buffer : Rob → Inputs → ℕ → Bool
unfolding flush updated discards
discard_store_buffer r x k = flush r && discards (updated r x) k 16
