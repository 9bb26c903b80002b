-- ===== src/Rob/Queue.antt =====
-- The abstract view of rtl/datapath/wb/rob.sv: a queue of the instructions in flight, oldest first.
use tartaruga.Base.{
  ℕ, Bool, true, false, ◌&&◌, ◌+◌, ◌-◌, ◌%◌, if◌then◌else◌, List, [], ◌∷◌, ◌++◌, set, get_or, drop,
  ltb, length,
}
use tartaruga.Rob.{Entry, Inputs, empty_entry}

-- The position in the queue of a ring index.
abbrev pub position : ℕ → ℕ → ℕ
position head i = (i + 16 - head) % 16

abbrev pub first : List Entry → Entry
first q = get_or q 0 empty_entry

-- The oldest instruction is ready.
abbrev pub ready : List Entry → Bool
ready q = ltb 0 (length q) && (first q).completed

-- An instruction with its result, as write-back sends it.
unfoldable pub finished : Inputs → Entry → Entry
finished x e = record {
  valid = e.valid;
  completed = true;
  pc = e.pc;
  instr = e.instr;
  addr_rd = e.addr_rd;
  write_enable = e.write_enable;
  store_to_mem = e.store_to_mem;
  result = x.result_i;
  new_pc = x.new_pc_i;
  branch_taken = x.branch_taken_i;
  store_buffer_idx = x.store_buffer_idx_i;
  kanata_id = e.kanata_id;
}

-- An instruction as decode sends it, not completed; the fields of a result are left over.
unfoldable pub decoded : Inputs → Entry → Entry
decoded x fresh = record {
  valid = true;
  completed = false;
  pc = x.pc_i;
  instr = x.instr_i;
  addr_rd = x.rd_addr_i;
  write_enable = x.write_enable_i;
  store_to_mem = x.store_to_mem_i;
  result = fresh.result;
  new_pc = fresh.new_pc;
  branch_taken = fresh.branch_taken;
  store_buffer_idx = fresh.store_buffer_idx;
  kanata_id = x.kanata_id_i;
}

-- A result from write-back for the instruction at position `k`, if there is one.
abbrev pub record_result : Inputs → ℕ → List Entry → List Entry
record_result x k q =
    if x.valid_wb && ltb k (length q) then set q k (finished x (get_or q k empty_entry)) else q

-- One cycle: a taken branch that commits empties the queue; otherwise the result is recorded, the
-- oldest leaves if it was ready, and the new instruction joins at the end. `fresh` is what is
-- left over in the slot of the new entry.
abbrev pub queue_step : List Entry → Inputs → ℕ → Entry → List Entry
queue_step q x k fresh =
    if ready q && (first q).branch_taken
    then []
    else (let kept = record_result x k q in if ready q then drop 1 kept else kept)
      ++ (if x.valid_decode then decoded x fresh ∷ [] else [])
