-- ===== src/Tests/Buffers.antt =====
-- The reorder buffer and the store buffer with a few entries in them.
use tartaruga.Rob.Ring.{rob_full-Holds}
use tartaruga.Base.{
  ℕ, zero, suc, Bool, true, false, ◌%◌, ◌+◌, ◌<◌, ◌≡◌, ◌≢◌, ◌==◌, if◌then◌else◌, List, [], ◌∷◌,
  none, some, refl, arith, get_or,
}
use tartaruga.Rob
use tartaruga.Rob.{rob_step, rob_full, commit_out, hazard, Entry, Rob, empty_entry}
use tartaruga.Rob.Ring.{Holds as RobHolds}
use tartaruga.Rob.Queue.{queue_step as rob_queue_step, position}
use tartaruga.Rob.Refines.{rob_step-Holds}
use tartaruga.Rob.Hazard.{newest_writer, hazard-newest}
use tartaruga.StoreBuffer
use tartaruga.StoreBuffer.{Store, StoreBuffer, sb_step, sb_out, req_ready, bypass, empty_store}
use tartaruga.StoreBuffer.Refines.{Holds as StoreHolds, sb_step-Holds}
use tartaruga.StoreBuffer.Queue.{queue_step as store_queue_step}
use tartaruga.StoreBuffer.Bypass.{newest, bypass-newest, bypass-full_oldest}

-- An instruction in flight that writes register `rd`.
abbrev pub writer : ℕ → Bool → Entry
writer rd done = record empty_entry {
  valid = true;
  completed = done;
  addr_rd = rd;
  write_enable = true;
}

abbrev pub in_flight : List Entry
in_flight = writer 3 true ∷ writer 4 false ∷ []

-- The ring with the two instructions in its last and its first slot.
abbrev pub ring : Rob
ring = record {
  entries = λ i. if i == 15 then writer 3 true else if i == 0 then writer 4 false else empty_entry;
  head = 15;
  tail = 1;
}

two_slots : (k : ℕ) → k < 2 → ring.entries ((15 + k) % 16) ≡ get_or in_flight k empty_entry
two_slots zero p = refl
two_slots (suc zero) p = refl
two_slots (suc (suc k)) p = absurd (omega arith)

pub ring-Holds : RobHolds ring in_flight
ring-Holds = record {
  head_in = omega arith;
  size = omega arith;
  tail_at = refl;
  slots = two_slots;
  flags = λ i p. ground arith;
}

-- Decode allocates, and write-back completes the instruction of slot 0.
abbrev rob_inputs : tartaruga.Rob.Inputs
rob_inputs = record {
  valid_decode = true;
  pc_i = 0x110;
  instr_i = 0x33;
  rd_addr_i = 5;
  write_enable_i = true;
  store_to_mem_i = false;
  kanata_id_i = 9;
  rob_entry_commit = 0;
  valid_wb = true;
  result_i = 77;
  new_pc_i = 0;
  branch_taken_i = false;
  store_buffer_idx_i = 0;
}

rob_step-Holds_example :
    RobHolds
      (rob_step ring rob_inputs)
      (rob_queue_step in_flight rob_inputs (position 15 0) empty_entry)
rob_step-Holds_example =
    rob_step-Holds rob_inputs ring-Holds (omega arith)
      (λ p. ground (arith, rob_full-Holds ring-Holds))

hazard-newest_example : hazard ring 4 ≡ some 0
unfolding newest_writer
hazard-newest_example = hazard-newest ring-Holds 4

-- A store of `v` at address `a`.
abbrev pub pending : ℕ → ℕ → Store
pending a v = record empty_store { addr = a; st_data = v; valid = true }

abbrev pub waiting : List Store
waiting = pending 0x40 1 ∷ pending 0x44 2 ∷ pending 0x48 3 ∷ pending 0x4c 4 ∷ []

-- The full buffer, with its oldest store in slot 2.
abbrev pub full : StoreBuffer
full = record {
  entries = λ i.
      if i == 2
      then pending 0x40 1
      else if i == 3
      then pending 0x44 2
      else if i == 0
      then pending 0x48 3
      else pending 0x4c 4;
  head = 2;
  tail = 2;
}

four_slots : (k : ℕ) → k < 4 → full.entries ((2 + k) % 4) ≡ get_or waiting k empty_store
four_slots zero p = refl
four_slots (suc zero) p = refl
four_slots (suc (suc zero)) p = refl
four_slots (suc (suc (suc zero))) p = refl
four_slots (suc (suc (suc (suc k)))) p = absurd (omega arith)

pub full-Holds : StoreHolds full waiting
full-Holds = record {
  head_in = omega arith;
  size = omega arith;
  tail_at = refl;
  slots = four_slots;
  flags = λ k p. ground arith;
}

-- The store of slot 2 is discarded and the one of slot 3 commits.
abbrev store_inputs : tartaruga.StoreBuffer.Inputs
store_inputs = record {
  data_i = 5;
  addr_i = 0x50;
  req_valid = true;
  rsp_ready = true;
  commit = true;
  idx_commit = 3;
  discard = λ i. i == 2;
}

sb_step-Holds_example :
    StoreHolds (sb_step full store_inputs) (store_queue_step 2 waiting store_inputs)
sb_step-Holds_example = sb_step-Holds store_inputs full-Holds

bypass-newest_example : bypass full 0x48 ≡ some 3
unfolding newest
bypass-newest_example = bypass-newest full-Holds 0x48

others : (k : ℕ) → 0 < k → k < 4 → (get_or waiting k empty_store).addr ≢ 0x40
others zero p q = absurd (omega arith)
others (suc zero) p q = λ e. omega (arith, e)
others (suc (suc zero)) p q = λ e. omega (arith, e)
others (suc (suc (suc zero))) p q = λ e. omega (arith, e)
others (suc (suc (suc (suc k)))) p q = absurd (omega arith)

bypass-full_oldest_example : (newest waiting 0x40 0 4 ≡ some 1) × (bypass full 0x40 ≡ none)
unfolding newest
bypass-full_oldest_example = bypass-full_oldest full-Holds 0x40 refl refl others
