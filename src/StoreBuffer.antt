-- ===== src/StoreBuffer.antt =====
-- rtl/datapath/mem/store_buffer.sv: the stores that wait for their commit, in a ring of 4.
pub mod Queue
pub mod Refines
pub mod Bypass
pub mod Reach
use tartaruga.Base.{
  ℕ, Bool, true, false, ◌&&◌, ◌||◌, not, ◌+◌, ◌-◌, ◌%◌, ◌==◌, if◌then◌else◌, update, zero, suc,
  Option, none, some,
}

-- store_buffer_entry_t
pub record Store : Type 0 where
  pub st_data : ℕ
  pub addr : ℕ
  pub valid : Bool
  pub committed : Bool
  pub discarded : Bool

abbrev pub empty_store : Store
empty_store = record { st_data = 0; addr = 0; valid = false; committed = false; discarded = false }

pub record StoreBuffer : Type 0 where
  pub entries : ℕ → Store
  pub head : ℕ
  pub tail : ℕ

pub record Inputs : Type 0 where
  pub data_i : ℕ
  pub addr_i : ℕ
  pub req_valid : Bool
  pub rsp_ready : Bool
  pub commit : Bool
  pub idx_commit : ℕ
  pub discard : ℕ → Bool

unfoldable pub reset : StoreBuffer
reset = record { entries = λ i. empty_store; head = 0; tail = 0 }

unfoldable pub req_ready : StoreBuffer → Bool
req_ready s = not (s.tail == s.head && (s.entries s.head).valid)

abbrev pub new_store : Inputs → Store
new_store x = record {
  st_data = x.data_i;
  addr = x.addr_i;
  valid = true;
  committed = false;
  discarded = false;
}

-- The new entry.
unfoldable pub accepts : StoreBuffer → Inputs → Bool
unfolding req_ready
accepts s x = x.req_valid && req_ready s

unfoldable pub accept : StoreBuffer → Inputs → ℕ → Store
unfolding accepts
accept s x = if accepts s x then update s.entries s.tail (new_store x) else s.entries

-- rsp_valid_o: the head is offered to the data cache.
unfoldable pub rsp_valid : StoreBuffer → Bool
rsp_valid s = (s.entries s.head).valid && (s.entries s.head).committed

-- The head leaves, to the cache or as a discarded store.
unfoldable pub leaves : StoreBuffer → Inputs → Bool
unfolding rsp_valid
leaves s x =
    if rsp_valid s then x.rsp_ready else (s.entries s.head).valid && (s.entries s.head).discarded

unfoldable pub release : StoreBuffer → Inputs → (ℕ → Store) → ℕ → Store
unfolding leaves
release s x d = if leaves s x then update d s.head (record (d s.head) { valid = false }) else d

-- The commit signal, then the discard signals.
unfoldable pub mark : Inputs → ℕ → Store → Store
mark x i e = record e {
  committed = e.committed || (x.commit && x.idx_commit == i);
  discarded = e.discarded || x.discard i;
}

unfoldable pub sb_step : StoreBuffer → Inputs → StoreBuffer
unfolding accept release mark
sb_step s x = record {
  entries = λ i. mark x i (release s x (accept s x) i);
  head = if leaves s x then (s.head + 1) % 4 else s.head;
  tail = if accepts s x then (s.tail + 1) % 4 else s.tail;
}

-- addr_o and data_wr_o, when the head is offered.
unfoldable pub sb_out : StoreBuffer → Option (ℕ × ℕ)
unfolding rsp_valid
sb_out s = if rsp_valid s then some ((s.entries s.head).addr, (s.entries s.head).st_data) else none

-- The search for a store to the address of a load, from index `i` down to the tail.
unfoldable pub search_from : (ℕ → Store) → ℕ → ℕ → ℕ → Option ℕ
search_from q a zero i = none
search_from q a (suc left) i =
    let rest = search_from q a left ((i + 3) % 4) in
    if (q i).valid && (q i).addr == a then some (q i).st_data else rest

-- bypass_o and data_rd_o. The loop leaves out the index `tail`: it runs 3 rounds.
unfoldable pub bypass : StoreBuffer → ℕ → Option ℕ
unfolding search_from
bypass s a = search_from s.entries a 3 ((s.tail + 3) % 4)
