-- ===== src/Rob/Ring.antt =====
-- rtl/datapath/wb/rob.sv: the queue that a ring holds, and what the outputs read of it.
use tartaruga.Base.{
  ℕ, false, ◌&&◌, ◌+◌, ◌%◌, ◌<◌, ◌≤◌, ◌≡◌, ◌==◌, if◌then◌else◌, List, length, get_or, ltb, arith,
  some, none, ap,
}
use tartaruga.Rob.{Rob, Entry, empty_entry, rob_full, commit_valid, commit_out, flush}
use tartaruga.Rob.Queue.{position, first, ready}

-- The ring holds the queue: entry `k` of the queue is `k` slots after the head, and just those
-- slots are valid. One slot stays free.
pub record Holds (r : Rob) (q : List Entry) : Type 0 where
  pub head_in : r.head < 16
  pub size : length q ≤ 15
  pub tail_at : r.tail ≡ (r.head + length q) % 16
  pub slots : (k : ℕ) → k < length q → r.entries ((r.head + k) % 16) ≡ get_or q k empty_entry
  pub flags : (i : ℕ) → i < 16 → (r.entries i).valid ≡ ltb (position r.head i) (length q)

pub position-add : (h k : ℕ) → h < 16 → k < 16 → position h ((h + k) % 16) ≡ k
position-add h k p q = omega arith

pub add-position : (h i : ℕ) → h < 16 → i < 16 → (h + position h i) % 16 ≡ i
add-position h i p q = omega arith

module _ {r : Rob} {q : List Entry} (h : Holds r q) where
  pub valid_slot : (k : ℕ) → k < 16 → (r.entries ((r.head + k) % 16)).valid ≡ ltb k (length q)
  valid_slot k p = ground (arith, h.flags ((r.head + k) % 16), position-add r.head k, h.head_in)

  -- Commit looks at the first of the queue.
  pub head_slot : 0 < length q → r.entries r.head ≡ first q
  head_slot p =
      let e : (r.head + 0) % 16 ≡ r.head = omega (arith, h.head_in) in
      ground (arith, h.slots 0, ap r.entries e)

  pub head_valid : (r.entries r.head).valid ≡ ltb 0 (length q)
  head_valid = ground (arith, h.flags r.head, h.head_in)

  pub commit_valid-Holds : commit_valid r ≡ ready q
  unfolding commit_valid
  commit_valid-Holds = ground (arith, head_slot, head_valid)

  -- When the ring holds a queue, the commit outputs show the first instruction of the queue if it
  -- has completed, and otherwise no instruction.
  commit_out-Holds : commit_out r ≡ (if ready q then some (first q) else none)
  unfolding commit_out
  commit_out-Holds = ground (arith, head_slot, commit_valid-Holds)

  pub flush-Holds : flush r ≡ (ready q && (first q).branch_taken)
  unfolding flush
  flush-Holds = ground (arith, head_slot, commit_valid-Holds)

  pub tail_valid : (r.entries r.tail).valid ≡ false
  tail_valid = ground (arith, h.flags r.tail, h.head_in, h.tail_at, h.size)

  -- When the ring holds a queue, the buffer reports that it is full exactly when 15 instructions
  -- are in the queue.
  pub rob_full-Holds : rob_full r ≡ (length q == 15)
  unfolding rob_full
  rob_full-Holds = ground (arith, head_valid, h.head_in, h.tail_at, h.size)
