-- ===== src/Icache.antt =====
-- rtl/caches/icache.sv: the instruction cache, 16 sets of 2 ways with lines of 16 words.
-- `icache_step` is a clock cycle, the outputs are functions of the state and of the program counter.
pub mod Coherent
pub mod Hits
pub mod Replacement
use tartaruga.Base.{
  ℕ, zero, suc, Bool, true, false, ◌&&◌, not, ◌+◌, ◌*◌, ◌%◌, ◌==◌, if◌then◌else◌, ltb, update, bits,
  Option, none, some,
}

-- cache_line_t
pub record CacheLine : Type 0 where
  pub valid : Bool
  pub tag : ℕ
  pub words : ℕ → ℕ

-- `cache_mem` by set and way, `lru_counter` by set.
pub record Icache : Type 0 where
  pub ways : ℕ → ℕ → CacheLine
  pub lru : ℕ → ℕ
  pub pending : Bool
  pub pending_index : ℕ
  pub pending_tag : ℕ

pub record Inputs : Type 0 where
  pub pc : ℕ
  pub req_ready : Bool
  pub instr_line : ℕ → ℕ
  pub rsp_valid : Bool
  pub rsp_addr : ℕ

-- The last round of the loop leaves 1 in `lru_counter`.
unfoldable pub reset : Icache
reset = record {
  ways = λ i j. record { valid = false; tag = 0; words = λ k. 0 };
  lru = λ i. 1;
  pending = false;
  pending_index = 0;
  pending_tag = 0;
}

abbrev pub index : ℕ → ℕ
index a = bits a 6 4

abbrev pub tag_in : ℕ → ℕ
tag_in a = bits a 10 22

abbrev pub word_offset : ℕ → ℕ
word_offset a = bits a 2 4

-- mem_pc_o
abbrev pub line_aligned : ℕ → ℕ
line_aligned a = bits a 6 26 * 64

-- The loop over the ways: the last one that holds the line, `hit_way_sel`, if there is `hit`.
unfoldable pub find_way : Icache → ℕ → ℕ → Option ℕ
find_way c a zero = none
find_way c a (suc i) =
    let rest = find_way c a i in
    if (c.ways (index a) i).valid && (c.ways (index a) i).tag == tag_in a then some i else rest

unfoldable pub hit_way : Icache → ℕ → Option ℕ
unfolding find_way
hit_way c a = find_way c a 2

abbrev pub is_some : Option ℕ → Bool
is_some none = false
is_some (some i) = true

-- valid_o
unfoldable pub hit : Icache → ℕ → Bool
unfolding hit_way
hit c a = is_some (hit_way c a)

-- NOP_INSTR_HEX
abbrev pub nop_word : ℕ
nop_word = 0x33

abbrev pub word_of_way : Icache → ℕ → Option ℕ → ℕ
word_of_way c a none = nop_word
word_of_way c a (some i) = (c.ways (index a) i).words (word_offset a)

-- instr_o
unfoldable pub instr : Icache → ℕ → ℕ
unfolding hit_way
instr c a = word_of_way c a (hit_way c a)

-- req_valid_o
unfoldable pub req_valid : Icache → ℕ → Bool
unfolding hit
req_valid c a = not (hit c a) && not c.pending

-- The loops that write `lru_counter`: `old` is the counter before the cycle, `next` what is assigned
-- to it so far; a counter has one bit.
unfoldable pub lru_loop : ℕ → ℕ → ℕ → ℕ → ℕ → ℕ
lru_loop bound old way next zero = next
lru_loop bound old way next (suc i) =
    let before = lru_loop bound old way next i in
    if i == way then 0 else if ltb old bound then (old + 1) % 2 else before

-- The part for a hit; `old_lru` is the counter itself.
unfoldable pub touch : (ℕ → ℕ) → ℕ → Option ℕ → ℕ → ℕ
unfolding lru_loop
touch lru i none = lru
touch lru i (some way) = update lru i (lru_loop (lru i) (lru i) way (lru i) 2)

unfoldable pub lru_hit : Icache → ℕ → ℕ → ℕ
unfolding hit_way touch
lru_hit c a = touch c.lru (index a) (hit_way c a)

-- The test of the loop does not depend on the way, so the last one wins.
unfoldable pub lru_way : Icache → ℕ → ℕ
lru_way c i = if c.lru i == 1 then 1 else 0

-- `lru_counter` after the part for a response.
unfoldable pub lru_fill : Icache → Inputs → (ℕ → ℕ) → ℕ → ℕ
unfolding lru_way lru_loop
lru_fill c x l =
    let i = index x.rsp_addr in
    if x.rsp_valid then update l i (lru_loop 1 (c.lru i) (lru_way c i) (l i) 2) else l

unfoldable pub ways_next : Icache → Inputs → ℕ → ℕ → CacheLine
unfolding lru_way
ways_next c x =
    let i = index x.rsp_addr in
    if x.rsp_valid
    then update c.ways i (
        update (c.ways i) (lru_way c i)
          (record { valid = true; tag = tag_in x.rsp_addr; words = x.instr_line }))
    else c.ways

unfoldable pub icache_step : Icache → Inputs → Icache
unfolding req_valid lru_hit lru_fill ways_next
icache_step c x =
    let asks = req_valid c x.pc && x.req_ready in
    record {
      ways = ways_next c x;
      lru = lru_fill c x (lru_hit c x.pc);
      pending = if asks then true else if x.rsp_valid then false else c.pending;
      pending_index = if asks then index x.pc else c.pending_index;
      pending_tag = if asks then tag_in x.pc else c.pending_tag;
    }
