-- ===== src/Dcache/Coherent.antt =====
-- rtl/caches/dcache.sv: the cache against a memory of words.
use native.Mathlib.Decide.{ℕ_discrete}
use tartaruga.Base.{
  ◌≢◌, ℕ, Bool, true, false, ◌&&◌, ◌+◌, ◌-◌, ◌*◌, ◌/◌, ◌<◌, ◌≤◌, ◌≡◌, ◌==◌, if◌then◌else◌, arith,
  word_mod, ◌%◌, ◌^◌, leb, ltb, ap,
}
use tartaruga.Dcache.{
  Dcache, Inputs, MemRequest, hit, index, tag_in, word_offset, line_aligned, data_rd, ready,
  mem_request, line_next, dcache_step, idle, miss, load_line, CacheState,
}

-- The word number of word `k` of the line in set `i` with tag `t`.
abbrev pub word_of : ℕ → ℕ → ℕ → ℕ
word_of i t k = t * 64 + i * 4 + k

-- Every valid line holds the words that memory has at its addresses.
pub record IsCoherent (d : Dcache) (memory : ℕ → ℕ) : Type 0 where
  pub agrees :
      (i k : ℕ)
      → i < 16
      → k < 4
      → (d.lines i).valid ≡ true
      → (d.lines i).words k ≡ memory (word_of i (d.lines i).tag k)

-- Memory once a request of the cache has been served: a write puts in a whole line.
abbrev pub served : (ℕ → ℕ) → MemRequest → ℕ → ℕ
served memory q j =
    if q.valid && q.we && leb (q.address / 4) j && ltb j (q.address / 4 + 4)
    then q.data_wr (j - q.address / 4)
    else memory j

abbrev pub in_idle : CacheState → Bool
in_idle idle = true
in_idle miss = false
in_idle load_line = false

-- A store is asked for in the state IDLE, and a valid line of its set has its tag.
abbrev pub is_write_hit : Dcache → Inputs → Bool
is_write_hit d x =
    in_idle d.state
    && x.req
    && x.we
    && (d.lines (x.addr / 16 % 16)).valid
    && (d.lines (x.addr / 16 % 16)).tag == x.addr / 256 % 2 ^ 24

address_parts : (a : ℕ) → a < word_mod → word_of (index a) (tag_in a) (word_offset a) ≡ a / 4
address_parts a h = omega arith

module _ {d : Dcache} {memory : ℕ → ℕ} (h : IsCoherent d memory) (x : Inputs)
    (w : x.addr < word_mod) where
  -- In a cache that agrees with memory, a load that the cache answers as ready, at a 32-bit
  -- address, gets the word of memory at that address.
  pub data_rd-memory :
      ready d x ≡ true → x.req ≡ true → x.we ≡ false → data_rd d x ≡ memory (x.addr / 4)
  unfolding ready data_rd hit
  data_rd-memory r q n =
      ground
        (arith, h.agrees (index x.addr) (word_offset x.addr), ap memory (address_parts x.addr w))

  -- The words of a line that hits, by their word numbers.
  in_line :
      (j : ℕ)
      → hit d x.addr ≡ true
      → line_aligned x.addr / 4 ≤ j
      → j < line_aligned x.addr / 4 + 4
      → (d.lines (index x.addr)).words (j - line_aligned x.addr / 4) ≡ memory j
  unfolding hit
  in_line j t p q =
      let e : word_of (index x.addr) (tag_in x.addr) (j - line_aligned x.addr / 4) ≡ j =
        omega arith in
      ground (arith, h.agrees (index x.addr) (j - line_aligned x.addr / 4), ap memory e)

  -- In a cache that agrees with memory, serving the request that the cache makes at a 32-bit
  -- address changes memory at the stored word if the access is a store that comes in the state IDLE
  -- and whose line is valid in its set, and changes no other word.
  pub served-mem_request :
      (j : ℕ)
      → served memory (mem_request d x) j
        ≡ (if is_write_hit d x && j == x.addr / 4 then x.data_wr else memory j)
  unfolding mem_request hit
  served-mem_request j =
      let o : (word_offset x.addr == j - line_aligned x.addr / 4
            && leb (line_aligned x.addr / 4) j
            && ltb j (line_aligned x.addr / 4 + 4))
          ≡ (j == x.addr / 4) =
        ground arith in
      ground (arith, in_line j)

  word_iff :
      (t k : ℕ)
      → k < 4
      → t ≡ tag_in x.addr
      → (word_of (index x.addr) t k == x.addr / 4) ≡ (word_offset x.addr == k)
  word_iff t k p e = ground (arith, w)

  line_next-agrees :
      (k : ℕ)
      → k < 4
      → (d.state ≡ load_line
          → x.mem_data_line k ≡ memory (word_of (index x.addr) (tag_in x.addr) k))
      → (line_next d x).valid ≡ true
      → (line_next d x).words k
        ≡ served memory (mem_request d x) (word_of (index x.addr) (line_next d x).tag k)
  unfolding line_next mem_request hit
  line_next-agrees k p f v =
      rw served-mem_request
        (ground (arith, h.agrees (index x.addr) k, word_iff (line_next d x).tag k))

  other_line :
      (i k t : ℕ)
      → i < 16
      → k < 4
      → i ≢ index x.addr
      → served memory (mem_request d x) (word_of i t k) ≡ memory (word_of i t k)
  other_line i k t p q n = rw served-mem_request (ground (arith, w))

  -- A clock cycle keeps every valid line of the data cache equal to the words of memory at its
  -- addresses, for a 32-bit address, where a write request counts as served at once, and if a line
  -- that is filled in holds the words that memory has at the address asked for.
  pub dcache_step-IsCoherent :
      ((k : ℕ)
        → k < 4
        → d.state ≡ load_line
        → x.mem_data_line k ≡ memory (word_of (index x.addr) (tag_in x.addr) k))
      → IsCoherent (dcache_step d x) (served memory (mem_request d x))
  unfolding dcache_step
  dcache_step-IsCoherent f = record {
    agrees = λ i k p q v. elim (ℕ_discrete (index x.addr) i) [
      | yes e ↦ ground (arith, line_next-agrees k q (f k q), e)
      | no n ↦ ground (arith, other_line i k (d.lines i).tag, h.agrees i k)
    ];
  }
