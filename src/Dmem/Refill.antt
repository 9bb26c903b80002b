-- ===== src/Dmem/Refill.antt =====
-- rtl/datapath/mem/mem.sv: a load that misses.
use tartaruga.Base.{
  ℕ, zero, suc, true, false, ◌*◌, ◌/◌, ◌<◌, ◌≤◌, ◌≡◌, ◌∙◌, ap, sym, refl, arith, add32, word_mod,
}
use mathlib.Core.Path.{subst}
use native.Mathlib.Decide.{ℕ_discrete}
use tartaruga.Dcache.{
  hit, index, tag_in, mem_request, idle, miss, load_line, ready, word_offset, line_aligned,
}
use tartaruga.Sim.Memory.{Memory, read_mem}
use tartaruga.Sim.Memory.Laws.{word_at}
use tartaruga.Wrapper.{System, Request, Response, wrapper_step, req_ready, response, read_line}
use tartaruga.Wrapper.Latency.{
  after, arrived, entered, request_answered, early, busy, arrives, comes_out, idle_memory,
  free-stays,
}
use tartaruga.Wrapper.Pipes.{rsp_next-kept, rsp_next-read, memory_next-idle, req-invalid}
use tartaruga.Dmem.{Dmem, Access, cache_inputs, wrapper_request, dmem_step, dmem_ready, dmem_data}
use tartaruga.Dmem.Run.{
  run, requests, run-after, idle-misses, miss-waits, miss-answered, load_line-fills, load-hits,
}

-- The word of a line at an address is the word at that address.
read_line-word_at :
    (m : Memory) (a : ℕ) → a < word_mod → read_line m (line_aligned a) (word_offset a) ≡ word_at m a
unfolding read_line read_mem
read_line-word_at m a h =
    let e : add32 (line_aligned a) (word_offset a * 4) / 4 ≡ a / 4 = omega arith in
    ground (arith, ap m.cells e)

module _ (s : Dmem) (x : Access) (h : s.cache.state ≡ miss) where
  -- In the state MISS the cache asks for the line when the wrapper is ready.
  miss-asks :
      req_ready s.system.wrapper ≡ true
      → ((wrapper_request s x).valid ≡ true)
        × ((wrapper_request s x).addr ≡ line_aligned x.addr)
        × ((wrapper_request s x).we ≡ false)
  unfolding wrapper_request mem_request cache_inputs
  miss-asks r = rw (h, r) (refl, refl, refl)

  miss-silent : req_ready s.system.wrapper ≡ false → (wrapper_request s x).valid ≡ false
  unfolding wrapper_request mem_request cache_inputs
  miss-silent r = rw (h, r) refl

-- From the cycle in which the cache asks.
module _ (s : Dmem) (x : Access) (h : s.cache.state ≡ miss)
    (r : req_ready s.system.wrapper ≡ true) where
  abbrev at : ℕ → Dmem
  at n = run s (λ i. x) n

  abbrev asked : ℕ → Request
  asked n = requests s (λ i. x) n

  first-asked :
      ((asked 0).valid ≡ true) × ((asked 0).addr ≡ line_aligned x.addr) × ((asked 0).we ≡ false)
  unfolding requests run
  first-asked = miss-asks s x h r

  quiet : (n : ℕ) → n < 10 → (response (at n).system.wrapper).valid ≡ false
  quiet n p =
      ap (λ (t : System). (response t.wrapper).valid) (run-after s (λ i. x) n)
      ∙ early s.system asked r n p

  waits : (n : ℕ) → n ≤ 10 → (at n).cache.state ≡ miss
  unfolding run cache_inputs dmem_step
  waits zero p = h
  waits (suc n) p =
      miss-waits (at n).cache (cache_inputs (at n) x) (waits n (omega arith))
        (quiet n (omega arith))

  second-silent : (asked 1).valid ≡ false
  unfolding requests
  second-silent =
      let b = busy s.system asked r first-asked.0 0 (omega arith) in
      miss-silent (at 1) x (waits 1 (omega arith))
        (ap (λ (t : System). req_ready t.wrapper) (run-after s (λ i. x) 1) ∙ b)

  answered : (at 11).cache.state ≡ load_line
  unfolding run cache_inputs dmem_step
  answered =
      let a = (request_answered s.system asked r first-asked.0).0 in
      miss-answered (at 10).cache (cache_inputs (at 10) x) (waits 10 (omega arith))
        (ap (λ (t : System). (response t.wrapper).valid) (run-after s (λ i. x) 10) ∙ a)

  -- The line is still at the output in the cycle after the response.
  line_read :
      (k : ℕ)
      → (response (at 11).system.wrapper).words k
        ≡ read_line s.system.memory (line_aligned x.addr) k
  line_read k =
      let y = asked in
      let t = s.system in
      let w = (after t y 5).wrapper in
      ap (λ (u : System). (response u.wrapper).words k) (run-after s (λ i. x) 11)
      ∙ ap (λ (u : Response). u.words k) (comes_out t y r 6)
      ∙ rsp_next-kept (after t y 6).wrapper (after t y 6).memory
          (ap (λ (u : Request). u.valid) (arrived t y 1) ∙ second-silent) k
      ∙ ap (λ (u : Response). u.words k) (entered t y 5)
      ∙ rsp_next-read w (after t y 5).memory (y 0) (arrives t y r) first-asked.0 first-asked.2 k
      ∙ ap (λ m. read_line m (y 0).addr k) (idle_memory t y r 5 (omega arith))
      ∙ ap (λ a. read_line t.memory a k) first-asked.1

  filled :
      ((at 12).cache.state ≡ idle)
      × ((at 12).cache.lines (index x.addr) ≡ record {
        valid = true;
        tag = tag_in x.addr;
        words = (response (at 11).system.wrapper).words;
      })
  unfolding run cache_inputs dmem_step
  filled = load_line-fills (at 11).cache (cache_inputs (at 11) x) answered

  module _ (q : x.req ≡ true) (n : x.we ≡ false) (l : x.addr < word_mod) where
    -- The load is served with the word that memory had.
    served_load :
        (dmem_ready (at 12) x ≡ true) × (dmem_data (at 12) x ≡ word_at s.system.memory x.addr)
    unfolding dmem_ready dmem_data cache_inputs
    served_load =
        let (a, b) =
          load-hits (at 12).cache (cache_inputs (at 12) x) (response (at 11).system.wrapper).words
            filled.0 filled.1 q n in
        (a, b ∙ line_read (word_offset x.addr) ∙ read_line-word_at s.system.memory x.addr l)

  not_idle : (n : ℕ) → n < 12 → dmem_ready (at n) x ≡ false
  unfolding dmem_ready ready cache_inputs
  not_idle n p = elim (ℕ_discrete n 11) [
    | yes e ↦ subst (λ t. dmem_ready (at t) x ≡ false) (sym e) (rw answered refl)
    | no e ↦ rw (waits n (omega arith)) refl
  ]

-- The first cycle of a load that misses.
module _ (s : Dmem) (x : Access) (h : s.cache.state ≡ idle) (g : hit s.cache x.addr ≡ false)
    (q : x.req ≡ true) where
  first-miss : (dmem_step s x).cache.state ≡ miss
  unfolding dmem_step cache_inputs
  first-miss = idle-misses s.cache (cache_inputs s x) h g q

  first-silent : (wrapper_request s x).valid ≡ false
  unfolding wrapper_request mem_request cache_inputs
  first-silent = rw (h, g, q) refl

  first-free : req_ready s.system.wrapper ≡ true → req_ready (dmem_step s x).system.wrapper ≡ true
  unfolding dmem_step
  first-free r = free-stays s.system (wrapper_request s x) r first-silent

  first-memory : req_ready s.system.wrapper ≡ true → (dmem_step s x).system.memory ≡ s.system.memory
  unfolding dmem_step wrapper_step
  first-memory r =
      memory_next-idle s.system.wrapper s.system.memory
        (req-invalid s.system.wrapper r 4 (omega arith))

  first-wait : dmem_ready s x ≡ false
  unfolding dmem_ready ready cache_inputs
  first-wait = rw (h, g, q) refl

run-first :
    (s : Dmem) (x : Access) (n : ℕ) → run s (λ i. x) (suc n) ≡ run (dmem_step s x) (λ i. x) n
unfolding run
run-first s x zero = refl
run-first s x (suc n) = ap (λ t. dmem_step t x) (run-first s x n)

waits_from :
    (s : Dmem) (x : Access)
    → dmem_ready s x ≡ false
    → ((n : ℕ) → n < 12 → dmem_ready (run (dmem_step s x) (λ i. x) n) x ≡ false)
    → (n : ℕ) → n < 13
    → dmem_ready (run s (λ i. x) n) x ≡ false
unfolding run
waits_from s x f g zero p = f
waits_from s x f g (suc n) p = ap (λ t. dmem_ready t x) (run-first s x n) ∙ g n (omega arith)

-- A load from a 32-bit address that misses, with the cache in the state IDLE and the wrapper ready,
-- is served after thirteen cycles and not before, while it stays at the input, with the word that
-- memory had at its address.
pub load_miss :
    (s : Dmem) (x : Access)
    → s.cache.state ≡ idle
    → req_ready s.system.wrapper ≡ true
    → hit s.cache x.addr ≡ false
    → x.req ≡ true
    → x.we ≡ false
    → x.addr < word_mod
    → (dmem_ready (run s (λ i. x) 13) x ≡ true)
      × (dmem_data (run s (λ i. x) 13) x ≡ word_at s.system.memory x.addr)
      × ((n : ℕ) → n < 13 → dmem_ready (run s (λ i. x) n) x ≡ false)
load_miss s x h r g q n l =
    let u = dmem_step s x in
    let f = first-free s x h g q r in
    let k = first-miss s x h g q in
    let (a, b) = served_load u x k f q n l in
    let e = run-first s x 12 in
    (
      ap (λ t. dmem_ready t x) e ∙ a,
      ap (λ t. dmem_data t x) e ∙ b ∙ ap (λ m. word_at m x.addr) (first-memory s x h g q r),
      (λ i p. waits_from s x (first-wait s x h g q) (not_idle u x k f) i p),
    )
