-- ===== src/Wrapper/Lines.antt =====
-- rtl/caches/dmem_wrapper.sv: a request of a line, by the words of memory.
use tartaruga.Base.{
  ℕ, true, false, ◌+◌, ◌*◌, ◌/◌, ◌%◌, ◌<◌, ◌≡◌, ◌∙◌, ◌==◌, ap, arith, if◌then◌else◌, add32,
}
use tartaruga.Sim.Memory.{Memory, read_mem, write_mem}
use tartaruga.Sim.Memory.Laws.{mem_bytes}
use tartaruga.Wrapper.{Request, System, req_ready, response, read_line, write_word, write_line}
use tartaruga.Wrapper.Latency.{after, request_answered}

module _ (addr : ℕ) (a : addr % 16 ≡ 0) (l : addr < mem_bytes) where
  read_line-cells :
      (m : Memory) (k : ℕ)
      → m.initialized ≡ true
      → k < 4
      → read_line m addr k ≡ m.cells (addr / 4 + k)
  unfolding read_line read_mem
  read_line-cells m k i p =
      let e : add32 addr (k * 4) / 4 ≡ addr / 4 + k = omega arith in ground (arith, ap m.cells e)

  write_word-cells :
      (m : Memory) (d : ℕ → ℕ) (k j : ℕ)
      → m.initialized ≡ true
      → k < 4
      → ((write_word addr d k m).initialized ≡ true)
        × ((write_word addr d k m).cells j ≡ (if j == addr / 4 + k then d k else m.cells j))
  unfolding write_word write_mem
  write_word-cells m d k j i p = (ground arith, ground arith)

  write_line-cells :
      (m : Memory) (d : ℕ → ℕ) (j : ℕ)
      → m.initialized ≡ true
      → (write_line m addr d).cells j ≡ (if j / 4 == addr / 16 then d (j % 4) else m.cells j)
  unfolding write_line
  write_line-cells m d j i =
      let m1 = write_word addr d 0 m in
      let m2 = write_word addr d 1 m1 in
      let m3 = write_word addr d 2 m2 in
      let (i1, c1) = write_word-cells m d 0 j i (omega arith) in
      let (i2, c2) = write_word-cells m1 d 1 j i1 (omega arith) in
      let (i3, c3) = write_word-cells m2 d 2 j i2 (omega arith) in
      let (i4, c4) = write_word-cells m3 d 3 j i3 (omega arith) in
      let w : (k : ℕ) → j ≡ addr / 4 + k → k < 4 → d (j % 4) ≡ d k = λ k e p. ap d (omega arith) in
      ground (arith, c1, c2, c3, c4, w 0, w 1, w 2, w 3)

-- A valid request of a line in memory, at an aligned address, that comes when the wrapper is ready
-- and memory is initialized is answered ten cycles later and not before: the response has its
-- address, and for a read the four words of the line as memory had them when the request came. For
-- a write, after six cycles memory has the words of the request in the line and is unchanged
-- elsewhere. What comes at the input after the request does not matter.
pub request_latency :
    (s : System) (y : ℕ → Request)
    → req_ready s.wrapper ≡ true
    → (y 0).valid ≡ true
    → s.memory.initialized ≡ true
    → (y 0).addr % 16 ≡ 0
    → (y 0).addr < mem_bytes
    → let q = y 0 in
      let out = response (after s y 10).wrapper in
      (out.valid ≡ true)
      × (out.addr ≡ q.addr)
      × (q.we ≡ false → (k : ℕ) → k < 4 → out.words k ≡ s.memory.cells (q.addr / 4 + k))
      × (q.we ≡ true
          → (j : ℕ)
          → (after s y 6).memory.cells j
            ≡ (if j / 4 == q.addr / 16 then q.words (j % 4) else s.memory.cells j))
      × ((n : ℕ) → n < 10 → (response (after s y n).wrapper).valid ≡ false)
request_latency s y r v i a l =
    let q = y 0 in
    let (o, e, f, g, h) = request_answered s y r v in
    (
      o,
      e,
      (λ u k p. f u k ∙ read_line-cells q.addr a l s.memory k i p),
      (λ u j.
          ap (λ (t : Memory). t.cells j) (g u) ∙ write_line-cells q.addr a l s.memory q.words j i),
      h,
    )
