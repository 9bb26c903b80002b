-- ===== src/Dmem/Run.antt =====
-- rtl/datapath/mem/mem.sv: cycles of the data cache with its wrapper, and what each state of the
-- cache does.
use tartaruga.Base.{ℕ, zero, suc, true, false, ◌≡◌, ◌∙◌, ap, refl, arith, update-here, update-there}
use native.Mathlib.Decide.{ℕ_discrete}
use tartaruga.Dcache.{
  Dcache, Inputs, CacheLine, CacheState, is_idle, hit, index, tag_in, next_state, line_next,
  dcache_step, idle, miss, load_line, ready, data_rd, word_offset,
}
use tartaruga.Wrapper.{Request, wrapper_step}
use tartaruga.Wrapper.Latency.{after}
use tartaruga.Dmem.{Dmem, Access, cache_inputs, wrapper_request, dmem_step}

-- The states of the cycles that follow, with the accesses of the memory stage.
unfoldable pub run : Dmem → (ℕ → Access) → ℕ → Dmem
run s xs zero = s
run s xs (suc n) = dmem_step (run s xs n) (xs n)

-- The requests of those cycles.
unfoldable pub requests : Dmem → (ℕ → Access) → ℕ → Request
unfolding run
requests s xs n = wrapper_request (run s xs n) (xs n)

pub run-after :
    (s : Dmem) (xs : ℕ → Access) (n : ℕ) → (run s xs n).system ≡ after s.system (requests s xs) n
unfolding run requests dmem_step after
run-after s xs zero = refl
run-after s xs (suc n) = ap (λ t. wrapper_step t (requests s xs n)) (run-after s xs n)

pub run-suc :
    (s : Dmem) (xs : ℕ → Access) (n : ℕ)
    → (run s xs (suc n)).cache ≡ dcache_step (run s xs n).cache (cache_inputs (run s xs n) (xs n))
unfolding run dmem_step
run-suc s xs n = refl

-- A line whose tag and valid bit stay hits as before.
pub hit-same :
    (d e : Dcache) (a : ℕ)
    → ((e.lines (index a)).valid ≡ (d.lines (index a)).valid)
    → ((e.lines (index a)).tag ≡ (d.lines (index a)).tag)
    → hit e a ≡ hit d a
unfolding hit
hit-same d e a p q = rw (p, q) refl

state-idle : (c : CacheState) → is_idle c ≡ true → c ≡ idle
state-idle idle h = refl
state-idle miss h = cc
state-idle load_line h = cc

module _ (d : Dcache) (x : Inputs) where
  -- In the states IDLE and MISS no line becomes valid and no tag changes.
  kept_line :
      (i : ℕ)
      → (line_next d x).valid ≡ (d.lines (index x.addr)).valid
      → (line_next d x).tag ≡ (d.lines (index x.addr)).tag
      → (((dcache_step d x).lines i).valid ≡ (d.lines i).valid)
        × (((dcache_step d x).lines i).tag ≡ (d.lines i).tag)
  unfolding dcache_step
  kept_line i p q = elim (ℕ_discrete (index x.addr) i) [
    | yes e ↦
        let u = update-here d.lines (index x.addr) i (line_next d x) e in
        (
          ap (λ (l : CacheLine). l.valid) u ∙ p ∙ ap (λ j. (d.lines j).valid) e,
          ap (λ (l : CacheLine). l.tag) u ∙ q ∙ ap (λ j. (d.lines j).tag) e,
        )
    | no n ↦
        let u = update-there d.lines (index x.addr) i (line_next d x) n in
        (ap (λ (l : CacheLine). l.valid) u, ap (λ (l : CacheLine). l.tag) u)
  ]

  pub idle-hit : d.state ≡ idle → (a : ℕ) → hit (dcache_step d x) a ≡ hit d a
  unfolding line_next
  idle-hit s a =
      let k = kept_line (index a) (rw s (ground arith)) (rw s (ground arith)) in
      hit-same d (dcache_step d x) a k.0 k.1

  pub idle-stays : d.state ≡ idle → hit d x.addr ≡ true → (dcache_step d x).state ≡ idle
  unfolding dcache_step next_state
  idle-stays s h = rw s (ground (arith, h))

  pub idle-misses :
      d.state ≡ idle → hit d x.addr ≡ false → x.req ≡ true → (dcache_step d x).state ≡ miss
  unfolding dcache_step next_state
  idle-misses s h q = rw (s, q, h) refl

  pub miss-waits : d.state ≡ miss → x.mem_rsp_valid ≡ false → (dcache_step d x).state ≡ miss
  unfolding dcache_step next_state
  miss-waits s h = rw (s, h) refl

  pub miss-answered : d.state ≡ miss → x.mem_rsp_valid ≡ true → (dcache_step d x).state ≡ load_line
  unfolding dcache_step next_state
  miss-answered s h = rw (s, h) refl

  -- The line that LOAD_LINE fills.
  pub load_line-fills :
      d.state ≡ load_line
      → ((dcache_step d x).state ≡ idle)
        × ((dcache_step d x).lines (index x.addr)
            ≡ record { valid = true; tag = tag_in x.addr; words = x.mem_data_line })
  unfolding dcache_step next_state line_next
  load_line-fills s = (
    rw s refl,
    update-here d.lines (index x.addr) (index x.addr) (line_next d x) refl ∙ rw s refl,
  )

  -- A load of a line that was filled in.
  pub load-hits :
      (w : ℕ → ℕ)
      → d.state ≡ idle
      → d.lines (index x.addr) ≡ record { valid = true; tag = tag_in x.addr; words = w }
      → x.req ≡ true
      → x.we ≡ false
      → (ready d x ≡ true) × (data_rd d x ≡ w (word_offset x.addr))
  unfolding ready data_rd hit
  load-hits w s l q n =
      let v : (d.lines (index x.addr)).valid ≡ true = ap (λ (c : CacheLine). c.valid) l in
      let g : (d.lines (index x.addr)).tag ≡ tag_in x.addr = ap (λ (c : CacheLine). c.tag) l in
      let k : (d.lines (index x.addr)).words (word_offset x.addr) ≡ w (word_offset x.addr) =
        ap (λ (c : CacheLine). c.words (word_offset x.addr)) l in
      (ground (arith, s, v, g, q, n), rw s (ground (arith, v, g, q, n, k)))

  pub idle-ready : ready d x ≡ true → d.state ≡ idle
  unfolding ready
  idle-ready r = state-idle d.state (ground arith)
