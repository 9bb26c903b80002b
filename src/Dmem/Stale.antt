-- ===== src/Dmem/Stale.antt =====
-- rtl/datapath/mem/mem.sv: a store that hits, and a load that misses right after it.
use tartaruga.Base.{
  ℕ, zero, suc, true, false, ◌-◌, ◌<◌, ◌≤◌, ◌≡◌, ◌∙◌, ap, refl, if◌then◌else◌, arith, ltb,
}
use native.Mathlib.Decide.{dec_lt}
use tartaruga.Dcache.{hit, index, tag_in, mem_request, idle, miss, load_line, ready, word_offset}
use tartaruga.Wrapper.{System, Request, Response, req_ready, response, rsp_next}
use tartaruga.Wrapper.Latency.{after, arrived, entered, early, comes_out, idle_request}
use tartaruga.Wrapper.Pipes.{rsp_next-kept, rsp_next-write, rsp_next-valid}
use tartaruga.Dmem.{Dmem, Access, cache_inputs, wrapper_request, dmem_step, dmem_ready, dmem_data}
use tartaruga.Dmem.Run.{
  run, requests, run-after, idle-hit, idle-stays, idle-misses, miss-answered, load_line-fills,
  load-hits,
}

abbrev pub store : ℕ → ℕ → Access
store a d = record { addr = a; data_wr = d; we = true; req = true }

abbrev pub load : ℕ → Access
load b = record { addr = b; data_wr = 0; we = false; req = true }

-- The store for the eleven cycles that it takes, then the load.
abbrev pub accesses : ℕ → ℕ → ℕ → ℕ → Access
accesses a d b n = if ltb n 11 then store a d else load b

abbrev five : ℕ → ℕ
five n = suc (suc (suc (suc (suc n))))

words-next :
    (s : System) (y : ℕ → Request)
    → req_ready s.wrapper ≡ true
    → ((i : ℕ) → i < 11 → (y i).we ≡ true)
    → (k n : ℕ) → n < 9
    → (rsp_next (after s y n).wrapper (after s y n).memory).words k
      ≡ ((after s y n).wrapper.rsp 0).words k
words-next s y r f k n p = elim (dec_lt n 5) [
  | yes q ↦ rsp_next-kept (after s y n).wrapper (after s y n).memory (idle_request s y r n q) k
  | no q ↦
      let e : n ≡ five (n - 5) = omega arith in
      let v : (after s y n).wrapper.req 4 ≡ y (n - 5) =
        ap (λ t. (after s y t).wrapper.req 4) e ∙ arrived s y (n - 5) in
      rsp_next-write (after s y n).wrapper (after s y n).memory
        (ap (λ (u : Request). u.we) v ∙ f (n - 5) (omega arith)) k
]

-- While only writes are under way, the response pipes keep the line that was read last.
words-kept :
    (s : System) (y : ℕ → Request)
    → req_ready s.wrapper ≡ true
    → ((i : ℕ) → i < 11 → (y i).we ≡ true)
    → (k n : ℕ) → n ≤ 9
    → ((after s y n).wrapper.rsp 0).words k ≡ (s.wrapper.rsp 0).words k
unfolding after
words-kept s y r f k zero p = refl
words-kept s y r f k (suc n) p =
    let w = (after s y n).wrapper in
    ap (λ (u : Response). u.words k) (entered s y n)
    ∙ words-next s y r f k n (omega arith)
    ∙ words-kept s y r f k n (omega arith)

module _ (s : Dmem) (x : Access) (h : s.cache.state ≡ idle) where
  kept : (c : ℕ) → hit (dmem_step s x).cache c ≡ hit s.cache c
  unfolding dmem_step
  kept c = idle-hit s.cache (cache_inputs s x) h c

  module _ (g : hit s.cache x.addr ≡ true) where
    stays : (dmem_step s x).cache.state ≡ idle
    unfolding dmem_step cache_inputs
    stays = idle-stays s.cache (cache_inputs s x) h g

    asks :
        x.req ≡ true
        → x.we ≡ true
        → ((wrapper_request s x).valid ≡ true) × ((wrapper_request s x).we ≡ true)
    unfolding wrapper_request mem_request cache_inputs
    asks q w = rw (h, g, q, w) (refl, refl)

    done_when_answered :
        x.req ≡ true → x.we ≡ true → dmem_ready s x ≡ (response s.system.wrapper).valid
    unfolding dmem_ready ready cache_inputs
    done_when_answered q w = rw (h, g, q, w) refl

module _ (s : Dmem) (a d b : ℕ) (h : s.cache.state ≡ idle) (r : req_ready s.system.wrapper ≡ true)
    (g : hit s.cache a ≡ true) (m : hit s.cache b ≡ false) where
  abbrev at : ℕ → Dmem
  at n = run s (accesses a d b) n

  abbrev asked : ℕ → Request
  asked n = requests s (accesses a d b) n

  store_at : (n : ℕ) → n < 11 → accesses a d b n ≡ store a d
  store_at n p = ground arith

  storing :
      (n : ℕ)
      → n ≤ 11
      → ((at n).cache.state ≡ idle) × ((c : ℕ) → hit (at n).cache c ≡ hit s.cache c)
  unfolding run
  storing zero p = (h, λ c. refl)
  storing (suc n) p =
      let (u, v) = storing n (omega arith) in
      let x = accesses a d b n in
      let o : hit (at n).cache x.addr ≡ true =
        ap (λ (z : Access). hit (at n).cache z.addr) (store_at n (omega arith)) ∙ v a ∙ g in
      (stays (at n) x u o, λ c. kept (at n) x u c ∙ v c)

  storing-hit : (n : ℕ) → n < 11 → hit (at n).cache (accesses a d b n).addr ≡ true
  storing-hit n p =
      ap (λ (z : Access). hit (at n).cache z.addr) (store_at n p)
      ∙ (storing n (omega arith)).1 a
      ∙ g

  asked-write : (n : ℕ) → n < 11 → ((asked n).valid ≡ true) × ((asked n).we ≡ true)
  unfolding requests
  asked-write n p =
      asks (at n) (accesses a d b n) (storing n (omega arith)).0 (storing-hit n p)
        (ap (λ (z : Access). z.req) (store_at n p)) (ap (λ (z : Access). z.we) (store_at n p))

  -- The answers to the writes of the third and the fourth cycle come during the load.
  answer :
      (n : ℕ)
      → n < 11
      → (rsp_next
          (after s.system asked (five n)).wrapper
          (after s.system asked (five n)).memory).valid
        ≡ true
  answer n p =
      let t = after s.system asked (five n) in
      (rsp_next-valid t.wrapper t.memory (asked n) (arrived s.system asked n) (asked-write n p).0).0

  response_valid : (n : ℕ) → n < 11 → (response (at (five (five n))).system.wrapper).valid ≡ true
  response_valid n p =
      ap (λ (u : System). (response u.wrapper).valid) (run-after s (accesses a d b) (five (five n)))
      ∙ ap (λ (u : Response). u.valid) (comes_out s.system asked r (five n))
      ∙ answer n p

  store_done : dmem_ready (at 10) (store a d) ≡ true
  store_done =
      done_when_answered (at 10) (store a d) (storing 10 (omega arith)).0
        ((storing 10 (omega arith)).1 a ∙ g) refl refl
      ∙ response_valid 0 (omega arith)

  store_waits : (n : ℕ) → n < 10 → dmem_ready (at n) (store a d) ≡ false
  store_waits n p =
      done_when_answered (at n) (store a d) (storing n (omega arith)).0
        ((storing n (omega arith)).1 a ∙ g) refl refl
      ∙ ap (λ (u : System). (response u.wrapper).valid) (run-after s (accesses a d b) n)
      ∙ early s.system asked r n p

  load_misses : (at 12).cache.state ≡ miss
  unfolding run dmem_step cache_inputs
  load_misses =
      let (u, v) = storing 11 (omega arith) in
      idle-misses (at 11).cache (cache_inputs (at 11) (load b)) u (v b ∙ m) refl

  load_answered : (at 13).cache.state ≡ load_line
  unfolding run dmem_step cache_inputs
  load_answered =
      miss-answered (at 12).cache (cache_inputs (at 12) (load b)) load_misses
        (response_valid 2 (omega arith))

  stale_line :
      ((at 14).cache.state ≡ idle)
      × ((at 14).cache.lines (index b) ≡ record {
        valid = true;
        tag = tag_in b;
        words = (response (at 13).system.wrapper).words;
      })
  unfolding run dmem_step cache_inputs
  stale_line = load_line-fills (at 13).cache (cache_inputs (at 13) (load b)) load_answered

  stale_words :
      (k : ℕ) → (response (at 13).system.wrapper).words k ≡ (s.system.wrapper.rsp 0).words k
  stale_words k =
      let f : (i : ℕ) → i < 11 → (asked i).we ≡ true = (λ i p. (asked-write i p).1) in
      ap (λ (u : System). (response u.wrapper).words k) (run-after s (accesses a d b) 13)
      ∙ ap (λ (u : Response). u.words k) (comes_out s.system asked r 8)
      ∙ words-next s.system asked r f k 8 (omega arith)
      ∙ words-kept s.system asked r f k 8 (omega arith)

  stale_load :
      (dmem_ready (at 14) (load b) ≡ true)
      × (dmem_data (at 14) (load b) ≡ (s.system.wrapper.rsp 0).words (word_offset b))
  unfolding dmem_ready dmem_data cache_inputs
  stale_load =
      let (u, v) =
        load-hits (at 14).cache (cache_inputs (at 14) (load b))
          (response (at 13).system.wrapper).words stale_line.0 stale_line.1 refl refl in
      (u, v ∙ stale_words (word_offset b))

  -- A store that hits, with the cache in the state IDLE and the wrapper ready, is done in the tenth
  -- cycle after it comes and not before. A load that misses and comes in the cycle after that is
  -- served three cycles after it comes, with a word of the line that the wrapper read last,
  -- whatever its address: the answers to the writes that the store repeats end the miss.
  pub store-load_miss :
      ((n : ℕ) → n < 10 → dmem_ready (run s (accesses a d b) n) (store a d) ≡ false)
      × (dmem_ready (run s (accesses a d b) 10) (store a d) ≡ true)
      × (dmem_ready (run s (accesses a d b) 14) (load b) ≡ true)
      × (dmem_data (run s (accesses a d b) 14) (load b)
          ≡ (s.system.wrapper.rsp 0).words (word_offset b))
  store-load_miss = (store_waits, store_done, stale_load.0, stale_load.1)
