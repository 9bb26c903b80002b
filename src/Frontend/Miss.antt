-- ===== src/Frontend/Miss.antt =====
-- rtl/datapath/fetch/fetch.sv: a program counter whose line is not in the cache.
use tartaruga.Base.{ℕ, zero, suc, true, false, ◌-◌, ◌<◌, ◌≡◌, ◌∙◌, ap, refl, arith, word_mod}
use mathlib.Core.Path.{subst}
use native.Mathlib.Decide.{dec_lt}
use tartaruga.Fetch.{fetch_step, pc_next}
use tartaruga.Icache
use tartaruga.Icache.{
  Icache, CacheLine, hit, hit_way, find_way, is_some, index, tag_in, line_aligned, lru_way,
  ways_next, icache_step,
}
use tartaruga.Icache.Hits.{hit-kept, pending-kept, pending-set, hit-filled}
use tartaruga.Imem.{req_ready}
use tartaruga.Imem.Latency.{
  IsOnly, requests-move, requests-enter, responses-move, responses-enter, line-moves,
}
use tartaruga.Imem.Pipes.{addr-first, request-next, request-first}
use tartaruga.Sim.Memory.{Memory}
use tartaruga.Wrapper.Pipes.{none_valid-false}
use tartaruga.Frontend.{Frontend, Inputs, icache_inputs, imem_inputs, frontend_step, valid_out}

-- The state after some cycles.
unfoldable pub run : Memory → Frontend → (ℕ → Inputs) → ℕ → Frontend
run m s x zero = s
run m s x (suc n) = frontend_step m (run m s x n) (x n)

-- The counter is held.
abbrev pub IsHeld : Inputs → Type 0
IsHeld x = (x.stall ≡ true) × (x.taken_branch ≡ false)

-- While a line is on its way.
record IsWaiting (a : ℕ) (s : Frontend) : Type 0 where
  counter : s.counter.pc_q ≡ a
  missing : hit s.icache a ≡ false
  pending : s.icache.pending ≡ true

-- The request is in stage `j`.
record IsAsked (a j : ℕ) (s : Frontend) : Type 0 where
  waiting : IsWaiting a s
  requests : IsOnly j s.imem.req_valid
  responses : IsOnly (suc (suc (suc (suc (suc j))))) s.imem.valid
  line : s.imem.req_addr j ≡ line_aligned a

-- The response is in stage `j`.
record IsReturning (a j : ℕ) (s : Frontend) : Type 0 where
  waiting : IsWaiting a s
  requests : IsOnly (suc (suc (suc (suc (suc j))))) s.imem.req_valid
  responses : IsOnly j s.imem.valid
  line : s.imem.addr j ≡ line_aligned a

counter-held :
    (m : Memory) (s : Frontend) (x : Inputs)
    → IsHeld x
    → (frontend_step m s x).counter.pc_q ≡ s.counter.pc_q
unfolding frontend_step fetch_step pc_next
counter-held m s x h = rw (h.0, h.1) refl

module _ (m : Memory) (s : Frontend) (x : Inputs) (a : ℕ) (h : IsHeld x) where
  step-IsWaiting : IsWaiting a s → s.imem.valid 4 ≡ false → IsWaiting a (frontend_step m s x)
  unfolding frontend_step icache_inputs
  step-IsWaiting w v = record {
    counter = counter-held m s x h ∙ w.counter;
    missing = hit-kept s.icache (icache_inputs s) a v ∙ w.missing;
    pending = pending-kept s.icache (icache_inputs s) a v w.pending;
  }

  -- Nothing is asked again.
  silent : IsWaiting a s → (imem_inputs s).req_valid ≡ false
  unfolding imem_inputs tartaruga.Icache.req_valid
  silent w = ground (arith, w.pending)

  request_moves : (j : ℕ) → j < 4 → IsAsked a j s → IsAsked a (suc j) (frontend_step m s x)
  unfolding frontend_step imem_inputs
  request_moves j p k = record {
    waiting = step-IsWaiting k.waiting (k.responses 4 (omega arith) ∙ ground arith);
    requests = requests-move m s.imem (imem_inputs s) j k.requests (silent k.waiting);
    responses =
        responses-move m s.imem (imem_inputs s) (suc (suc (suc (suc (suc j))))) k.responses
          (k.requests 4 (omega arith) ∙ ground arith) refl;
    line = (request-next m s.imem (imem_inputs s) j p).1 ∙ k.line;
  }

  request_read : IsAsked a 4 s → IsReturning a 0 (frontend_step m s x)
  unfolding frontend_step imem_inputs
  request_read k =
      let r : s.imem.req_valid 4 ≡ true = k.requests 4 (omega arith) in
      record {
        waiting = step-IsWaiting k.waiting (k.responses 4 (omega arith));
        requests = requests-move m s.imem (imem_inputs s) 4 k.requests (silent k.waiting);
        responses = responses-enter m s.imem (imem_inputs s) 9 k.responses (omega arith) r;
        line = addr-first m s.imem (imem_inputs s) ∙ rw r k.line;
      }

  response_moves : (j : ℕ) → j < 4 → IsReturning a j s → IsReturning a (suc j) (frontend_step m s x)
  unfolding frontend_step imem_inputs
  response_moves j p k = record {
    waiting = step-IsWaiting k.waiting (k.responses 4 (omega arith) ∙ ground arith);
    requests =
        requests-move m s.imem (imem_inputs s) (suc (suc (suc (suc (suc j))))) k.requests
          (silent k.waiting);
    responses =
        responses-move m s.imem (imem_inputs s) j k.responses
          (k.requests 4 (omega arith) ∙ ground arith) refl;
    line = (line-moves m s.imem (imem_inputs s) j k.responses p).1 ∙ k.line;
  }

  returned : IsReturning a 4 s → a < word_mod → valid_out (frontend_step m s x) ≡ true
  unfolding valid_out frontend_step icache_inputs
  returned k l =
      ap (λ b. hit (icache_step s.icache (icache_inputs s)) b)
        (counter-held m s x h ∙ k.waiting.counter)
      ∙ hit-filled s.icache (icache_inputs s) a (k.responses 4 (omega arith)) k.line l

-- The first cycle asks for the line.
module _ (m : Memory) (s : Frontend) (x : Inputs) (h : IsHeld x) (p : s.icache.pending ≡ false)
    (r : req_ready s.imem ≡ true) (v : valid_out s ≡ false) where
  no_requests : IsOnly 5 s.imem.req_valid
  unfolding req_ready
  no_requests i l = none_valid-false s.imem.req_valid 5 i (ground arith) l ∙ ground arith

  no_responses : IsOnly 5 s.imem.valid
  unfolding req_ready
  no_responses i l = none_valid-false s.imem.valid 5 i (ground arith) l ∙ ground arith

  asks : tartaruga.Icache.req_valid s.icache s.counter.pc_q ≡ true
  unfolding tartaruga.Icache.req_valid valid_out
  asks = ground arith

  silent_pipes : s.imem.valid 4 ≡ false
  silent_pipes = no_responses 4 (omega arith)

  miss-IsAsked : IsAsked s.counter.pc_q 0 (frontend_step m s x)
  unfolding frontend_step icache_inputs imem_inputs valid_out
  miss-IsAsked =
      let a = s.counter.pc_q in
      record {
        waiting = record {
          counter = counter-held m s x h;
          missing = hit-kept s.icache (icache_inputs s) a silent_pipes ∙ v;
          pending = pending-set s.icache (icache_inputs s) a asks r;
        };
        requests = requests-enter m s.imem (imem_inputs s) 5 no_requests (omega arith) asks;
        responses = λ i l.
            responses-move m s.imem (imem_inputs s) 5 no_responses (no_requests 4 (omega arith))
              refl i l
            ∙ ground arith;
        line = (request-first m s.imem (imem_inputs s)).1;
      }

waiting-invalid : (a : ℕ) (s : Frontend) → IsWaiting a s → valid_out s ≡ false
unfolding valid_out
waiting-invalid a s w = ap (hit s.icache) w.counter ∙ w.missing

module _ (m : Memory) (s : Frontend) (x : ℕ → Inputs) (h : (n : ℕ) → IsHeld (x n))
    (p : s.icache.pending ≡ false) (r : req_ready s.imem ≡ true) (v : valid_out s ≡ false) where
  asked : (n : ℕ) → n < 5 → IsAsked s.counter.pc_q n (run m s x (suc n))
  unfolding run
  asked zero l = miss-IsAsked m s (x 0) (h 0) p r v
  asked (suc n) l =
      request_moves m (run m s x (suc n)) (x (suc n)) s.counter.pc_q (h (suc n)) n (omega arith)
        (asked n (omega arith))

  returning :
      (n : ℕ)
      → n < 5
      → IsReturning s.counter.pc_q n (run m s x (suc (suc (suc (suc (suc (suc n)))))))
  unfolding run
  returning zero l = request_read m (run m s x 5) (x 5) s.counter.pc_q (h 5) (asked 4 (omega arith))
  returning (suc n) l =
      let k = suc (suc (suc (suc (suc (suc n))))) in
      response_moves m (run m s x k) (x k) s.counter.pc_q (h k) n (omega arith)
        (returning n (omega arith))

  still_waiting : (n : ℕ) → n < 11 → valid_out (run m s x n) ≡ false
  unfolding run
  still_waiting zero l = v
  still_waiting (suc n) l = elim (dec_lt n 5) [
    | yes e ↦ waiting-invalid s.counter.pc_q (run m s x (suc n)) (asked n e).waiting
    | no e ↦
        let k = n - 5 in
        let q : suc (suc (suc (suc (suc k)))) ≡ n = omega arith in
        subst (λ i. valid_out (run m s x (suc i)) ≡ false) q
          (waiting-invalid s.counter.pc_q (run m s x (suc (suc (suc (suc (suc (suc k)))))))
            (returning k (omega arith)).waiting)
  ]

  arrived_line : s.counter.pc_q < word_mod → valid_out (run m s x 11) ≡ true
  unfolding run
  arrived_line l =
      returned m (run m s x 10) (x 10) s.counter.pc_q (h 10) (returning 4 (omega arith)) l

-- When the line of a 32-bit program counter is not in the cache, no request is pending and the
-- wrapper is ready, the instruction is valid eleven cycles later and not before, while the counter
-- is held.
pub fetch_miss :
    (m : Memory) (s : Frontend) (x : ℕ → Inputs)
    → ((n : ℕ) → IsHeld (x n))
    → s.icache.pending ≡ false
    → req_ready s.imem ≡ true
    → valid_out s ≡ false
    → s.counter.pc_q < word_mod
    → (valid_out (run m s x 11) ≡ true) × ((n : ℕ) → n < 11 → valid_out (run m s x n) ≡ false)
fetch_miss m s x h p r v l = (arrived_line m s x h p r v l, still_waiting m s x h p r v)
