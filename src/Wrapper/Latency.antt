-- ===== src/Wrapper/Latency.antt =====
-- rtl/caches/dmem_wrapper.sv: a request and its response.
use tartaruga.Base.{ℕ, zero, suc, true, false, ◌<◌, ◌≤◌, ◌≡◌, ◌∙◌, ap, refl, arith}
use tartaruga.Wrapper.{
  Request, Response, System, wrapper_step, memory_next, rsp_next, none_valid, req_ready, response,
  lat, read_line, write_line,
}
use tartaruga.Wrapper.Pipes.{
  req-invalid, rsp-invalid, memory_next-idle, rsp_next-idle, busy-req, busy-rsp, rsp_next-valid,
  rsp_next-read, memory_next-write,
}

-- The states of the cycles that follow, with the requests at the input.
unfoldable pub after : System → (ℕ → Request) → ℕ → System
after s y zero = s
after s y (suc n) = wrapper_step (after s y n) (y n)

-- A request at the end of its pipes, and what it leaves at the start of the response pipes.
pub arrived :
    (s : System) (y : ℕ → Request) (n : ℕ)
    → (after s y (suc (suc (suc (suc (suc n)))))).wrapper.req 4 ≡ y n
unfolding after wrapper_step
arrived s y n = refl

pub entered :
    (s : System) (y : ℕ → Request) (n : ℕ)
    → (after s y (suc n)).wrapper.rsp 0 ≡ rsp_next (after s y n).wrapper (after s y n).memory
unfolding after wrapper_step
entered s y n = refl

pub memory_after :
    (s : System) (y : ℕ → Request) (n : ℕ)
    → (after s y (suc n)).memory ≡ memory_next (after s y n).wrapper (after s y n).memory
unfolding after wrapper_step
memory_after s y n = refl

module _ (s : System) (y : ℕ → Request) (r : req_ready s.wrapper ≡ true) where
  pub idle_request : (n : ℕ) → n < lat → ((after s y n).wrapper.req 4).valid ≡ false
  unfolding after wrapper_step
  idle_request zero p = req-invalid s.wrapper r 4 (omega arith)
  idle_request (suc zero) p = req-invalid s.wrapper r 3 (omega arith)
  idle_request (suc (suc zero)) p = req-invalid s.wrapper r 2 (omega arith)
  idle_request (suc (suc (suc zero))) p = req-invalid s.wrapper r 1 (omega arith)
  idle_request (suc (suc (suc (suc zero)))) p = req-invalid s.wrapper r 0 (omega arith)
  idle_request (suc (suc (suc (suc (suc n))))) p = absurd (omega arith)

  pub idle_memory : (n : ℕ) → n ≤ lat → (after s y n).memory ≡ s.memory
  unfolding after wrapper_step
  idle_memory zero p = refl
  idle_memory (suc n) p =
      memory_next-idle (after s y n).wrapper (after s y n).memory (idle_request n (omega arith))
      ∙ idle_memory n (omega arith)

  -- The request has reached the end of its pipes.
  pub arrives : (after s y 5).wrapper.req 4 ≡ y 0
  unfolding after wrapper_step
  arrives = refl

  -- What enters the response pipes comes out four cycles later.
  pub comes_out :
      (n : ℕ)
      → response (after s y (suc (suc (suc (suc (suc n)))))).wrapper
        ≡ rsp_next (after s y n).wrapper (after s y n).memory
  unfolding after wrapper_step
  comes_out n = refl

  pub early : (n : ℕ) → n < 10 → (response (after s y n).wrapper).valid ≡ false
  unfolding after wrapper_step
  early zero p = rsp-invalid s.wrapper r 4 (omega arith)
  early (suc zero) p = rsp-invalid s.wrapper r 3 (omega arith)
  early (suc (suc zero)) p = rsp-invalid s.wrapper r 2 (omega arith)
  early (suc (suc (suc zero))) p = rsp-invalid s.wrapper r 1 (omega arith)
  early (suc (suc (suc (suc zero)))) p = rsp-invalid s.wrapper r 0 (omega arith)
  early (suc (suc (suc (suc (suc n))))) p =
      rsp_next-idle (after s y n).wrapper (after s y n).memory (idle_request n (omega arith))

-- A free wrapper with no request stays free.
pub free-stays :
    (s : System) (q : Request)
    → req_ready s.wrapper ≡ true
    → q.valid ≡ false
    → req_ready (wrapper_step s q).wrapper ≡ true
unfolding req_ready none_valid wrapper_step
free-stays s q r v =
    let w = s.wrapper in
    rw
      (
        v,
        rsp_next-idle w s.memory (req-invalid w r 4 (omega arith)),
        req-invalid w r 0 (omega arith),
        req-invalid w r 1 (omega arith),
        req-invalid w r 2 (omega arith),
        req-invalid w r 3 (omega arith),
        rsp-invalid w r 0 (omega arith),
        rsp-invalid w r 1 (omega arith),
        rsp-invalid w r 2 (omega arith),
        rsp-invalid w r 3 (omega arith),
      )
      refl

-- A valid request that comes when the wrapper is ready, and its answer, by the line operations.
pub request_answered :
    (s : System) (y : ℕ → Request)
    → req_ready s.wrapper ≡ true
    → (y 0).valid ≡ true
    → let q = y 0 in
      let out = response (after s y 10).wrapper in
      (out.valid ≡ true)
      × (out.addr ≡ q.addr)
      × (q.we ≡ false → (k : ℕ) → out.words k ≡ read_line s.memory q.addr k)
      × (q.we ≡ true → (after s y 6).memory ≡ write_line s.memory q.addr q.words)
      × ((n : ℕ) → n < 10 → (response (after s y n).wrapper).valid ≡ false)
request_answered s y r v =
    let w = (after s y 5).wrapper in
    let m = (after s y 5).memory in
    let e = arrives s y r in
    let i = idle_memory s y r 5 (omega arith) in
    let (a, b) = rsp_next-valid w m (y 0) e v in
    (
      ap (λ (t : Response). t.valid) (comes_out s y r 5) ∙ a,
      ap (λ (t : Response). t.addr) (comes_out s y r 5) ∙ b,
      (λ u k.
          ap (λ (t : Response). t.words k) (comes_out s y r 5)
          ∙ rsp_next-read w m (y 0) e v u k
          ∙ ap (λ t. read_line t (y 0).addr k) i),
      (λ u.
          memory_after s y 5
          ∙ memory_next-write w m (y 0) e v u
          ∙ ap (λ t. write_line t (y 0).addr (y 0).words) i),
      early s y r,
    )

-- The response on its way through the pipes.
busy-answer :
    (s : System) (y : ℕ → Request)
    → (rsp_next (after s y 5).wrapper (after s y 5).memory).valid ≡ true
    → (n : ℕ) → n < 5
    → req_ready (after s y (suc (suc (suc (suc (suc (suc n))))))).wrapper ≡ false
unfolding after wrapper_step
busy-answer s y h zero p = busy-rsp (after s y 6).wrapper 0 (omega arith) h
busy-answer s y h (suc zero) p = busy-rsp (after s y 7).wrapper 1 (omega arith) h
busy-answer s y h (suc (suc zero)) p = busy-rsp (after s y 8).wrapper 2 (omega arith) h
busy-answer s y h (suc (suc (suc zero))) p = busy-rsp (after s y 9).wrapper 3 (omega arith) h
busy-answer s y h (suc (suc (suc (suc zero)))) p = busy-rsp (after s y 10).wrapper 4 (omega arith) h
busy-answer s y h (suc (suc (suc (suc (suc n))))) p = absurd (omega arith)

-- The wrapper takes no request until the cycle after the response.
pub busy :
    (s : System) (y : ℕ → Request)
    → req_ready s.wrapper ≡ true
    → (y 0).valid ≡ true
    → (n : ℕ) → n < 10
    → req_ready (after s y (suc n)).wrapper ≡ false
unfolding after wrapper_step
busy s y r v zero p = busy-req (after s y 1).wrapper 0 (omega arith) v
busy s y r v (suc zero) p = busy-req (after s y 2).wrapper 1 (omega arith) v
busy s y r v (suc (suc zero)) p = busy-req (after s y 3).wrapper 2 (omega arith) v
busy s y r v (suc (suc (suc zero))) p = busy-req (after s y 4).wrapper 3 (omega arith) v
busy s y r v (suc (suc (suc (suc zero)))) p = busy-req (after s y 5).wrapper 4 (omega arith) v
busy s y r v (suc (suc (suc (suc (suc n))))) p =
    let w = (after s y 5).wrapper in
    let h = (rsp_next-valid w (after s y 5).memory (y 0) (arrives s y r) v).0 in
    busy-answer s y h n (omega arith)
