-- ===== src/Wrapper/Pipes.antt =====
-- rtl/caches/dmem_wrapper.sv: the ends of the pipes in a cycle.
use tartaruga.Base.{sym, ℕ, zero, suc, Bool, true, false, ◌<◌, ◌≡◌, ◌∙◌, ap, refl, arith}
use native.Mathlib.Decide.{ℕ_discrete}
use tartaruga.Sim.Memory.{Memory}
use tartaruga.Wrapper.{
  Request, Wrapper, memory_next, rsp_next, none_valid, req_ready, lat, read_line, write_line,
}

pub none_valid-false : (v : ℕ → Bool) (n i : ℕ) → none_valid v n ≡ true → i < n → v i ≡ false
unfolding none_valid
none_valid-false v zero i h p = absurd (omega arith)
none_valid-false v (suc n) i h p = elim (ℕ_discrete i n) [
  | yes e ↦ ap v e ∙ ground arith
  | no e ↦ none_valid-false v n i (ground arith) (omega arith)
]

module _ (w : Wrapper) (r : req_ready w ≡ true) where
  pub req-invalid : (i : ℕ) → i < lat → (w.req i).valid ≡ false
  unfolding req_ready
  req-invalid i p = none_valid-false (λ j. (w.req j).valid) lat i (ground arith) p

  pub rsp-invalid : (i : ℕ) → i < lat → (w.rsp i).valid ≡ false
  unfolding req_ready
  rsp-invalid i p = none_valid-false (λ j. (w.rsp j).valid) lat i (ground arith) p

pub memory_next-idle : (w : Wrapper) (m : Memory) → (w.req 4).valid ≡ false → memory_next w m ≡ m
unfolding memory_next
memory_next-idle w m h = rw h refl

pub rsp_next-idle :
    (w : Wrapper) (m : Memory) → (w.req 4).valid ≡ false → (rsp_next w m).valid ≡ false
unfolding rsp_next
rsp_next-idle w m h = rw h refl

-- The data stay where no request arrives.
pub rsp_next-kept :
    (w : Wrapper) (m : Memory)
    → (w.req 4).valid ≡ false
    → (k : ℕ) → (rsp_next w m).words k ≡ (w.rsp 0).words k
unfolding rsp_next
rsp_next-kept w m h k = rw h refl

-- So they do where a write arrives.
pub rsp_next-write :
    (w : Wrapper) (m : Memory)
    → (w.req 4).we ≡ true
    → (k : ℕ) → (rsp_next w m).words k ≡ (w.rsp 0).words k
unfolding rsp_next
rsp_next-write w m h k = ground (arith, h)

none_valid-busy : (v : ℕ → Bool) (n i : ℕ) → v i ≡ true → i < n → none_valid v n ≡ false
unfolding none_valid
none_valid-busy v zero i h p = absurd (omega arith)
none_valid-busy v (suc n) i h p = elim (ℕ_discrete i n) [
  | yes e ↦ let q : v n ≡ true = ap v (sym e) ∙ h in ground arith
  | no e ↦ ground (arith, none_valid-busy v n i h (omega arith))
]

pub busy-req : (w : Wrapper) (i : ℕ) → i < lat → (w.req i).valid ≡ true → req_ready w ≡ false
unfolding req_ready
busy-req w i p h = ground (arith, none_valid-busy (λ j. (w.req j).valid) lat i h p)

pub busy-rsp : (w : Wrapper) (i : ℕ) → i < lat → (w.rsp i).valid ≡ true → req_ready w ≡ false
unfolding req_ready
busy-rsp w i p h = ground (arith, none_valid-busy (λ j. (w.rsp j).valid) lat i h p)

-- The response that a valid request makes, and the memory after it.
module _ (w : Wrapper) (m : Memory) (q : Request) (e : w.req 4 ≡ q) (v : q.valid ≡ true) where
  pub rsp_next-valid : ((rsp_next w m).valid ≡ true) × ((rsp_next w m).addr ≡ q.addr)
  unfolding rsp_next
  rsp_next-valid = rw (e, v) (refl, refl)

  pub rsp_next-read : q.we ≡ false → (k : ℕ) → (rsp_next w m).words k ≡ read_line m q.addr k
  unfolding rsp_next
  rsp_next-read u k = rw (e, v, u) refl

  pub memory_next-write : q.we ≡ true → memory_next w m ≡ write_line m q.addr q.words
  unfolding memory_next
  memory_next-write u = rw (e, v, u) refl
