-- ===== src/Imem/Pipes.antt =====
-- rtl/caches/imem_wrapper.sv: the stages of the pipes after a cycle.
use tartaruga.Base.{ℕ, zero, suc, true, ◌&&◌, not, ◌<◌, ◌≡◌, if◌then◌else◌, refl, arith}
use tartaruga.Sim.Memory.{Memory}
use tartaruga.Imem.{
  Imem, Inputs, read_line, shift_stage, shift, take_response, read_request, imem_step,
}

module _ (m : Memory) (q : Imem) (x : Inputs) where
  -- The valid bits after a cycle.
  pub valid-last : (imem_step m q x).valid 4 ≡ (if q.valid 4 then not x.rsp_ready else q.valid 3)
  unfolding imem_step shift shift_stage take_response read_request
  valid-last = ground arith

  pub valid-first :
      (imem_step m q x).valid 0 ≡ (if q.req_valid 4 then true else q.valid 0 && q.valid 1)
  unfolding imem_step shift shift_stage take_response read_request
  valid-first = ground arith

  pub valid-between :
      (i : ℕ)
      → i < 3
      → (imem_step m q x).valid (suc i)
        ≡ (if q.valid (suc i) then q.valid (suc (suc i)) else q.valid i)
  unfolding imem_step shift shift_stage take_response read_request
  valid-between zero p = ground arith
  valid-between (suc zero) p = ground arith
  valid-between (suc (suc zero)) p = ground arith
  valid-between (suc (suc (suc i))) p = absurd (omega arith)

  pub words-first :
      (imem_step m q x).words 0 ≡ (if q.req_valid 4 then read_line m (q.req_addr 4) else q.words 0)
  unfolding imem_step shift shift_stage take_response read_request
  words-first = ground arith

  pub addr-first : (imem_step m q x).addr 0 ≡ (if q.req_valid 4 then q.req_addr 4 else q.addr 0)
  unfolding imem_step shift shift_stage take_response read_request
  addr-first = ground arith

  pub words-next :
      (i : ℕ)
      → i < 4
      → (imem_step m q x).words (suc i) ≡ (if q.valid (suc i) then q.words (suc i) else q.words i)
  unfolding imem_step shift shift_stage take_response read_request
  words-next zero p = ground arith
  words-next (suc zero) p = ground arith
  words-next (suc (suc zero)) p = ground arith
  words-next (suc (suc (suc zero))) p = ground arith
  words-next (suc (suc (suc (suc i)))) p = absurd (omega arith)

  pub addr-next :
      (i : ℕ)
      → i < 4
      → (imem_step m q x).addr (suc i) ≡ (if q.valid (suc i) then q.addr (suc i) else q.addr i)
  unfolding imem_step shift shift_stage take_response read_request
  addr-next zero p = ground arith
  addr-next (suc zero) p = ground arith
  addr-next (suc (suc zero)) p = ground arith
  addr-next (suc (suc (suc zero))) p = ground arith
  addr-next (suc (suc (suc (suc i)))) p = absurd (omega arith)

  pub request-first :
      ((imem_step m q x).req_valid 0 ≡ x.req_valid) × ((imem_step m q x).req_addr 0 ≡ x.pc)
  unfolding imem_step
  request-first = (refl, refl)

  pub request-next :
      (i : ℕ)
      → i < 4
      → ((imem_step m q x).req_valid (suc i) ≡ q.req_valid i)
        × ((imem_step m q x).req_addr (suc i) ≡ q.req_addr i)
  unfolding imem_step shift shift_stage take_response read_request
  request-next zero p = (ground arith, ground arith)
  request-next (suc zero) p = (ground arith, ground arith)
  request-next (suc (suc zero)) p = (ground arith, ground arith)
  request-next (suc (suc (suc zero))) p = (ground arith, ground arith)
  request-next (suc (suc (suc (suc i)))) p = absurd (omega arith)
