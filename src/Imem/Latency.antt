-- ===== src/Imem/Latency.antt =====
-- rtl/caches/imem_wrapper.sv: a request on its way through the pipes, when each response is taken at
-- once.
use tartaruga.Base.{ℕ, zero, suc, Bool, true, false, ◌<◌, ◌≤◌, ◌≡◌, ◌∙◌, ◌==◌, refl, arith}
use tartaruga.Sim.Memory.{Memory}
use tartaruga.Imem.{Imem, Inputs, imem_step}
use tartaruga.Imem.Pipes.{
  valid-last, valid-first, valid-between, words-next, addr-next, request-first, request-next,
}

-- A pipe of 5 stages with a valid entry in stage `j` alone; with none if `j` is 5 or more.
abbrev pub IsOnly : ℕ → (ℕ → Bool) → Type 0
IsOnly j v = (i : ℕ) → i < 5 → v i ≡ (i == j)

module _ (m : Memory) (q : Imem) (x : Inputs) where
  -- The requests move by one stage.
  pub requests-move :
      (j : ℕ)
      → IsOnly j q.req_valid
      → x.req_valid ≡ false
      → IsOnly (suc j) (imem_step m q x).req_valid
  requests-move j h n zero p = (request-first m q x).0 ∙ n ∙ ground arith
  requests-move j h n (suc i) p =
      (request-next m q x i (omega arith)).0 ∙ h i (omega arith) ∙ ground arith

  pub requests-enter :
      (j : ℕ)
      → IsOnly j q.req_valid
      → 4 ≤ j
      → x.req_valid ≡ true
      → IsOnly 0 (imem_step m q x).req_valid
  requests-enter j h l n zero p = (request-first m q x).0 ∙ n ∙ ground arith
  requests-enter j h l n (suc i) p =
      (request-next m q x i (omega arith)).0 ∙ h i (omega arith) ∙ ground arith

  -- So do the responses.
  pub responses-move :
      (j : ℕ)
      → IsOnly j q.valid
      → q.req_valid 4 ≡ false
      → x.rsp_ready ≡ true
      → IsOnly (suc j) (imem_step m q x).valid
  responses-move j h n r zero p = ground (arith, valid-first m q x, n, h 0, h 1)
  responses-move j h n r (suc zero) p = ground (arith, valid-between m q x 0, h 0, h 1, h 2)
  responses-move j h n r (suc (suc zero)) p = ground (arith, valid-between m q x 1, h 1, h 2, h 3)
  responses-move j h n r (suc (suc (suc zero))) p =
      ground (arith, valid-between m q x 2, h 2, h 3, h 4)
  responses-move j h n r (suc (suc (suc (suc zero)))) p =
      ground (arith, valid-last m q x, h 3, h 4, r)
  responses-move j h n r (suc (suc (suc (suc (suc i))))) p = absurd (omega arith)

  pub responses-enter :
      (j : ℕ) → IsOnly j q.valid → 5 ≤ j → q.req_valid 4 ≡ true → IsOnly 0 (imem_step m q x).valid
  responses-enter j h l n zero p = ground (arith, valid-first m q x, n)
  responses-enter j h l n (suc zero) p = ground (arith, valid-between m q x 0, h 0, h 1, h 2)
  responses-enter j h l n (suc (suc zero)) p = ground (arith, valid-between m q x 1, h 1, h 2, h 3)
  responses-enter j h l n (suc (suc (suc zero))) p =
      ground (arith, valid-between m q x 2, h 2, h 3, h 4)
  responses-enter j h l n (suc (suc (suc (suc zero)))) p =
      ground (arith, valid-last m q x, h 3, h 4)
  responses-enter j h l n (suc (suc (suc (suc (suc i))))) p = absurd (omega arith)

  -- The line of the entry that moves.
  pub line-moves :
      (j : ℕ)
      → IsOnly j q.valid
      → j < 4
      → ((imem_step m q x).words (suc j) ≡ q.words j) × ((imem_step m q x).addr (suc j) ≡ q.addr j)
  line-moves j h p =
      let e : q.valid (suc j) ≡ false = h (suc j) (omega arith) ∙ ground arith in
      (words-next m q x j p ∙ rw e refl, addr-next m q x j p ∙ rw e refl)
