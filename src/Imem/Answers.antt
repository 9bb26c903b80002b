-- ===== src/Imem/Answers.antt =====
-- rtl/caches/imem_wrapper.sv: the lines in the pipes against a memory of words.
use mathlib.Core.Path.{subst}
use tartaruga.Base.{
  ℕ, zero, suc, true, false, ◌+◌, ◌*◌, ◌/◌, ◌%◌, ◌<◌, ◌≡◌, ◌∙◌, ap, sym, refl, arith, add32,
  word_mod, Bool-cases, inl, inr,
}
use tartaruga.Sim.Memory.{Memory}
use tartaruga.Sim.Memory.Laws.{word_at}
use tartaruga.Imem.{Imem, Inputs, reset, read_line, imem_step}
use tartaruga.Imem.Pipes.{
  valid-last, valid-first, valid-between, words-first, words-next, addr-first, addr-next,
  request-first, request-next,
}

-- The words of the simulator's memory.
abbrev pub Reads : Memory → (ℕ → ℕ) → Type 0
Reads m memory = (a : ℕ) → a < word_mod → word_at m a ≡ memory (a / 4)

-- A line that holds what memory has at an address.
abbrev pub IsLineAt : (ℕ → ℕ) → (ℕ → ℕ) → ℕ → Type 0
IsLineAt memory w a = (a < word_mod) × ((k : ℕ) → k < 16 → w k ≡ memory (a / 64 * 16 + k))

abbrev pub IsLineAddress : ℕ → Type 0
IsLineAddress a = (a % 64 ≡ 0) × (a < word_mod)

pub record IsAnswered (q : Imem) (memory : ℕ → ℕ) : Type 0 where
  pub asked : (i : ℕ) → i < 5 → q.req_valid i ≡ true → IsLineAddress (q.req_addr i)
  pub answers : (i : ℕ) → i < 5 → q.valid i ≡ true → IsLineAt memory (q.words i) (q.addr i)

pub reset-IsAnswered : (memory : ℕ → ℕ) → IsAnswered reset memory
unfolding reset
reset-IsAnswered memory = record { asked = λ i p v. cc; answers = λ i p v. cc }

read_line-IsLineAt :
    (m : Memory) (memory : ℕ → ℕ) (a : ℕ)
    → Reads m memory
    → IsLineAddress a
    → IsLineAt memory (read_line m a) a
unfolding read_line
read_line-IsLineAt m memory a h (d, l) = (
  l,
  λ k p.
      let e : add32 a (k * 4) / 4 ≡ a / 64 * 16 + k = omega arith in
      h (add32 a (k * 4)) (omega arith) ∙ ap memory e,
)

same-IsLineAt :
    (memory w v : ℕ → ℕ) (a b : ℕ) → w ≡ v → a ≡ b → IsLineAt memory v b → IsLineAt memory w a
same-IsLineAt memory w v a b e f h =
    subst (λ t. IsLineAt memory t a) (sym e) (subst (IsLineAt memory v) (sym f) h)

module _ (m : Memory) (q : Imem) (x : Inputs) where
  -- A slot that becomes valid was empty, and the one before it was valid.
  valid-source :
      (i : ℕ)
      → i < 4
      → (imem_step m q x).valid (suc i) ≡ true
      → q.valid (suc i) ≡ false
      → q.valid i ≡ true
  valid-source zero p h n = ground (arith, h, n, valid-between m q x 0)
  valid-source (suc zero) p h n = ground (arith, h, n, valid-between m q x 1)
  valid-source (suc (suc zero)) p h n = ground (arith, h, n, valid-between m q x 2)
  valid-source (suc (suc (suc zero))) p h n = ground (arith, h, n, valid-last m q x)
  valid-source (suc (suc (suc (suc i)))) p h n = absurd (omega arith)

  module _ (memory : ℕ → ℕ) (h : IsAnswered q memory) where
    next_answer :
        (i : ℕ)
        → i < 4
        → (imem_step m q x).valid (suc i) ≡ true
        → IsLineAt memory ((imem_step m q x).words (suc i)) ((imem_step m q x).addr (suc i))
    next_answer i p v = elim (Bool-cases (q.valid (suc i))) [
      | inl e ↦
          same-IsLineAt memory _ (q.words (suc i)) _ (q.addr (suc i))
            (words-next m q x i p ∙ rw e refl) (addr-next m q x i p ∙ rw e refl)
            (h.answers (suc i) (omega arith) e)
      | inr e ↦
          same-IsLineAt memory _ (q.words i) _ (q.addr i) (words-next m q x i p ∙ rw e refl)
            (addr-next m q x i p ∙ rw e refl) (h.answers i (omega arith) (valid-source i p v e))
    ]

    first_answer :
        Reads m memory
        → (imem_step m q x).valid 0 ≡ true
        → IsLineAt memory ((imem_step m q x).words 0) ((imem_step m q x).addr 0)
    first_answer r v = elim (Bool-cases (q.req_valid 4)) [
      | inl e ↦
          same-IsLineAt memory _ (read_line m (q.req_addr 4)) _ (q.req_addr 4)
            (words-first m q x ∙ rw e refl) (addr-first m q x ∙ rw e refl)
            (read_line-IsLineAt m memory (q.req_addr 4) r (h.asked 4 (omega arith) e))
      | inr e ↦
          same-IsLineAt memory _ (q.words 0) _ (q.addr 0) (words-first m q x ∙ rw e refl)
            (addr-first m q x ∙ rw e refl)
            (h.answers 0 (omega arith) (ground (arith, v, e, valid-first m q x)))
    ]

    answers-next :
        Reads m memory
        → (i : ℕ) → i < 5
        → (imem_step m q x).valid i ≡ true
        → IsLineAt memory ((imem_step m q x).words i) ((imem_step m q x).addr i)
    answers-next r zero p v = first_answer r v
    answers-next r (suc i) p v = next_answer i (omega arith) v

    asked-next :
        (x.req_valid ≡ true → IsLineAddress x.pc)
        → (i : ℕ) → i < 5
        → (imem_step m q x).req_valid i ≡ true
        → IsLineAddress ((imem_step m q x).req_addr i)
    asked-next f zero p v =
        let (a, b) = request-first m q x in subst IsLineAddress (sym b) (f (sym a ∙ v))
    asked-next f (suc i) p v =
        let (a, b) = request-next m q x i (omega arith) in
        subst IsLineAddress (sym b) (h.asked i (omega arith) (sym a ∙ v))

    -- A clock cycle keeps every line in the pipes equal to memory.
    pub imem_step-IsAnswered :
        Reads m memory
        → (x.req_valid ≡ true → IsLineAddress x.pc)
        → IsAnswered (imem_step m q x) memory
    imem_step-IsAnswered r f = record { asked = asked-next f; answers = answers-next r }
