-- ===== src/Env/Vm/Table.antt =====
-- riscv-tests/env/v/vm.c: the table `user_llpt` as pages are given to it in the order of the free
-- list.
use tartaruga.Base.{
  ℕ, zero, suc, ◌+◌, ◌<◌, ◌≤◌, ◌≡◌, ◌≢◌, ◌∙◌, ap, sym, refl, arith, ◌==◌, if◌then◌else◌, update,
}
use native.Mathlib.Decide.{ℕ_discrete}
use tartaruga.Env.Vm.{page_of, node_addr, max_test_pages}
use tartaruga.Env.Vm.Lfsr.{node_addr-distinct}

-- The number of pages below `n` that are mapped.
unfoldable pub count : (ℕ → ℕ) → ℕ → ℕ
count t zero = 0
count t (suc n) = (if t n == 0 then 0 else 1) + count t n

pub count-le : (t : ℕ → ℕ) (n : ℕ) → count t n ≤ n
unfolding count
count-le t zero = omega arith
count-le t (suc n) = ground (arith, count-le t n)

pub count-lt : (t : ℕ → ℕ) (i n : ℕ) → t i ≡ 0 → i < n → count t n < n
unfolding count
count-lt t i zero h p = absurd (omega arith)
count-lt t i (suc n) h p = elim (ℕ_discrete i n) [
  | yes e ↦ let q : t n ≡ 0 = ap t (sym e) ∙ h in ground (arith, count-le t n)
  | no e ↦ ground (arith, count-lt t i n h (omega arith))
]

count-beyond : (t : ℕ → ℕ) (i y n : ℕ) → n ≤ i → count (update t i y) n ≡ count t n
unfolding count
count-beyond t i y zero p = refl
count-beyond t i y (suc n) p = ground (arith, count-beyond t i y n (omega arith))

pub count-new :
    (t : ℕ → ℕ) (i y n : ℕ) → t i ≡ 0 → y ≢ 0 → i < n → count (update t i y) n ≡ 1 + count t n
unfolding count
count-new t i y zero h k p = absurd (omega arith)
count-new t i y (suc n) h k p = elim (ℕ_discrete i n) [
  | yes e ↦ let q : t n ≡ 0 = ap t (sym e) ∙ h in ground (arith, count-beyond t i y n (omega arith))
  | no e ↦ ground (arith, count-new t i y n h k (omega arith))
]

pub count-same : (t : ℕ → ℕ) (i y n : ℕ) → t i ≢ 0 → y ≢ 0 → count (update t i y) n ≡ count t n
unfolding count
count-same t i y zero h k = refl
count-same t i y (suc n) h k = elim (ℕ_discrete i n) [
  | yes e ↦ let q : t n ≢ 0 = (λ z. h (ap t e ∙ z)) in ground (arith, count-same t i y n h k)
  | no e ↦ ground (arith, count-same t i y n h k)
]

-- The pages that are mapped have the first nodes of the free list, each its own.
pub record IsTable (e : ℕ) (t : ℕ → ℕ) : Type 0 where
  pub held :
      (i : ℕ) → t i ≢ 0 → (j : ℕ) × (j < count t max_test_pages) × (page_of (t i) ≡ node_addr e j)
  pub single : (i j : ℕ) → t i ≢ 0 → t j ≢ 0 → page_of (t i) ≡ page_of (t j) → i ≡ j

module _ (e : ℕ) (t : ℕ → ℕ) (i y : ℕ) (h : IsTable e t) (m : y ≢ 0) where
  module _ (n : t i ≢ 0) (p : page_of y ≡ page_of (t i)) where
    page-same : (a : ℕ) → page_of (update t i y a) ≡ page_of (t a)
    page-same a = elim (ℕ_discrete i a) [ yes q ↦ ground (arith, p, ap t q) | no q ↦ ground arith ]

    mapped-same : (a : ℕ) → update t i y a ≢ 0 → t a ≢ 0
    mapped-same a b = elim (ℕ_discrete i a) [ yes q ↦ (λ z. n (ap t q ∙ z)) | no q ↦ ground arith ]

    -- Another entry for the same page.
    pub IsTable-same : IsTable e (update t i y)
    IsTable-same = record {
      held = λ a b.
          let (j, k, q) = h.held a (mapped-same a b) in
          (j, omega (arith, k, count-same t i y 63 n m), page-same a ∙ q);
      single = λ a b c d q.
          h.single a b (mapped-same a c) (mapped-same b d) (sym (page-same a) ∙ q ∙ page-same b);
    }

  module _ (n : t i ≡ 0) (l : i < max_test_pages)
      (p : page_of y ≡ node_addr e (count t max_test_pages)) where
    -- A page that was mapped before has another node.
    pub other-page : (a : ℕ) → t a ≢ 0 → page_of (t a) ≢ page_of y
    other-page a b q =
        let (j, k, r) = h.held a b in
        node_addr-distinct e j (count t 63) k (count-lt t i 63 n l) (sym r ∙ q ∙ p)

    held-new :
        (a : ℕ)
        → update t i y a ≢ 0
        → (j : ℕ) × (j < count (update t i y) max_test_pages)
          × (page_of (update t i y a) ≡ node_addr e j)
    held-new a b = elim (ℕ_discrete i a) [
      | yes q ↦ (count t 63, omega (arith, count-new t i y 63 n m l), ground (arith, p))
      | no q ↦
          let (j, k, r) = h.held a (ground arith) in
          (j, omega (arith, k, count-new t i y 63 n m l), ground (arith, r))
    ]

    single-new :
        (a b : ℕ)
        → update t i y a ≢ 0
        → update t i y b ≢ 0
        → page_of (update t i y a) ≡ page_of (update t i y b)
        → a ≡ b
    single-new a b c d q = elim (ℕ_discrete i a) [
      | yes u ↦ elim (ℕ_discrete i b) [
        | yes v ↦ sym u ∙ v
        | no v ↦ absurd (other-page b (ground arith) (ground arith))
      ]
      | no u ↦ elim (ℕ_discrete i b) [
        | yes v ↦ absurd (other-page a (ground arith) (ground arith))
        | no v ↦ h.single a b (ground arith) (ground arith) (ground arith)
      ]
    ]

    -- The next node of the free list for a page that was not mapped.
    pub IsTable-new : IsTable e (update t i y)
    IsTable-new = record { held = held-new; single = single-new }
