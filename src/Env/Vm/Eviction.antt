-- ===== src/Env/Vm/Eviction.antt =====
-- riscv-tests/env/v/vm.c: what is written back when the test ends.
use mathlib.Core.Path.{subst}
use tartaruga.Base.{
  ℕ, zero, suc, true, ◌&&◌, ◌+◌, ◌*◌, ◌/◌, ◌<◌, ◌≤◌, ◌≡◌, ◌≢◌, ◌∙◌, ap, sym, refl, arith,
  if◌then◌else◌, ltb, leb, some,
}
use native.Mathlib.Decide.{ℕ_discrete}
use tartaruga.Env.Vm.{
  Vm, is_accessed, is_dirty, page_of, in_range, max_test_pages, evict, evict_from, evict_all,
}
use tartaruga.Env.Vm.Writeback.{IsFlushable, flushed, IsEvicted, evict_lem}

-- The other pages after an eviction.
module _ (s s' : Vm) (i j : ℕ) (h : IsEvicted s i s') (n : i ≢ j) where
  same_home : s'.home j ≡ s.home j
  same_home = h.home j ∙ ground (arith, n)

  same_view : s'.phys (page_of (s'.user_llpt j)) ≡ s.phys (page_of (s.user_llpt j))
  same_view = ap (λ x. s'.phys (page_of x)) (h.llpt j) ∙ h.phys _

  evicted-flushed : flushed s' j ≡ flushed s j
  unfolding flushed
  evicted-flushed = rw (h.others j n, same_home, same_view) refl

  evicted-IsFlushable : IsFlushable s j → IsFlushable s' j
  evicted-IsFlushable f m =
      let (a, d) = f (λ z. m (h.others j n ∙ z)) in
      (
        ap is_accessed (h.llpt j) ∙ a,
        λ c. ap is_dirty (h.llpt j) ∙ d (λ z. c (same_view ∙ z ∙ sym same_home)),
      )

page_in_range : (i : ℕ) → 1 ≤ i → i < max_test_pages → in_range (i * 4096) ≡ true
unfolding in_range
page_in_range i p q = ground arith

evict_page :
    (s : Vm) (i : ℕ)
    → 1 ≤ i
    → i < max_test_pages
    → IsFlushable s i
    → (s' : Vm) × (evict s (i * 4096) ≡ some s') × IsEvicted s i s'
evict_page s i p q f =
    let e : i * 4096 / 4096 ≡ i = omega arith in
    let (s', k, h) =
      evict_lem s (i * 4096) (page_in_range i p q) (subst (IsFlushable s) (sym e) f) in
    (s', k, subst (λ t. IsEvicted s t s') e h)

evict_from-suc :
    (n i : ℕ) (s s1 : Vm)
    → evict s (i * 4096) ≡ some s1
    → evict_from (suc n) i s ≡ evict_from n (i + 1) s1
unfolding evict_from
evict_from-suc n i s s1 k = rw (evict_from, k) refl

first_home :
    (s s1 : Vm) (i n j : ℕ)
    → IsEvicted s i s1
    → (if leb (i + 1) j && ltb j (i + 1 + n) then flushed s1 j else s1.home j)
      ≡ (if leb i j && ltb j (i + suc n) then flushed s j else s.home j)
first_home s s1 i n j h = elim (ℕ_discrete i j) [
  | yes e ↦ ground (arith, e, ap (flushed s) e, h.home j)
  | no e ↦ ground (arith, e, h.home j, evicted-flushed s s1 i j h e)
]

evict_from_lem :
    (n i : ℕ) (s : Vm)
    → 1 ≤ i
    → i + n ≤ max_test_pages
    → ((j : ℕ) → i ≤ j → j < i + n → IsFlushable s j)
    → (s' : Vm) × (evict_from n i s ≡ some s')
      × ((j : ℕ) → s'.home j ≡ (if leb i j && ltb j (i + n) then flushed s j else s.home j))
unfolding evict_from
evict_from_lem zero i s p q f = (s, refl, λ j. ground arith)
evict_from_lem (suc n) i s p q f =
    let (s1, k, h) = evict_page s i p (omega arith) (f i (omega arith) (omega arith)) in
    let (s', l, m) =
      evict_from_lem n (i + 1) s1 (omega arith) (omega arith)
        (λ j a b. evicted-IsFlushable s s1 i j h (omega arith) (f j (omega arith) (omega arith))) in
    (s', evict_from-suc n i s s1 k ∙ l, λ j. m j ∙ first_home s s1 i n j h)

-- When every mapped page of the test is accessed, and dirty if it has changed, the evictions at the
-- end of the test succeed and leave the contents of every mapped page in the kernel's view, and the
-- view of the other pages as it was.
pub evict_all-flushed :
    (s : Vm)
    → ((j : ℕ) → 1 ≤ j → j < max_test_pages → IsFlushable s j)
    → (s' : Vm) × (evict_all s ≡ some s')
      × ((j : ℕ) → 1 ≤ j → j < max_test_pages → s'.home j ≡ flushed s j)
unfolding evict_all
evict_all-flushed s f =
    let (s', k, h) =
      evict_from_lem 62 1 s (omega arith) (omega arith) (λ j p q. f j p (omega arith)) in
    (s', k, λ j p q. h j ∙ ground arith)
