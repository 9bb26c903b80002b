-- ===== src/Env/Vm/Paging.antt =====
-- riscv-tests/env/v/vm.c: what the faults do to a page.
use tartaruga.Base.{
  ℕ, true, false, not, ◌&&◌, ◌+◌, ◌/◌, ◌<◌, ◌≡◌, ◌≢◌, ◌∙◌, refl, arith, ◌==◌, if◌then◌else◌, update,
  bit_or, Option, none, some,
}
use tartaruga.Base.Bits.{bit, bit-bit_or, bit-shift_right, bit-high}
use tartaruga.Masks.{digits-equal, and_ones, and_zeros, ones_then, zeros_then, and_none}
use tartaruga.Env.Vm.{Vm, is_accessed, is_dirty, touch, handle_fault, in_range, store_page_fault}

-- The bits of an entry below its page number.
pub or_low : (x b : ℕ) → b < 1024 → bit_or x b / 1024 ≡ x / 1024
or_low x b p = digits-equal (bit_or x b / 1024) (x / 1024) (λ i.
    bit-shift_right 10 (bit_or x b) i
    ∙ omega (
      arith,
      bit-bit_or (10 + i) x b,
      bit-shift_right 10 x i,
      bit-high 10 b (10 + i) p (omega arith),
    ))

is_accessed-bit : (x : ℕ) → is_accessed x ≡ not (bit x 6 == 0)
unfolding is_accessed ones_then zeros_then
is_accessed-bit x = ground (arith, and_zeros 6 x 1, and_ones 1 (x / 64) 0, and_none (x / 64 / 2))

is_dirty-bit : (x : ℕ) → is_dirty x ≡ not (bit x 7 == 0)
unfolding is_dirty ones_then zeros_then
is_dirty-bit x = ground (arith, and_zeros 7 x 1, and_ones 1 (x / 128) 0, and_none (x / 128 / 2))

set_accessed : (x : ℕ) → is_accessed (bit_or x 0x40) ≡ true
set_accessed x = is_accessed-bit (bit_or x 0x40) ∙ ground (arith, bit-bit_or 6 x 0x40)

set_accessed-is_dirty : (x : ℕ) → is_dirty (bit_or x 0x40) ≡ is_dirty x
set_accessed-is_dirty x =
    is_dirty-bit (bit_or x 0x40) ∙ ground (arith, bit-bit_or 7 x 0x40, is_dirty-bit x)

set_dirty : (x : ℕ) → is_dirty (bit_or x 0x80) ≡ true
set_dirty x = is_dirty-bit (bit_or x 0x80) ∙ ground (arith, bit-bit_or 7 x 0x80)

set_dirty-is_accessed : (x : ℕ) → is_accessed (bit_or x 0x80) ≡ is_accessed x
set_dirty-is_accessed x =
    is_accessed-bit (bit_or x 0x80) ∙ ground (arith, bit-bit_or 6 x 0x80, is_accessed-bit x)

accessed-nonzero : (x : ℕ) → is_accessed x ≡ true → (x == 0) ≡ false
accessed-nonzero x h = ground (arith, is_accessed-bit x)

-- The entry of page `i` is `pte`.
unfoldable pub with_pte : Vm → ℕ → ℕ → Vm
with_pte s i pte = record s { user_llpt = update s.user_llpt i pte }

with_pte-same : (s : Vm) (i x : ℕ) → (with_pte s i x).user_llpt i ≡ x
unfolding with_pte
with_pte-same s i x = ground arith

module _ (f : ℕ → Option ℕ) (s : Vm) (addr : ℕ) (r : in_range addr ≡ true) where
  pub fault_mapped :
      (cause : ℕ)
      → (s.user_llpt (addr / 4096) == 0) ≡ false
      → handle_fault f s addr cause ≡ touch s (addr / 4096) cause
  unfolding handle_fault
  fault_mapped cause h = rw (r, h) refl

  fault_new :
      (cause : ℕ)
      → (s.user_llpt (addr / 4096) == 0) ≡ false
      → is_accessed (s.user_llpt (addr / 4096)) ≡ false
      → handle_fault f s addr cause
        ≡ some (with_pte s (addr / 4096) (bit_or (s.user_llpt (addr / 4096)) 0x40))
  unfolding touch with_pte
  fault_new cause h a = fault_mapped cause h ∙ rw a refl

  fault_accessed :
      (cause x : ℕ)
      → s.user_llpt (addr / 4096) ≡ x
      → is_accessed x ≡ true
      → handle_fault f s addr cause ≡ (
          if not (is_dirty x) && cause == store_page_fault
          then some (with_pte s (addr / 4096) (bit_or x 0x80))
          else none)
  unfolding touch with_pte
  fault_accessed cause x e a = fault_mapped cause (rw e (accessed-nonzero x a)) ∙ rw (e, a) refl

-- A page that is mapped, neither accessed nor dirty, becomes accessed at its first fault; the next
-- fault makes it dirty if it is a store and fails if it is not; after that every fault of the page
-- fails.
pub handle_fault-mapped :
    (f : ℕ → Option ℕ) (s : Vm) (addr pte cause : ℕ)
    → in_range addr ≡ true
    → s.user_llpt (addr / 4096) ≡ pte
    → pte ≢ 0
    → is_accessed pte ≡ false
    → is_dirty pte ≡ false
    → let s1 = with_pte s (addr / 4096) (bit_or pte 0x40) in
      let s2 = with_pte s1 (addr / 4096) (bit_or (bit_or pte 0x40) 0x80) in
      (handle_fault f s addr cause ≡ some s1)
      × (handle_fault f s1 addr cause ≡ (if cause == store_page_fault then some s2 else none))
      × (handle_fault f s2 addr cause ≡ none)
handle_fault-mapped f s addr pte cause r e n a d =
    let x = bit_or pte 0x40 in
    let y = bit_or x 0x80 in
    let i = addr / 4096 in
    let s1 = with_pte s i x in
    (
      fault_new f s addr r cause (rw e (ground arith)) (rw e a) ∙ rw e refl,
      fault_accessed f s1 addr r cause x (with_pte-same s i x) (set_accessed pte)
          ∙ rw (set_accessed-is_dirty pte, d) refl,
      fault_accessed f (with_pte s1 i y) addr r cause y (with_pte-same s1 i y)
            (set_dirty-is_accessed x ∙ set_accessed pte)
          ∙ rw (set_dirty x) refl,
    )
