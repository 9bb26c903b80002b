-- ===== src/Env/Vm/Isolation.antt =====
-- riscv-tests/env/v/vm.c: the states that faults lead to from `vm_boot`.

use tartaruga.Base.{
  ℕ, true, ◌+◌, ◌*◌, ◌/◌, ◌≤◌, ◌≡◌, ◌≢◌, ◌∙◌, ap, sym, refl, arith, update-here, update-there,
  Option, some,
}
use tartaruga.Env.Vm.{
  Vm, free_node, page_of, pte_for, with_page, handle_fault, in_range, deref, vm_boot, dram_base,
}
use tartaruga.Env.Vm.Lfsr.{node_addr-bounds}
use tartaruga.Env.Vm.Table.{other-page, count, count-le}
use tartaruga.Env.Vm.Steps.{
  IsFilter, IsPaged, boot-IsPaged, page-lt, first-nonzero, first-page, fault_unmapped,
  handle_fault-IsPaged,
}

-- The states from boot on. The program may write any page between two faults.
pub data IsBooted (f : ℕ → Option ℕ) (e : ℕ) : Vm → Type 0 where
  boot : (home phys : ℕ → ℕ) → IsBooted f e (vm_boot e home phys)
  fault :
      {s : Vm} (addr cause : ℕ) (s' : Vm)
      → handle_fault f s addr cause ≡ some s'
      → IsBooted f e s
      → IsBooted f e s'
  write : {s : Vm} (phys : ℕ → ℕ) → IsBooted f e s → IsBooted f e (record s { phys = phys })

IsBooted-IsPaged : {f : ℕ → Option ℕ} {e : ℕ} {s : Vm} → IsFilter f → IsBooted f e s → IsPaged e s
IsBooted-IsPaged {e = e} w (boot home phys) = boot-IsPaged e home phys
IsBooted-IsPaged {f = f} {e = e} w (fault addr cause s' k b) =
    handle_fault-IsPaged e f w _ (IsBooted-IsPaged w b) addr cause s' k
IsBooted-IsPaged w (write phys b) =
    let h = IsBooted-IsPaged w b in
    record { nodes = h.nodes; head = h.head; clear = h.clear; table = h.table }

-- In every state that faults lead to from boot, two pages that are mapped have different physical
-- pages, among the 63 after the first 64. The bits of the filter lie below 1024.
pub IsBooted-separate :
    {f : ℕ → Option ℕ} {e : ℕ} {s : Vm} (i j : ℕ)
    → IsFilter f
    → IsBooted f e s
    → s.user_llpt i ≢ 0
    → s.user_llpt j ≢ 0
    → i ≢ j
    → (page_of (s.user_llpt i) ≢ page_of (s.user_llpt j))
      × (dram_base + 64 * 4096 ≤ page_of (s.user_llpt i))
      × (page_of (s.user_llpt i) ≤ dram_base + 126 * 4096)
IsBooted-separate {e = e} {s = s} i j w b n m d =
    let t = (IsBooted-IsPaged w b).table in
    let (k, l, p) = t.held i n in
    let q = node_addr-bounds e k (omega (arith, count-le s.user_llpt 63)) in
    ((λ u. d (t.single i j n m u)), omega (arith, q, p), omega (arith, q, p))

-- In every state that faults lead to from boot, a fault of a page of the test that is not mapped
-- succeeds: the page is mapped and holds what the kernel sees of it, and the contents of the pages
-- that were mapped stay as they were. The bits of the filter lie below 1024; between faults the
-- program may write any page.
pub handle_fault-unmapped :
    {f : ℕ → Option ℕ} {e : ℕ} {s : Vm} (addr cause : ℕ)
    → IsFilter f
    → IsBooted f e s
    → in_range addr ≡ true
    → s.user_llpt (addr / 4096) ≡ 0
    → (s' : Vm) × (handle_fault f s addr cause ≡ some s')
      × (s'.user_llpt (addr / 4096) ≢ 0)
      × (s'.phys (page_of (s'.user_llpt (addr / 4096))) ≡ s.home (addr / 4096))
      × ((j : ℕ)
          → s.user_llpt j ≢ 0
          → s'.phys (page_of (s'.user_llpt j)) ≡ s.phys (page_of (s.user_llpt j)))
unfolding with_page deref
handle_fault-unmapped {f = f} {e = e} {s = s} addr cause w b r n =
    let i = addr / 4096 in
    let q = f (i * 4096) in
    let h = IsBooted-IsPaged w b in
    let l = page-lt e f w s h addr cause r in
    let k = count s.user_llpt 63 in
    let y = pte_for (s.freelist_nodes k).addr q in
    let here = update-here s.user_llpt i i y refl in
    (
      with_page s i q (free_node k),
      fault_unmapped e f w s h addr cause r n,
      (λ z. first-nonzero e s i q h n l (w (i * 4096)) (sym here ∙ z)),
      update-here s.phys (page_of y) _ (s.home i) (sym (ap page_of here)),
      (λ j m.
          let there = update-there s.user_llpt i j y (λ z. m (ap s.user_llpt (sym z) ∙ n)) in
          let other =
            other-page e s.user_llpt i y h.table (first-nonzero e s i q h n l (w (i * 4096))) n l
              (first-page e s i q h n l (w (i * 4096))) j m in
          rw there (
            update-there s.phys (page_of y) (page_of (s.user_llpt j)) (s.home i)
              (λ z. other (sym z)))),
    )
