-- ===== src/Tests/Paging.antt =====
-- The paging environment after boot and after a fault of page 1.
use tartaruga.Base.{
  ℕ, true, false, ◌+◌, ◌*◌, ◌/◌, ◌<◌, ◌≤◌, ◌≡◌, ◌≢◌, ◌==◌, if◌then◌else◌, Option, some, none, refl,
  arith, bit_or,
}
use tartaruga.Env.Vm.{
  Vm, vm_boot, handle_fault, in_range, free_node, page_of, is_accessed, is_dirty, store_page_fault,
  dram_base, evict_all, max_test_pages, with_page, pte_for, node_addr, random_at, lfsr_next,
}
use native.Mathlib.Decide.{ℕ_discrete}
use mathlib.Core.Path.{subst}
use tartaruga.Env.Vm.Paging.{with_pte, handle_fault-mapped}
use tartaruga.Env.Vm.Steps.{IsFilter}
use tartaruga.Env.Vm.Isolation.{IsBooted, boot, fault, IsBooted-separate, handle_fault-unmapped}
use tartaruga.Env.Vm.Writeback.{IsFlushable, flushed}
use tartaruga.Env.Vm.Eviction.{evict_all-flushed}

abbrev no_filter : ℕ → Option ℕ
no_filter a = none

no_filter-IsFilter : IsFilter no_filter
no_filter-IsFilter a b h = absurd (ground (arith, h))

-- Page `i` of the test program holds `i`, physical memory nothing.
abbrev booted : Vm
booted = vm_boot 5 (λ i. i) (λ i. 0)

booted-IsBooted : IsBooted no_filter 5 booted
booted-IsBooted = boot (λ i. i) (λ i. 0)

first_page-in_range : in_range 4096 ≡ true
unfolding in_range
first_page-in_range = refl

first_page-clear : booted.user_llpt (4096 / 4096) ≡ 0
unfolding vm_boot
first_page-clear = refl

handle_fault-unmapped_example :
    (s' : Vm) × (handle_fault no_filter booted 4096 13 ≡ some s')
    × (s'.user_llpt (4096 / 4096) ≢ 0)
    × (s'.phys (page_of (s'.user_llpt (4096 / 4096))) ≡ booted.home (4096 / 4096))
    × ((j : ℕ)
        → booted.user_llpt j ≢ 0
        → s'.phys (page_of (s'.user_llpt j)) ≡ booted.phys (page_of (booted.user_llpt j)))
handle_fault-unmapped_example =
    handle_fault-unmapped 4096 13 no_filter-IsFilter booted-IsBooted first_page-in_range
      first_page-clear

-- The pages 1 and 2 are mapped.
abbrev one_page : Vm
one_page = with_page booted 1 none (free_node 0)

abbrev two_pages : Vm
two_pages = with_page one_page 2 none (free_node 1)

first_fault : handle_fault no_filter booted 4096 13 ≡ some one_page
unfolding handle_fault vm_boot
first_fault = refl

second_fault : handle_fault no_filter one_page 8192 13 ≡ some two_pages
unfolding handle_fault with_page vm_boot
second_fault = refl

two_pages-IsBooted : IsBooted no_filter 5 two_pages
two_pages-IsBooted =
    fault 8192 13 two_pages second_fault (fault 4096 13 one_page first_fault booted-IsBooted)

nonzero : (x : ℕ) → (x == 0) ≡ false → x ≢ 0
nonzero x h = ground arith

first-mapped : (two_pages.user_llpt 1 == 0) ≡ false
unfolding with_page vm_boot pte_for node_addr random_at lfsr_next
first-mapped = refl

second-mapped : (two_pages.user_llpt 2 == 0) ≡ false
unfolding with_page vm_boot pte_for node_addr random_at lfsr_next
second-mapped = refl

IsBooted-separate_example :
    (page_of (two_pages.user_llpt 1) ≢ page_of (two_pages.user_llpt 2))
    × (dram_base + 64 * 4096 ≤ page_of (two_pages.user_llpt 1))
    × (page_of (two_pages.user_llpt 1) ≤ dram_base + 126 * 4096)
IsBooted-separate_example =
    IsBooted-separate 1 2 no_filter-IsFilter two_pages-IsBooted (nonzero _ first-mapped)
      (nonzero _ second-mapped) (omega arith)

page_1-mapped : (one_page.user_llpt 1 == 0) ≡ false
unfolding with_page vm_boot pte_for node_addr random_at lfsr_next
page_1-mapped = refl

page_1-accessed : is_accessed (one_page.user_llpt 1) ≡ false
unfolding with_page vm_boot pte_for node_addr random_at lfsr_next is_accessed
page_1-accessed = refl

page_1-dirty : is_dirty (one_page.user_llpt 1) ≡ false
unfolding with_page vm_boot pte_for node_addr random_at lfsr_next is_dirty
page_1-dirty = refl

handle_fault-mapped_example :
    let pte = one_page.user_llpt 1 in
    let s1 = with_pte one_page 1 (bit_or pte 0x40) in
    let s2 = with_pte s1 1 (bit_or (bit_or pte 0x40) 0x80) in
    (handle_fault no_filter one_page 4096 15 ≡ some s1)
    × (handle_fault no_filter s1 4096 15 ≡ (if 15 == store_page_fault then some s2 else none))
    × (handle_fault no_filter s2 4096 15 ≡ none)
handle_fault-mapped_example =
    handle_fault-mapped no_filter one_page 4096 (one_page.user_llpt 1) 15 first_page-in_range refl
      (nonzero _ page_1-mapped) page_1-accessed page_1-dirty

-- Page 1 was written: it holds 9 now.
abbrev used : Vm
used = record (with_pte one_page 1 (bit_or (one_page.user_llpt 1) 0xc0)) { phys = λ a. 9 }

used_page-IsFlushable : IsFlushable used 1
unfolding with_pte with_page vm_boot pte_for node_addr random_at lfsr_next is_accessed is_dirty
used_page-IsFlushable m = (refl, λ c. refl)

used-IsFlushable : (j : ℕ) → 1 ≤ j → j < max_test_pages → IsFlushable used j
unfolding with_pte with_page vm_boot
used-IsFlushable j p q = elim (ℕ_discrete 1 j) [
  | yes e ↦ subst (IsFlushable used) e used_page-IsFlushable
  | no n ↦ (λ m. absurd (ground arith))
]

evict_all-flushed_example :
    (s' : Vm) × (evict_all used ≡ some s')
    × ((j : ℕ) → 1 ≤ j → j < max_test_pages → s'.home j ≡ flushed used j)
evict_all-flushed_example = evict_all-flushed used used-IsFlushable
