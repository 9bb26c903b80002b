-- ===== src/Env/Vm.antt =====
-- riscv-tests/env/v/vm.c: demand paging of the test program, in the configuration of a 32-bit core
-- (Sv32). A failed assertion is `none`. The contents of a page are a number; `home` is the kernel's
-- view of the test program's pages (`uva2kva`), `phys` is physical memory by address.
pub mod Lfsr
pub mod Table
pub mod Paging
pub mod Steps
pub mod Isolation
pub mod Writeback
pub mod Eviction
use tartaruga.Base.{
  ℕ, zero, suc, Bool, true, false, ◌&&◌, not, ◌||◌, ◌+◌, ◌-◌, ◌*◌, ◌/◌, ◌%◌, ◌==◌, if◌then◌else◌,
  ltb, leb, update, bit_and, bit_or, bit_xor, Option, none, some,
}

abbrev pub max_test_pages : ℕ
max_test_pages = 63

-- LFSR_NEXT with LFSR_BITS = 6
unfoldable pub lfsr_next : ℕ → ℕ
lfsr_next x = bit_or (bit_and (bit_xor x (x / 2)) 1 * 32) (x / 2)

-- The loop of `vm_boot` that fills `freelist_nodes`: the value of `random` for node `i`.
unfoldable pub random_at : ℕ → ℕ → ℕ
random_at random zero = random
random_at random (suc i) = random_at (lfsr_next random) i

abbrev pub dram_base : ℕ
dram_base = 0x8000_0000

-- freelist_nodes[i].addr, where `entropy` is ENTROPY.
unfoldable pub node_addr : ℕ → ℕ → ℕ
node_addr entropy i =
    dram_base + (max_test_pages + random_at (1 + entropy % max_test_pages) i) * 4096

-- A `freelist_t*` points into one of the two arrays.
pub data Ref : Type 0 where
  free_node user_node : ℕ → Ref

-- freelist_t; a null pointer is `none`.
pub record Node : Type 0 where
  pub addr : ℕ
  pub next : Option Ref

pub record Vm : Type 0 where
  pub user_llpt : ℕ → ℕ
  pub user_mapping : ℕ → Node
  pub freelist_nodes : ℕ → Node
  pub freelist_head : Option Ref
  pub freelist_tail : Option Ref
  pub home : ℕ → ℕ
  pub phys : ℕ → ℕ

unfoldable pub deref : Vm → Ref → Node
deref s (free_node i) = s.freelist_nodes i
deref s (user_node i) = s.user_mapping i

-- `p->next = n`
unfoldable pub set_next : Vm → Ref → Option Ref → Vm
set_next s (free_node i) n = record s {
  freelist_nodes = update s.freelist_nodes i (record (s.freelist_nodes i) { next = n });
}
set_next s (user_node i) n = record s {
  user_mapping = update s.user_mapping i (record (s.user_mapping i) { next = n });
}

unfoldable pub same_ref : Option Ref → Option Ref → Bool
same_ref none none = true
same_ref (some (free_node i)) (some (free_node j)) = i == j
same_ref (some (user_node i)) (some (user_node j)) = i == j
same_ref _ _ = false

-- `pte & PTE_A` and `pte & PTE_D`
unfoldable pub is_accessed : ℕ → Bool
is_accessed pte = not (bit_and pte 0x40 == 0)

unfoldable pub is_dirty : ℕ → Bool
is_dirty pte = not (bit_and pte 0x80 == 0)

-- The physical page of an entry.
abbrev pub page_of : ℕ → ℕ
page_of pte = pte / 1024 * 4096

-- `addr >= PGSIZE && addr < MAX_TEST_PAGES * PGSIZE`
unfoldable pub in_range : ℕ → Bool
in_range addr = leb 4096 addr && ltb addr (max_test_pages * 4096)

-- CAUSE_STORE_PAGE_FAULT
abbrev pub store_page_fault : ℕ
store_page_fault = 15

-- `(node->addr >> PGSHIFT << PTE_PPN_SHIFT) | PTE_V | PTE_U | PTE_R | PTE_W | PTE_X`, or with the bits
-- of `pf_filter`, if it gives some.
unfoldable pub pte_for : ℕ → Option ℕ → ℕ
pte_for addr none = bit_or (addr / 4096 * 1024) 0x1f
pte_for addr (some bits) = bit_or (addr / 4096 * 1024) bits

-- A fault on a page that is mapped.
unfoldable pub touch : Vm → ℕ → ℕ → Option Vm
unfolding is_accessed is_dirty
touch s i cause =
    let pte = s.user_llpt i in
    if not (is_accessed pte)
    then some (record s { user_llpt = update s.user_llpt i (bit_or pte 0x40) })
    else if not (is_dirty pte) && cause == store_page_fault
    then some (record s { user_llpt = update s.user_llpt i (bit_or pte 0x80) })
    else none

-- Page `i` gets the page of a node that is taken from the free list.
unfoldable pub with_page : Vm → ℕ → Option ℕ → Ref → Vm
unfolding deref same_ref pte_for
with_page s i filter node =
    let n = deref s node in
    record s {
      freelist_head = n.next;
      freelist_tail = if same_ref n.next s.freelist_tail then none else s.freelist_tail;
      user_llpt = update s.user_llpt i (pte_for n.addr filter);
      user_mapping = update s.user_mapping i n;
      phys = update s.phys (page_of (pte_for n.addr filter)) (s.home i);
    }

-- A fault on a page that is not mapped. The copy of the page goes through its new entry, so the bits
-- of `pf_filter` are taken to allow a store of the kernel.
unfoldable pub map_page : Vm → ℕ → Option ℕ → Ref → Option Vm
unfolding with_page
map_page s i filter node =
    if (s.user_mapping i).addr == 0 then some (with_page s i filter node) else none

-- `pf_filter` comes from the test; it gives the bits for an address, if any.
unfoldable pub handle_fault : (ℕ → Option ℕ) → Vm → ℕ → ℕ → Option Vm
unfolding in_range touch map_page
handle_fault pf_filter s addr cause =
    let i = addr / 4096 in
    if in_range addr
    then if s.user_llpt i == 0
      then elim s.freelist_head [
        | none ↦ none
        | some node ↦ map_page s i (pf_filter (i * 4096)) node
      ]
      else touch s i cause
    else none

-- The node of page `i` becomes the last of the free list, after the last one that the list has.
unfoldable pub append_to : Vm → ℕ → Option Ref → Vm
unfolding set_next
append_to s i none = record s {
  freelist_head = some (user_node i);
  freelist_tail = some (user_node i);
}
append_to s i (some t) = record (set_next s t (some (user_node i))) {
  freelist_tail = some (user_node i);
}

unfoldable pub append_node : Vm → ℕ → Vm
unfolding append_to
append_node s i = append_to s i s.freelist_tail

-- The write-back, for a page whose node has an address.
unfoldable pub write_back : Vm → ℕ → Option Vm
unfolding is_accessed is_dirty
write_back s i =
    let pte = s.user_llpt i in
    let now = s.phys (page_of pte) in
    if not (is_accessed pte)
    then none
    else if now == s.home i
    then some s
    else if is_dirty pte
    then some (record s { home = update s.home i now })
    else none

unfoldable pub evict : Vm → ℕ → Option Vm
unfolding in_range write_back append_node
evict s addr =
    let i = addr / 4096 in
    if in_range addr
    then if (s.user_mapping i).addr == 0 then some s else elim (write_back s i) [
      | none ↦ none
      | some s' ↦
          let m = s'.user_mapping i in
          some (
            append_node
              (record s' { user_mapping = update s'.user_mapping i (record m { addr = 0 }) }) i)
    ]
    else none

-- freelist_nodes[i].next, before the last one is cleared and after.
unfoldable pub next_node : ℕ → Option Ref
next_node i = if i == max_test_pages - 1 then none else some (free_node (i + 1))

-- `vm_boot`, as far as the free list; `home` and `phys` are what the memory holds.
unfoldable pub vm_boot : ℕ → (ℕ → ℕ) → (ℕ → ℕ) → Vm
unfolding next_node
vm_boot entropy home phys = record {
  user_llpt = λ i. 0;
  user_mapping = λ i. record { addr = 0; next = none };
  freelist_nodes = λ i. record { addr = node_addr entropy i; next = next_node i };
  freelist_head = some (free_node 0);
  freelist_tail = some (free_node (max_test_pages - 1));
  home = home;
  phys = phys;
}

-- The loop of `handle_trap` for a user ecall: `n` pages from page `i` on.
unfoldable pub evict_from : ℕ → ℕ → Vm → Option Vm
evict_from zero i s = some s
evict_from (suc n) i s = elim (evict s (i * 4096)) [
  | none ↦ none
  | some s' ↦ evict_from n (i + 1) s'
]

unfoldable pub evict_all : Vm → Option Vm
evict_all s = evict_from (max_test_pages - 1) 1 s
