-- ===== src/Env/Vm/Steps.antt =====
-- riscv-tests/env/v/vm.c: what boot and each fault keep of the page table and the free list.
use mathlib.Core.Option.{some-injective}
use mathlib.Core.Path.{subst}
use tartaruga.Base.{
  ℕ, Bool, true, false, not, ◌&&◌, ◌+◌, ◌*◌, ◌/◌, ◌%◌, ◌<◌, ◌≤◌, ◌≡◌, ◌≢◌, inl, inr, ◌∙◌, ap, sym,
  refl, arith, ◌==◌, if◌then◌else◌, update, update-here, update-there, ltb, Bool-cases, bit_or,
  Option, none, some,
}
use native.Mathlib.Decide.{ℕ_discrete}
use tartaruga.Env.Vm.{
  Vm, Node, free_node, is_accessed, is_dirty, page_of, pte_for, touch, map_page, with_page,
  handle_fault, in_range, store_page_fault, deref, vm_boot, dram_base, next_node, node_addr,
  max_test_pages,
}
use tartaruga.Env.Vm.Lfsr.{node_addr-bounds}
use tartaruga.Env.Vm.Table.{
  IsTable, IsTable-same, IsTable-new, count, count-le, count-lt, count-new, count-same,
}
use tartaruga.Env.Vm.Paging.{or_low, with_pte, fault_mapped}

-- The bits of the filter lie below the page number.
abbrev pub IsFilter : (ℕ → Option ℕ) → Type 0
IsFilter f = (a b : ℕ) → f a ≡ some b → b < 1024

pub record IsPaged (e : ℕ) (s : Vm) : Type 0 where
  pub nodes : (j : ℕ) → s.freelist_nodes j ≡ record { addr = node_addr e j; next = next_node j }
  pub head : s.freelist_head ≡ (
      if ltb (count s.user_llpt max_test_pages) max_test_pages
      then some (free_node (count s.user_llpt max_test_pages))
      else none)
  pub clear : (i : ℕ) → s.user_llpt i ≡ 0 → (s.user_mapping i).addr ≡ 0
  pub table : IsTable e s.user_llpt

pub boot-IsPaged : (e : ℕ) (home phys : ℕ → ℕ) → IsPaged e (vm_boot e home phys)
unfolding vm_boot count
boot-IsPaged e home phys = record {
  nodes = λ j. refl;
  head = refl;
  clear = λ i h. refl;
  table = record { held = λ i h. absurd (h refl); single = λ i j h k p. absurd (h refl) };
}

-- The page of an entry is one of the nodes'.
held-page :
    (e : ℕ) (s : Vm) (i : ℕ) → IsPaged e s → s.user_llpt i ≢ 0 → dram_base ≤ page_of (s.user_llpt i)
held-page e s i h n =
    let (j, k, p) = h.table.held i n in
    omega (arith, p, node_addr-bounds e j (omega (arith, count-le s.user_llpt 63)))

still_clear : (t : ℕ → ℕ) (i y j : ℕ) → y ≢ 0 → update t i y j ≡ 0 → t j ≡ 0
still_clear t i y j m h = ground arith

with_pte-IsPaged :
    (e : ℕ) (s : Vm) (i b : ℕ)
    → IsPaged e s
    → s.user_llpt i ≢ 0
    → b < 1024
    → b ≢ 0
    → IsPaged e (with_pte s i (bit_or (s.user_llpt i) b))
unfolding with_pte
with_pte-IsPaged e s i b h n p q =
    let x = s.user_llpt i in
    let y = bit_or x b in
    let o : page_of y ≡ page_of x = ap (λ t. t * 4096) (or_low x b p) in
    let m : y ≢ 0 = omega (arith, o, held-page e s i h n) in
    let c = count-same s.user_llpt i y 63 n m in
    record {
      nodes = h.nodes;
      head = rw c h.head;
      clear = λ j k. h.clear j (still_clear s.user_llpt i y j m k);
      table = IsTable-same e s.user_llpt i y h.table m n o;
    }

pte_for-page :
    (a : ℕ) (filter : Option ℕ)
    → a % 4096 ≡ 0
    → ((b : ℕ) → filter ≡ some b → b < 1024)
    → page_of (pte_for a filter) ≡ a
unfolding pte_for
pte_for-page a none h l = omega (arith, or_low (a / 4096 * 1024) 0x1f (omega arith))
pte_for-page a (some b) h l = omega (arith, or_low (a / 4096 * 1024) b (l b refl))

next_node-suc :
    (k : ℕ)
    → k < max_test_pages
    → next_node k ≡ (if ltb (1 + k) max_test_pages then some (free_node (1 + k)) else none)
unfolding next_node
next_node-suc k p = let e : k + 1 ≡ 1 + k = omega arith in ground (arith, e, ap free_node e)

-- The node that is first in the free list.
module _ (e : ℕ) (s : Vm) (i : ℕ) (filter : Option ℕ) (h : IsPaged e s) (n : s.user_llpt i ≡ 0)
    (l : i < max_test_pages) (w : (b : ℕ) → filter ≡ some b → b < 1024) where
  first-lt : count s.user_llpt max_test_pages < max_test_pages
  first-lt = count-lt s.user_llpt i 63 n l

  first-head : s.freelist_head ≡ some (free_node (count s.user_llpt max_test_pages))
  first-head = h.head ∙ ground (arith, first-lt)

  first-addr :
      (s.freelist_nodes (count s.user_llpt max_test_pages)).addr
      ≡ node_addr e (count s.user_llpt max_test_pages)
  first-addr = ap (λ (m : Node). m.addr) (h.nodes (count s.user_llpt 63))

  first-next :
      (s.freelist_nodes (count s.user_llpt max_test_pages)).next
      ≡ next_node (count s.user_llpt max_test_pages)
  first-next = ap (λ (m : Node). m.next) (h.nodes (count s.user_llpt 63))

  pub first-page :
      page_of (pte_for (s.freelist_nodes (count s.user_llpt max_test_pages)).addr filter)
      ≡ node_addr e (count s.user_llpt max_test_pages)
  first-page =
      let b = node_addr-bounds e (count s.user_llpt 63) first-lt in
      rw first-addr (pte_for-page (node_addr e (count s.user_llpt 63)) filter b.0 w)

  pub first-nonzero : pte_for (s.freelist_nodes (count s.user_llpt max_test_pages)).addr filter ≢ 0
  first-nonzero = omega (arith, first-page, node_addr-bounds e (count s.user_llpt 63) first-lt)

  with_page-IsPaged :
      IsPaged e (with_page s i filter (free_node (count s.user_llpt max_test_pages)))
  unfolding with_page deref next_node
  with_page-IsPaged =
      let k = count s.user_llpt 63 in
      let y = pte_for (s.freelist_nodes k).addr filter in
      record {
        nodes = h.nodes;
        head =
            rw (count-new s.user_llpt i y 63 n first-nonzero l)
              (first-next ∙ next_node-suc k first-lt);
        clear = λ j q. elim (ℕ_discrete i j) [
          | yes c ↦ absurd (first-nonzero (sym (update-here s.user_llpt i j y c) ∙ q))
          | no c ↦
              ap (λ (m : Node). m.addr) (update-there s.user_mapping i j (s.freelist_nodes k) c)
              ∙ h.clear j (sym (update-there s.user_llpt i j y c) ∙ q)
        ];
        table = IsTable-new e s.user_llpt i y h.table first-nonzero n l first-page;
      }

none-some : {A : Type 0} → (x : A) → ¬ (none ≡ some x)
none-some x h = ground (arith, h)

some_if :
    {A : Type 0}
    → (c : Bool) (x y : A) → (if c then some x else none) ≡ some y
    → (c ≡ true) × (x ≡ y)
some_if true x y h = (refl, some-injective _ _ h)
some_if false x y h = absurd (ground (arith, h))

touch-with_pte :
    (s s' : Vm) (i cause : ℕ)
    → touch s i cause ≡ some s'
    → (b : ℕ) × (b < 1024) × (b ≢ 0) × (with_pte s i (bit_or (s.user_llpt i) b) ≡ s')
unfolding touch with_pte
touch-with_pte s s' i cause h = elim (Bool-cases (is_accessed (s.user_llpt i))) [
  | inl a ↦
      let x = s.user_llpt i in
      let e : touch s i cause ≡ (
          if not (is_dirty x) && cause == store_page_fault
          then some (with_pte s i (bit_or x 0x80))
          else none) =
        rw a refl in
      let q = some_if _ _ _ (sym e ∙ h) in (0x80, omega arith, omega arith, q.1)
  | inr a ↦
      let x = s.user_llpt i in
      let e : touch s i cause ≡ some (with_pte s i (bit_or x 0x40)) = rw a refl in
      (0x40, omega arith, omega arith, some-injective _ _ (sym e ∙ h))
]

module _ (e : ℕ) (f : ℕ → Option ℕ) (w : IsFilter f) (s : Vm) (h : IsPaged e s)
    (addr cause : ℕ) where
  pub page-lt : in_range addr ≡ true → addr / 4096 < max_test_pages
  unfolding in_range
  page-lt r = ground arith

  pub fault_unmapped :
      in_range addr ≡ true
      → s.user_llpt (addr / 4096) ≡ 0
      → handle_fault f s addr cause
        ≡ some (
            with_page s
              (addr / 4096)
              (f (addr / 4096 * 4096))
              (free_node (count s.user_llpt max_test_pages)))
  unfolding handle_fault map_page
  fault_unmapped r n =
      let i = addr / 4096 in
      let q = f (i * 4096) in
      let z : (s.user_llpt i == 0) ≡ true = ground (arith, n) in
      let c : ((s.user_mapping i).addr == 0) ≡ true = ground (arith, h.clear i n) in
      rw (r, z, first-head e s i q h n (page-lt r) (w (i * 4096)), c) refl

  mapped-IsPaged :
      (s' : Vm)
      → s.user_llpt (addr / 4096) ≢ 0
      → touch s (addr / 4096) cause ≡ some s'
      → IsPaged e s'
  mapped-IsPaged s' n k =
      let i = addr / 4096 in
      let (b, p, q, u) = touch-with_pte s s' i cause k in
      subst (IsPaged e) u (with_pte-IsPaged e s i b h n p q)

  fault_outside : in_range addr ≡ false → handle_fault f s addr cause ≡ none
  unfolding handle_fault
  fault_outside r = rw r refl

  pub handle_fault-IsPaged : (s' : Vm) → handle_fault f s addr cause ≡ some s' → IsPaged e s'
  handle_fault-IsPaged s' k =
      let i = addr / 4096 in
      elim (Bool-cases (in_range addr)) [
        | inl r ↦ elim (ℕ_discrete (s.user_llpt i) 0) [
          | yes n ↦
              let u = some-injective _ _ (sym (fault_unmapped r n) ∙ k) in
              subst (IsPaged e) u
                (with_page-IsPaged e s i (f (i * 4096)) h n (page-lt r) (w (i * 4096)))
          | no n ↦ mapped-IsPaged s' n (sym (fault_mapped f s addr r cause (ground (arith, n))) ∙ k)
        ]
        | inr r ↦ absurd (none-some s' (sym (fault_outside r) ∙ k))
      ]
