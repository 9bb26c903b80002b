-- ===== src/Env/Vm/Writeback.antt =====
-- riscv-tests/env/v/vm.c: the eviction of one page.
use tartaruga.Base.{
  ℕ, true, false, ◌/◌, ◌≡◌, ◌≢◌, inl, inr, ◌∙◌, ap, refl, arith, ◌==◌, if◌then◌else◌, update,
  update-here, update-there, Bool-cases, Option, none, some,
}
use native.Mathlib.Decide.{ℕ_discrete}
use tartaruga.Env.Vm.{
  Vm, Node, Ref, free_node, user_node, is_accessed, is_dirty, page_of, in_range, set_next,
  append_node, append_to, write_back, evict,
}

-- Page `i` is not mapped, or it was used, and is dirty if it has changed.
abbrev pub IsFlushable : Vm → ℕ → Type 0
IsFlushable s i =
    (s.user_mapping i).addr ≢ 0
    → (is_accessed (s.user_llpt i) ≡ true)
      × (s.phys (page_of (s.user_llpt i)) ≢ s.home i → is_dirty (s.user_llpt i) ≡ true)

-- What the kernel sees of page `i` once it is written back.
unfoldable pub flushed : Vm → ℕ → ℕ
flushed s i = if (s.user_mapping i).addr == 0 then s.home i else s.phys (page_of (s.user_llpt i))

pub record IsEvicted (s : Vm) (i : ℕ) (s' : Vm) : Type 0 where
  pub llpt : (j : ℕ) → s'.user_llpt j ≡ s.user_llpt j
  pub phys : (j : ℕ) → s'.phys j ≡ s.phys j
  pub others : (j : ℕ) → i ≢ j → (s'.user_mapping j).addr ≡ (s.user_mapping j).addr
  pub home : (j : ℕ) → s'.home j ≡ (if i == j then flushed s i else s.home j)

set_next-addr :
    (s : Vm) (r : Ref) (n : Option Ref) (j : ℕ)
    → ((set_next s r n).user_mapping j).addr ≡ (s.user_mapping j).addr
unfolding set_next
set_next-addr s (free_node i) n j = refl
set_next-addr s (user_node i) n j = elim (ℕ_discrete i j) [
  | yes e ↦
      ap (λ (m : Node). m.addr)
        (update-here s.user_mapping i j (record (s.user_mapping i) { next = n }) e)
      ∙ ap (λ k. (s.user_mapping k).addr) e
  | no e ↦
      ap (λ (m : Node). m.addr)
        (update-there s.user_mapping i j (record (s.user_mapping i) { next = n }) e)
]

-- The write-back, as what it does to the kernel's view.
write_back-lem :
    (s : Vm) (i : ℕ)
    → IsFlushable s i
    → (s.user_mapping i).addr ≢ 0
    → (h : ℕ → ℕ) × (write_back s i ≡ some (record s { home = h }))
      × ((j : ℕ) → h j ≡ (if i == j then s.phys (page_of (s.user_llpt i)) else s.home j))
unfolding write_back
write_back-lem s i f m =
    let now = s.phys (page_of (s.user_llpt i)) in
    let (a, d) = f m in
    elim (Bool-cases (now == s.home i)) [
      | inl e ↦ (
        s.home,
        rw (a, e) refl,
        λ j. elim (ℕ_discrete i j) [ yes q ↦ ground (arith, e, ap s.home q) | no q ↦ ground arith ],
      )
      | inr e ↦ (update s.home i now, rw (a, e, d (ground (arith, e))) refl, λ j. refl)
    ]

-- What an append to the free list keeps.
record IsKept (s s' : Vm) : Type 0 where
  llpt : (j : ℕ) → s'.user_llpt j ≡ s.user_llpt j
  phys : (j : ℕ) → s'.phys j ≡ s.phys j
  home : (j : ℕ) → s'.home j ≡ s.home j
  addrs : (j : ℕ) → (s'.user_mapping j).addr ≡ (s.user_mapping j).addr

set_next-IsKept : (s : Vm) (r : Ref) (n : Option Ref) → IsKept s (set_next s r n)
unfolding set_next
set_next-IsKept s (free_node i) n = record {
  llpt = λ j. refl;
  phys = λ j. refl;
  home = λ j. refl;
  addrs = λ j. refl;
}
set_next-IsKept s (user_node i) n = record {
  llpt = λ j. refl;
  phys = λ j. refl;
  home = λ j. refl;
  addrs = set_next-addr s (user_node i) n;
}

append_to-IsKept : (s : Vm) (i : ℕ) (t : Option Ref) → IsKept s (append_to s i t)
unfolding append_to
append_to-IsKept s i none = record {
  llpt = λ j. refl;
  phys = λ j. refl;
  home = λ j. refl;
  addrs = λ j. refl;
}
append_to-IsKept s i (some r) =
    let k = set_next-IsKept s r (some (user_node i)) in
    record { llpt = k.llpt; phys = k.phys; home = k.home; addrs = k.addrs }

-- The node of page `i` without its address.
unfoldable freed : Vm → ℕ → Vm
freed s i = record s {
  user_mapping = update s.user_mapping i (record (s.user_mapping i) { addr = 0 });
}

module _ (s : Vm) (addr : ℕ) (r : in_range addr ≡ true) where
  evict_unmapped : (s.user_mapping (addr / 4096)).addr ≡ 0 → evict s addr ≡ some s
  unfolding evict
  evict_unmapped z =
      let e : ((s.user_mapping (addr / 4096)).addr == 0) ≡ true = ground (arith, z) in
      rw (r, e) refl

  evict_mapped :
      (s' : Vm)
      → (s.user_mapping (addr / 4096)).addr ≢ 0
      → write_back s (addr / 4096) ≡ some s'
      → evict s addr ≡ some (append_node (freed s' (addr / 4096)) (addr / 4096))
  unfolding evict freed
  evict_mapped s' m w =
      let e : ((s.user_mapping (addr / 4096)).addr == 0) ≡ false = ground (arith, m) in
      rw (r, e, w) refl

  pub evict_lem :
      IsFlushable s (addr / 4096)
      → (s' : Vm) × (evict s addr ≡ some s') × IsEvicted s (addr / 4096) s'
  unfolding flushed append_node freed
  evict_lem f =
      let i = addr / 4096 in
      elim (ℕ_discrete (s.user_mapping i).addr 0) [
        | yes z ↦
            let e : ((s.user_mapping i).addr == 0) ≡ true = ground (arith, z) in
            (
              s,
              evict_unmapped z,
              record {
                llpt = λ j. refl;
                phys = λ j. refl;
                others = λ j n. refl;
                home = λ j. elim (ℕ_discrete i j) [
                  | yes q ↦ ground (arith, e, ap s.home q)
                  | no q ↦ ground arith
                ];
              },
            )
        | no m ↦
            let (h, w, u) = write_back-lem s i f m in
            let s1 = freed (record s { home = h }) i in
            let k = append_to-IsKept s1 i s1.freelist_tail in
            let e : ((s.user_mapping i).addr == 0) ≡ false = ground (arith, m) in
            (
              append_node s1 i,
              evict_mapped (record s { home = h }) m w,
              record {
                llpt = k.llpt;
                phys = k.phys;
                others = λ j n.
                    k.addrs j
                    ∙ ap (λ (x : Node). x.addr)
                        (update-there s.user_mapping i j (record (s.user_mapping i) { addr = 0 })
                          n);
                home = λ j. k.home j ∙ u j ∙ rw e refl;
              },
            )
      ]
