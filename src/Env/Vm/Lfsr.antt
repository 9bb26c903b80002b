-- ===== src/Env/Vm/Lfsr.antt =====
-- riscv-tests/env/v/vm.c and riscv_test.h: the pages of the free list.
use native.Mathlib.Decide.{dec_lt}
use tartaruga.Base.{
  ◌≢◌, ◌∙◌, ap, sym, ℕ, zero, suc, Bool, true, not, ◌&&◌, ◌+◌, ◌%◌, ◌*◌, ◌<◌, ◌≤◌, ◌≡◌, ◌==◌, leb,
  refl, arith,
}
use tartaruga.Env.Vm.{lfsr_next, random_at, node_addr, max_test_pages, dram_base}

-- Whether a value is not among those of the next `n` rounds.
unfoldable pub is_new : ℕ → ℕ → ℕ → Bool
is_new v zero x = true
is_new v (suc n) x = not (v == x) && is_new v n (lfsr_next x)

unfoldable pub are_new : ℕ → ℕ → Bool
unfolding is_new
are_new zero x = true
are_new (suc n) x = leb 1 x && leb x 63 && is_new x n (lfsr_next x) && are_new n (lfsr_next x)

-- Every start from 1 to `k`.
unfoldable pub all_starts : ℕ → Bool
unfolding are_new
all_starts zero = true
all_starts (suc k) = are_new 63 (suc k) && all_starts k

all_new : all_starts 63 ≡ true
unfolding all_starts lfsr_next
all_new = refl

is_new-random_at : (v n x k : ℕ) → is_new v n x ≡ true → k < n → v ≢ random_at x k
unfolding is_new random_at
is_new-random_at v zero x k h p = absurd (omega arith)
is_new-random_at v (suc n) x zero h p = ground arith
is_new-random_at v (suc n) x (suc k) h p =
    is_new-random_at v n (lfsr_next x) k (ground arith) (omega arith)

are_new-distinct :
    (n x i j : ℕ) → are_new n x ≡ true → i < j → j < n → random_at x i ≢ random_at x j
unfolding are_new random_at
are_new-distinct zero x i j h p q = absurd (omega arith)
are_new-distinct (suc n) x i zero h p q = absurd (omega arith)
are_new-distinct (suc n) x zero (suc j) h p q =
    is_new-random_at x n (lfsr_next x) j (ground arith) (omega arith)
are_new-distinct (suc n) x (suc i) (suc j) h p q =
    are_new-distinct n (lfsr_next x) i j (ground arith) (omega arith) (omega arith)

are_new-bounds :
    (n x i : ℕ) → are_new n x ≡ true → i < n → (1 ≤ random_at x i) × (random_at x i ≤ 63)
unfolding are_new random_at
are_new-bounds zero x i h p = absurd (omega arith)
are_new-bounds (suc n) x zero h p = (ground arith, ground arith)
are_new-bounds (suc n) x (suc i) h p = are_new-bounds n (lfsr_next x) i (ground arith) (omega arith)

and_left : (a b : Bool) → (a && b) ≡ true → a ≡ true
and_left a b h = ground arith

and_right : (a b : Bool) → (a && b) ≡ true → b ≡ true
and_right a b h = ground arith

all_starts-are_new : (k x : ℕ) → all_starts k ≡ true → x < k → are_new 63 (suc x) ≡ true
unfolding all_starts
all_starts-are_new zero x h p = absurd (omega arith)
all_starts-are_new (suc k) x h p = elim (dec_lt x k) [
  | yes q ↦ all_starts-are_new k x (and_right (are_new 63 (suc k)) (all_starts k) h) q
  | no q ↦
      let e : k ≡ x = omega arith in
      ap (λ t. are_new 63 (suc t)) (sym e) ∙ and_left (are_new 63 (suc k)) (all_starts k) h
]

-- The rounds from the start that `vm_boot` takes.
start-are_new : (e : ℕ) → are_new 63 (1 + e % max_test_pages) ≡ true
start-are_new e =
    let p : suc (e % 63) ≡ 1 + e % 63 = omega arith in
    ap (are_new 63) (sym p) ∙ all_starts-are_new 63 (e % 63) all_new (omega arith)

-- The nodes have different pages: the period of the LFSR is the number of nodes.
pub node_addr-distinct : (e i j : ℕ) → i < j → j < max_test_pages → node_addr e i ≢ node_addr e j
unfolding node_addr
node_addr-distinct e i j p q h =
    are_new-distinct 63 (1 + e % 63) i j (start-are_new e) p q (omega arith)

-- The pages of the nodes are whole pages after the ones that the test is loaded to.
pub node_addr-bounds :
    (e i : ℕ)
    → i < max_test_pages
    → (node_addr e i % 4096 ≡ 0)
      × (dram_base + 64 * 4096 ≤ node_addr e i)
      × (node_addr e i ≤ dram_base + 126 * 4096)
unfolding node_addr
node_addr-bounds e i p =
    let b = are_new-bounds 63 (1 + e % 63) i (start-are_new e) p in
    (omega arith, omega arith, omega arith)
