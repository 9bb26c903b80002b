-- ===== src/Icache/Replacement.antt =====
-- rtl/caches/icache.sv: which line a response replaces.

use tartaruga.Base.{
  ℕ, zero, suc, Bool, true, false, ◌&&◌, ◌<◌, ◌≡◌, ◌≢◌, ◌∙◌, ◌==◌, ap, sym, refl, arith,
  update-here, Bool-cases, inl, inr, some,
}
use mathlib.Core.Option.{some-injective}
use tartaruga.Icache.{
  Icache, CacheLine, Inputs, index, tag_in, find_way, hit_way, hit, lru_loop, lru_hit, touch,
  lru_fill, lru_way, ways_next, icache_step,
}
use tartaruga.Icache.Coherent.{fresh, step-ways, ways_next-here, ways_next-there}

find_way-lt : (c : Icache) (a n i : ℕ) → find_way c a n ≡ some i → i < n
unfolding find_way
find_way-lt c a zero i h = cc
find_way-lt c a (suc n) i h =
    elim (Bool-cases ((c.ways (index a) n).valid && (c.ways (index a) n).tag == tag_in a)) [
      | inl e ↦ let q : n ≡ i = some-injective _ _ (ground (arith, h, e)) in omega arith
      | inr e ↦ let r = find_way-lt c a n i (ground (arith, h, e)) in omega (arith, r)
    ]

lru_loop-hit : (old way : ℕ) → way < 2 → lru_loop old old way old 2 ≡ 0
unfolding lru_loop
lru_loop-hit old zero p = ground arith
lru_loop-hit old (suc zero) p = ground arith
lru_loop-hit old (suc (suc n)) p = absurd (omega arith)

found-way : (c : Icache) (a i : ℕ) → hit_way c a ≡ some i → find_way c a 2 ≡ some i
unfolding hit_way
found-way c a i h = h

-- A hit clears the counter of its set, whichever way it is in.
pub lru-hit :
    (c : Icache) (x : Inputs) (way : ℕ)
    → hit_way c x.pc ≡ some way
    → x.rsp_valid ≡ false
    → (icache_step c x).lru (index x.pc) ≡ 0
unfolding icache_step lru_hit lru_fill touch
lru-hit c x way h v =
    let i = index x.pc in
    let old = c.lru i in
    let e = find_way-lt c x.pc 2 way (found-way c x.pc way h) in
    rw v (
      ap (λ o. touch c.lru i o i) h
      ∙ update-here c.lru i i (lru_loop old old way old 2) refl
      ∙ lru_loop-hit old way e)

-- The two ways that a lookup compares.
matches_way : Icache → ℕ → ℕ → Bool
matches_way c a i = (c.ways (index a) i).valid && (c.ways (index a) i).tag == tag_in a

first_way : (c : Icache) (a : ℕ) → hit_way c a ≡ some 0 → matches_way c a 1 ≡ false
unfolding hit_way find_way matches_way
first_way c a h = ground (arith, h)

no_way :
    (c : Icache) (a : ℕ) → matches_way c a 0 ≡ false → matches_way c a 1 ≡ false → hit c a ≡ false
unfolding hit hit_way find_way matches_way
no_way c a h g = rw (h, g) refl

same_way :
    (c d : Icache) (a i : ℕ)
    → d.ways (index a) i ≡ c.ways (index a) i
    → matches_way d a i ≡ matches_way c a i
unfolding matches_way
same_way c d a i e = ap (λ (l : CacheLine). l.valid && l.tag == tag_in a) e

way_zero : (c : Icache) (i : ℕ) → c.lru i ≡ 0 → lru_way c i ≡ 0
unfolding lru_way
way_zero c i h = rw h refl

-- A response for another line of the set fills the way that the counter names.
replaced :
    (c : Icache) (y : Inputs) (a : ℕ)
    → y.rsp_valid ≡ true
    → index y.rsp_addr ≡ index a
    → lru_way c (index y.rsp_addr) ≡ 0
    → tag_in y.rsp_addr ≢ tag_in a
    → matches_way (icache_step c y) a 0 ≡ false
unfolding matches_way icache_step
replaced c y a w e z n =
    let l : ways_next c y (index a) 0 ≡ fresh y =
      ap (λ i. ways_next c y i 0) (sym e)
      ∙ ap (ways_next c y (index y.rsp_addr)) (sym z)
      ∙ ways_next-here c y w in
    ap (λ (t : CacheLine). t.valid && t.tag == tag_in a) l ∙ ground (arith, n)

-- A line that hits in way 0 is no longer in the cache after the next cycle when that cycle brings
-- another line of the same set: the line that was used last is replaced. No response comes in the
-- cycle of the hit.
pub most_recent_lost :
    (c : Icache) (x y : Inputs)
    → hit_way c x.pc ≡ some 0
    → x.rsp_valid ≡ false
    → y.rsp_valid ≡ true
    → index y.rsp_addr ≡ index x.pc
    → tag_in y.rsp_addr ≢ tag_in x.pc
    → hit (icache_step (icache_step c x) y) x.pc ≡ false
most_recent_lost c x y h v w e n =
    let d = icache_step c x in
    let z : lru_way d (index y.rsp_addr) ≡ 0 =
      ap (lru_way d) e ∙ way_zero d (index x.pc) (lru-hit c x 0 h v) in
    no_way (icache_step d y) x.pc (replaced d y x.pc w e z n) (
      same_way d (icache_step d y) x.pc 1
        (step-ways d y (index x.pc) 1 ∙ ways_next-there d y (index x.pc) 1 (ground (arith, z)))
      ∙ same_way c d x.pc 1
          (step-ways c x (index x.pc) 1 ∙ ways_next-there c x (index x.pc) 1 (ground (arith, v)))
      ∙ first_way c x.pc h)
