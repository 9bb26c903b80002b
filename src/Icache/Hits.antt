-- ===== src/Icache/Hits.antt =====
-- rtl/caches/icache.sv: the hits of an address after a cycle.
use tartaruga.Base.{
  ℕ, zero, suc, Bool, true, false, ◌&&◌, ◌<◌, ◌≡◌, ◌∙◌, ◌==◌, ap, sym, refl, arith, Bool-cases, inl,
  inr, word_mod,
}
use tartaruga.Icache.{
  Icache, CacheLine, Inputs, hit, hit_way, find_way, index, tag_in, line_aligned, lru_way,
  req_valid, ways_next, icache_step,
}
use tartaruga.Icache.Coherent.{fresh, ways_next-here}

module _ (c : Icache) (x : Inputs) (a : ℕ) where
  pub hit-kept : x.rsp_valid ≡ false → hit (icache_step c x) a ≡ hit c a
  unfolding hit hit_way find_way icache_step ways_next
  hit-kept v = rw v refl

  pub pending-kept : x.rsp_valid ≡ false → c.pending ≡ true → (icache_step c x).pending ≡ true
  unfolding icache_step
  pending-kept v p = ground arith

  pub pending-set : req_valid c x.pc ≡ true → x.req_ready ≡ true → (icache_step c x).pending ≡ true
  unfolding icache_step
  pending-set v p = ground arith

lru_way-lt : (c : Icache) (i : ℕ) → lru_way c i < 2
unfolding lru_way
lru_way-lt c i = ground arith

same_tag : {v : Bool} {t u : ℕ} → v ≡ true → t ≡ u → (v && t == u) ≡ true
same_tag f k = ground (arith, f, k)

-- A way that holds the line is a hit.
hit-way :
    (c : Icache) (a w : ℕ) (l : CacheLine)
    → w < 2
    → c.ways (index a) w ≡ l
    → l.valid ≡ true
    → l.tag ≡ tag_in a
    → hit c a ≡ true
unfolding hit hit_way find_way
hit-way c a zero l p e v t =
    let f : (c.ways (index a) 0).valid ≡ true = ap (λ (g : CacheLine). g.valid) e ∙ v in
    let k : (c.ways (index a) 0).tag ≡ tag_in a = ap (λ (g : CacheLine). g.tag) e ∙ t in
    elim (Bool-cases ((c.ways (index a) 1).valid && (c.ways (index a) 1).tag == tag_in a)) [
      | inl b ↦ rw b refl
      | inr b ↦ rw b (rw (same_tag f k) refl)
    ]
hit-way c a (suc zero) l p e v t =
    let f : (c.ways (index a) 1).valid ≡ true = ap (λ (g : CacheLine). g.valid) e ∙ v in
    let k : (c.ways (index a) 1).tag ≡ tag_in a = ap (λ (g : CacheLine). g.tag) e ∙ t in
    rw (same_tag f k) refl
hit-way c a (suc (suc w)) l p e v t = absurd (omega arith)

-- A response for the line of an address makes it a hit.
pub hit-filled :
    (c : Icache) (x : Inputs) (a : ℕ)
    → x.rsp_valid ≡ true
    → x.rsp_addr ≡ line_aligned a
    → a < word_mod
    → hit (icache_step c x) a ≡ true
unfolding icache_step
hit-filled c x a v e l =
    let i : index x.rsp_addr ≡ index a = ap (λ b. index b) e ∙ omega arith in
    let t : tag_in x.rsp_addr ≡ tag_in a = ap (λ b. tag_in b) e ∙ omega arith in
    hit-way (icache_step c x) a (lru_way c (index x.rsp_addr)) (fresh x)
      (lru_way-lt c (index x.rsp_addr))
      (ap (λ j. ways_next c x j (lru_way c (index x.rsp_addr))) (sym i) ∙ ways_next-here c x v) refl
      t
