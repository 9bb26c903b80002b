-- ===== src/Icache/Coherent.antt =====
-- rtl/caches/icache.sv: the cache against a memory of words.
use tartaruga.Base.{
  ℕ, zero, suc, true, false, ◌&&◌, ◌+◌, ◌*◌, ◌/◌, ◌<◌, ◌≡◌, ◌≢◌, ◌∙◌, ◌==◌, ap, sym, refl, arith,
  update, update-here, update-there, Bool-cases, inl, inr, Option, none, some, word_mod,
}
use mathlib.Core.Path.{subst}
use mathlib.Core.Option.{some-injective}
use native.Mathlib.Decide.{ℕ_discrete}
use tartaruga.Icache.{
  Icache, CacheLine, Inputs, reset, index, tag_in, word_offset, find_way, hit_way, is_some, hit,
  word_of_way, instr, ways_next, lru_way, icache_step,
}

-- The word number of word `k` of the line in set `i` with tag `t`.
abbrev pub word_of : ℕ → ℕ → ℕ → ℕ
word_of i t k = t * 256 + i * 16 + k

-- A way that is valid has the words that memory has at its addresses.
abbrev pub IsLine : (ℕ → ℕ) → ℕ → CacheLine → Type 0
IsLine memory i l = (k : ℕ) → k < 16 → l.valid ≡ true → l.words k ≡ memory (word_of i l.tag k)

pub record IsCoherent (c : Icache) (memory : ℕ → ℕ) : Type 0 where
  pub agrees : (i j : ℕ) → IsLine memory i (c.ways i j)

-- A response that holds what memory has at the address that it is for.
abbrev pub IsResponse : (ℕ → ℕ) → Inputs → Type 0
IsResponse memory x =
    (k : ℕ) → k < 16 → x.rsp_valid ≡ true → x.instr_line k ≡ memory (x.rsp_addr / 64 * 16 + k)

pub reset-IsCoherent : (memory : ℕ → ℕ) → IsCoherent reset memory
unfolding reset
reset-IsCoherent memory = record { agrees = λ i j k p v. cc }

address_parts : (a : ℕ) → a < word_mod → word_of (index a) (tag_in a) (word_offset a) ≡ a / 4
address_parts a h = omega arith

response_parts : (a k : ℕ) → a < word_mod → a / 64 * 16 + k ≡ word_of (index a) (tag_in a) k
response_parts a k h = omega arith

-- The way that a hit names holds the line.
find_way-holds :
    (c : Icache) (a n i : ℕ)
    → find_way c a n ≡ some i
    → ((c.ways (index a) i).valid ≡ true) × ((c.ways (index a) i).tag ≡ tag_in a)
unfolding find_way
find_way-holds c a zero i h = cc
find_way-holds c a (suc n) i h =
    elim (Bool-cases ((c.ways (index a) n).valid && (c.ways (index a) n).tag == tag_in a)) [
      | inl e ↦
          let q : n ≡ i = some-injective _ _ (ground (arith, h, e)) in
          (
            ap (λ j. (c.ways (index a) j).valid) (sym q) ∙ ground arith,
            ap (λ j. (c.ways (index a) j).tag) (sym q) ∙ ground arith,
          )
      | inr e ↦ find_way-holds c a n i (ground (arith, h, e))
    ]

word_of_way-memory :
    (c : Icache) (memory : ℕ → ℕ) (a : ℕ) (o : Option ℕ)
    → IsCoherent c memory
    → a < word_mod
    → hit_way c a ≡ o
    → is_some o ≡ true
    → word_of_way c a o ≡ memory (a / 4)
unfolding hit_way
word_of_way-memory c memory a none h l e s = cc
word_of_way-memory c memory a (some i) h l e s =
    let (v, t) = find_way-holds c a 2 i e in
    h.agrees (index a) i (word_offset a) (omega arith) v
    ∙ ap (λ g. memory (word_of (index a) g (word_offset a))) t
    ∙ ap memory (address_parts a l)

-- In a cache that agrees with memory, a hit gives the word of memory.
pub instr-memory :
    (c : Icache) (memory : ℕ → ℕ) (a : ℕ)
    → IsCoherent c memory
    → a < word_mod
    → hit c a ≡ true
    → instr c a ≡ memory (a / 4)
unfolding instr hit
instr-memory c memory a h l s = word_of_way-memory c memory a (hit_way c a) h l refl s

-- The line that a response brings.
abbrev pub fresh : Inputs → CacheLine
fresh x = record { valid = true; tag = tag_in x.rsp_addr; words = x.instr_line }

pub ways_next-here :
    (c : Icache) (x : Inputs)
    → x.rsp_valid ≡ true
    → ways_next c x (index x.rsp_addr) (lru_way c (index x.rsp_addr)) ≡ fresh x
unfolding ways_next
ways_next-here c x v =
    let i = index x.rsp_addr in
    let w = lru_way c i in
    let u = update (c.ways i) w (fresh x) in
    rw v (ap (λ g. g w) (update-here c.ways i i u refl) ∙ update-here (c.ways i) w w (fresh x) refl)

-- Where a response does not go, the lines stay.
pub ways_next-there :
    (c : Icache) (x : Inputs) (i j : ℕ)
    → (x.rsp_valid && (index x.rsp_addr == i && lru_way c (index x.rsp_addr) == j)) ≡ false
    → ways_next c x i j ≡ c.ways i j
unfolding ways_next
ways_next-there c x i j n = elim (Bool-cases x.rsp_valid) [
  | inr v ↦ rw v refl
  | inl v ↦
      let r = index x.rsp_addr in
      let w = lru_way c r in
      let u = update (c.ways r) w (fresh x) in
      rw v (elim (ℕ_discrete r i) [
        | yes e ↦
            let m : w ≢ j = ground arith in
            ap (λ g. g j) (update-here c.ways r i u e)
            ∙ update-there (c.ways r) w j (fresh x) m
            ∙ ap (λ t. c.ways t j) e
        | no e ↦ ap (λ g. g j) (update-there c.ways r i u e)
      ])
]

pub step-ways : (c : Icache) (x : Inputs) (i j : ℕ) → (icache_step c x).ways i j ≡ ways_next c x i j
unfolding icache_step
step-ways c x i j = refl

fresh-IsLine :
    (memory : ℕ → ℕ) (x : Inputs)
    → x.rsp_addr < word_mod
    → IsResponse memory x
    → x.rsp_valid ≡ true
    → IsLine memory (index x.rsp_addr) (fresh x)
fresh-IsLine memory x l f v k p e = f k p v ∙ ap memory (response_parts x.rsp_addr k l)

ways_next-IsLine :
    (c : Icache) (memory : ℕ → ℕ) (x : Inputs) (i j : ℕ)
    → IsCoherent c memory
    → (x.rsp_valid ≡ true → x.rsp_addr < word_mod)
    → IsResponse memory x
    → IsLine memory i (ways_next c x i j)
ways_next-IsLine c memory x i j h l f =
    let r = index x.rsp_addr in
    let w = lru_way c r in
    elim (Bool-cases (x.rsp_valid && (r == i && w == j))) [
      | inl b ↦
          let v : x.rsp_valid ≡ true = ground arith in
          let p : r ≡ i = ground arith in
          let q : w ≡ j = ground arith in
          subst (λ s. IsLine memory s (ways_next c x s j)) p
            (subst (λ s. IsLine memory r (ways_next c x r s)) q
              (subst (IsLine memory r) (sym (ways_next-here c x v))
                (fresh-IsLine memory x (l v) f v)))
      | inr b ↦ subst (IsLine memory i) (sym (ways_next-there c x i j b)) (h.agrees i j)
    ]

-- A cycle keeps the instruction cache coherent: every valid way has the words that memory has at
-- its addresses. A response has a 32-bit address and the words of its line.
pub icache_step-IsCoherent :
    {c : Icache} {memory : ℕ → ℕ} (x : Inputs)
    → IsCoherent c memory
    → (x.rsp_valid ≡ true → x.rsp_addr < word_mod)
    → IsResponse memory x
    → IsCoherent (icache_step c x) memory
icache_step-IsCoherent {c} {memory} x h l f = record {
  agrees = λ i j.
      subst (IsLine memory i) (sym (step-ways c x i j)) (ways_next-IsLine c memory x i j h l f);
}
