-- ===== src/Env/Strings/Fill.antt =====
-- riscv-tests/env/v/string.c: what memset leaves in memory.
use tartaruga.Base.{
  ℕ, zero, suc, ◌&&◌, ◌+◌, ◌-◌, ◌*◌, ◌/◌, ◌%◌, ◌^◌, ◌<◌, ◌≡◌, inl, inr, ◌∙◌, ap, refl,
  if◌then◌else◌, ltb, leb, update, bit_and, bit_or, arith, word_mod, Bool-cases,
}
use native.Mathlib.Decide.{dec_lt}
use tartaruga.Base.Bits.{
  bit, bit-bit_or, bit-zero, bit-high, bit-mod_pow, bit-shift_left, bit-shift_left_low,
  bit-shift_right,
}
use tartaruga.Masks.{digits-equal, mask_byte}
use tartaruga.Env.Strings.Copy.{whole_words}
use tartaruga.Env.Strings.{
  Bytes, byte_of, store_word, is_aligned, word_rounds, set_words, set_bytes, memset, repeated,
}

set_bytes_lem :
    (left d j v : ℕ) (m : Bytes)
    → set_bytes v left d m j ≡ (if leb d j && ltb j (d + left) then v % 256 else m j)
unfolding set_bytes
set_bytes_lem zero d j v m = ground arith
set_bytes_lem (suc left) d j v m =
    ground (arith, set_bytes_lem left (d + 1) j v (update m d (v % 256)))

-- A word whose four bytes are `v`.
abbrev HasBytes : ℕ → ℕ → Type 0
HasBytes w v = (k : ℕ) → k < 4 → byte_of w k ≡ v

fill_word :
    (m : Bytes) (d w v j : ℕ)
    → HasBytes w v
    → store_word m d w j ≡ (if leb d j && ltb j (d + 4) then v else m j)
unfolding store_word
fill_word m d w v j b = elim (Bool-cases (leb d j && ltb j (d + 4))) [
  | inl e ↦ let k : j - d < 4 = ground arith in rw e (b (j - d) k)
  | inr e ↦ rw e refl
]

set_words_lem :
    (left d j w v : ℕ) (m : Bytes)
    → HasBytes w v
    → set_words w left d m j ≡ (if leb d j && ltb j (d + 4 * left) then v else m j)
unfolding set_words
set_words_lem zero d j w v m b = ground arith
set_words_lem (suc left) d j w v m b =
    ground (arith, set_words_lem left (d + 4) j w v (store_word m d w) b, fill_word m d w v j b)

-- `a | b` of a number below `2 ^ k` and one with `k` zeros below it; the two equations say how the
-- sum divides.
or_sum :
    (k a c : ℕ)
    → a < 2 ^ k
    → (a + c * 2 ^ k) % 2 ^ k ≡ a
    → (a + c * 2 ^ k) / 2 ^ k ≡ c
    → bit_or a (c * 2 ^ k) ≡ a + c * 2 ^ k
or_sum k a c h low high = digits-equal (bit_or a (c * 2 ^ k)) (a + c * 2 ^ k) λ i.
    elim (dec_lt i k) [
      | yes l ↦ omega (
        arith,
        bit-bit_or i a (c * 2 ^ k),
        bit-shift_left_low k c i l,
        bit-mod_pow k (a + c * 2 ^ k) i l,
        ap (λ (t : ℕ). bit t i) low,
      )
      | no l ↦
          let e : k + (i - k) ≡ i = omega arith in
          omega (
            arith,
            bit-bit_or i a (c * 2 ^ k),
            bit-high k a i h (omega arith),
            bit-shift_left k c (i - k),
            bit-shift_right k (a + c * 2 ^ k) (i - k),
            ap (λ (t : ℕ). bit t (i - k)) high,
            ap (λ (t : ℕ). bit (c * 2 ^ k) t) e,
            ap (λ (t : ℕ). bit (a + c * 2 ^ k) t) e,
          )
    ]

or_zero : (a : ℕ) → bit_or a 0 ≡ a
or_zero a = digits-equal (bit_or a 0) a (λ i. omega (arith, bit-bit_or i a 0, bit-zero i))

repeated-sum : (v : ℕ) → repeated v ≡ v % 256 * 0x1010101
unfolding repeated
repeated-sum v =
    let w0 = bit_and v 0xff in
    let e0 : w0 ≡ v % 256 = mask_byte v in
    let w1 = bit_or w0 (w0 * 0x100 % word_mod) in
    let s1 : w0 * 0x100 % word_mod ≡ w0 * 0x100 = omega arith in
    let e1 : w1 ≡ w0 + w0 * 0x100 =
      ap (bit_or w0) s1 ∙ or_sum 8 w0 w0 (omega arith) (omega arith) (omega arith) in
    let s2 : w1 * 0x10000 % word_mod ≡ w1 * 0x10000 = omega arith in
    let e2 = ap (bit_or w1) s2 ∙ or_sum 16 w1 w1 (omega arith) (omega arith) (omega arith) in
    let w2 = bit_or w1 (w1 * 0x10000 % word_mod) in
    let s3 : w2 * 0x10000 % word_mod * 0x10000 % word_mod ≡ 0 = omega arith in
    omega (arith, ap (bit_or w2) s3, or_zero w2, e2)

repeated-HasBytes : (v : ℕ) → HasBytes (repeated v) (v % 256)
unfolding byte_of
repeated-HasBytes v zero p = omega (arith, repeated-sum v)
repeated-HasBytes v (suc zero) p = omega (arith, repeated-sum v)
repeated-HasBytes v (suc (suc zero)) p = omega (arith, repeated-sum v)
repeated-HasBytes v (suc (suc (suc zero))) p = omega (arith, repeated-sum v)
repeated-HasBytes v (suc (suc (suc (suc k)))) p = absurd (omega arith)

-- memset, by words or by bytes, leaves the low byte of the value in each byte of the region and
-- changes no other byte.
memset-fills :
    (m : Bytes) (dest byte len j : ℕ)
    → memset m dest byte len j ≡ (if leb dest j && ltb j (dest + len) then byte % 256 else m j)
unfolding memset
memset-fills m dest byte len j = elim (Bool-cases (is_aligned (bit_or dest len))) [
  | inl a ↦ ground (
    arith,
    whole_words dest len a,
    set_words_lem (word_rounds len) dest j (repeated byte) (byte % 256) m (repeated-HasBytes byte),
  )
  | inr a ↦ ground (arith, set_bytes_lem len dest j byte m)
]
