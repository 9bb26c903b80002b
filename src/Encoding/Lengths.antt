-- ===== src/Encoding/Lengths.antt =====
-- riscv-tests/env/encoding.h: the lengths of the instructions, over the whole table.
use tartaruga.Base.{
  ℕ, Bool, true, false, ◌&&◌, ◌||◌, ◌+◌, ◌*◌, ◌/◌, ◌%◌, ◌<◌, ◌≡◌, ◌∙◌, ◌==◌, ltb, arith, bit_and,
  refl, ap, sym, some, Bool-cases, inl, inr, List, [], ◌∷◌,
}
use mathlib.Core.Option.{some-injective}
use native.Mathlib.Decide.{dec_lt}
use Prim.Native.String.{String}
use tartaruga.Encoding.{Pattern, matches, match_of, mask_of, named, find}
use tartaruga.Encoding.Instructions.{instructions}
use tartaruga.Masks.{ones_then, and_ones, digits-equal}
use tartaruga.Base.Bits.{bit, bit-bit_and, bit-mod_pow, bit-high}

-- A 32-bit instruction: its two low bits are set.
unfoldable pub is_wide : Pattern → Bool
is_wide p = match_of p % 4 == 3

-- The pattern fixes the two low bits, its match lies within its mask, and a compressed one reads 16
-- bits only.
unfoldable pub is_well_formed : Pattern → Bool
unfolding is_wide
is_well_formed p =
    mask_of p % 4 == 3
    && bit_and (match_of p) (mask_of p) == match_of p
    && (is_wide p || ltb (mask_of p) 0x10000)

unfoldable pub all_well_formed : List Pattern → Bool
unfolding is_well_formed
all_well_formed [] = true
all_well_formed (p ∷ ps) = is_well_formed p && all_well_formed ps

table_well_formed : all_well_formed instructions ≡ true
unfolding all_well_formed
table_well_formed = refl

find-well_formed :
    (n : String) (ps : List Pattern) (p : Pattern)
    → all_well_formed ps ≡ true
    → find n ps ≡ some p
    → is_well_formed p ≡ true
unfolding all_well_formed find
find-well_formed n [] p a f = absurd (ground arith)
find-well_formed n (q ∷ ps) p a f = elim (Bool-cases (named n q)) [
  | inl e ↦
      let h : some q ≡ some p = ground arith in
      let k : is_well_formed q ≡ true = ground arith in
      ap is_well_formed (sym (some-injective _ _ h)) ∙ k
  | inr e ↦ find-well_formed n ps p (ground arith) (ground arith)
]

low_bits : (w k : ℕ) → k % 4 ≡ 3 → bit_and w k % 4 ≡ w % 4
unfolding ones_then
low_bits w k h =
    let e : 1 + 2 * (1 + 2 * (k / 4)) ≡ k = omega arith in
    omega (arith, ap (bit_and w) e, and_ones 2 w (k / 4))

well_formed-mask : (p : Pattern) → is_well_formed p ≡ true → mask_of p % 4 ≡ 3
unfolding is_well_formed
well_formed-mask p g = ground arith

well_formed-narrow :
    (p : Pattern) → is_well_formed p ≡ true → is_wide p ≡ false → mask_of p < 0x10000
unfolding is_well_formed
well_formed-narrow p g s = ground arith

half_digits : (w k i : ℕ) → k < 0x10000 → bit (bit_and w k) i ≡ bit (bit_and (w % 0x10000) k) i
half_digits w k i h = elim (dec_lt i 16) [
  | yes l ↦ omega (arith, bit-bit_and i w k, bit-bit_and i (w % 0x10000) k, bit-mod_pow 16 w i l)
  | no l ↦
      omega
        (arith, bit-bit_and i w k, bit-bit_and i (w % 0x10000) k, bit-high 16 k i h (omega arith))
]

low_half : (w k : ℕ) → k < 0x10000 → bit_and w k ≡ bit_and (w % 0x10000) k
low_half w k h = digits-equal (bit_and w k) (bit_and (w % 0x10000) k) (λ i. half_digits w k i h)

-- For every instruction of the table, the two low bits of a word that is an instance of its pattern
-- are set exactly when they are set in the pattern.
is_wide-matches :
    (n : String) (p : Pattern) (w : ℕ)
    → find n instructions ≡ some p
    → matches p w ≡ true
    → is_wide p ≡ (w % 4 == 3)
unfolding matches is_wide
is_wide-matches n p w f m =
    let g = find-well_formed n instructions p table_well_formed f in
    let h = well_formed-mask p g in
    let e : bit_and w (mask_of p) ≡ match_of p = ground arith in
    ground (arith, low_bits w (mask_of p) h)

-- The high half of a word does not matter to the pattern of a compressed instruction.
matches-half :
    (n : String) (p : Pattern) (w : ℕ)
    → find n instructions ≡ some p
    → is_wide p ≡ false
    → matches p w ≡ matches p (w % 0x10000)
unfolding matches
matches-half n p w f s =
    let g = find-well_formed n instructions p table_well_formed f in
    ap (λ (t : ℕ). t == match_of p) (low_half w (mask_of p) (well_formed-narrow p g s))
