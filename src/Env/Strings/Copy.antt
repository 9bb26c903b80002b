-- ===== src/Env/Strings/Copy.antt =====
-- riscv-tests/env/v/string.c: what memcpy leaves in memory.
use tartaruga.Base.{
  ℕ, zero, suc, true, ◌&&◌, ◌+◌, ◌-◌, ◌*◌, ◌/◌, ◌%◌, ◌<◌, ◌≤◌, ◌≡◌, ◌⊎◌, inl, inr, ◌∙◌, ap, sym,
  refl, if◌then◌else◌, ltb, leb, update, bit_and, bit_or, arith, Bool-cases,
}
use native.Mathlib.Decide.{dec_lt}
use tartaruga.Base.Bits.{bit, bit-bit_and, bit-bit_or}
use tartaruga.Env.Strings.{
  Bytes, load_word, byte_of, store_word, copy_words, copy_bytes, is_aligned, word_rounds, memcpy,
}

-- A region that is copied from `s` to `d` by ascending addresses is read before it is written.
abbrev pub IsCopyable : ℕ → ℕ → ℕ → Type 0
IsCopyable d s len = (d ≤ s) ⊎ (s + len ≤ d)

pub advance : (n d s len : ℕ) → IsCopyable d s (n + len) → IsCopyable (d + n) (s + n) len
advance n d s len (inl p) = inl (omega arith)
advance n d s len (inr p) = inr (omega arith)

pub grow : (a b d s : ℕ) → a ≡ b → IsCopyable d s a → IsCopyable d s b
grow a b d s e (inl p) = inl p
grow a b d s e (inr p) = inr (omega arith)

pub copy_bytes_lem :
    (left d s j : ℕ) (m : Bytes)
    → IsCopyable d s left
    → copy_bytes left d s m j ≡ (if leb d j && ltb j (d + left) then m (s + (j - d)) else m j)
unfolding copy_bytes
copy_bytes_lem zero d s j m h = ground arith
copy_bytes_lem (suc left) d s j m h =
    let m' = update m d (m s) in
    let k : IsCopyable (d + 1) (s + 1) left =
      advance 1 d s left (grow (suc left) (1 + left) d s (omega arith) h) in
    let rest = copy_bytes_lem left (d + 1) (s + 1) j m' k in
    elim (dec_lt d j) [
      | yes l ↦
          let e : s + 1 + (j - (d + 1)) ≡ s + (j - d) = omega arith in
          ground (arith, rest, ap m' e, h)
      | no l ↦ elim (dec_lt j d) [
        | yes k ↦ ground (arith, rest)
        | no k ↦ let e : s + (j - d) ≡ s = omega arith in ground (arith, rest, ap m e)
      ]
    ]

byte_0 : (a b c d : ℕ) → a < 256 → (a + 0x100 * b + 0x10000 * c + 0x1000000 * d) % 256 ≡ a
byte_0 a b c d p = omega arith

byte_1 :
    (a b c d : ℕ)
    → a < 256
    → b < 256
    → (a + 0x100 * b + 0x10000 * c + 0x1000000 * d) / 0x100 % 256 ≡ b
byte_1 a b c d p q = omega arith

byte_2 :
    (a b c d : ℕ)
    → a < 256
    → b < 256
    → c < 256
    → (a + 0x100 * b + 0x10000 * c + 0x1000000 * d) / 0x10000 % 256 ≡ c
byte_2 a b c d p q r = omega arith

byte_3 :
    (a b c d : ℕ)
    → a < 256
    → b < 256
    → c < 256
    → d < 256
    → (a + 0x100 * b + 0x10000 * c + 0x1000000 * d) / 0x1000000 % 256 ≡ d
byte_3 a b c d p q r t = omega arith

byte_of-load_word :
    (m : Bytes) (s k : ℕ) → ((i : ℕ) → m i < 256) → k < 4 → byte_of (load_word m s) k ≡ m (s + k)
unfolding load_word byte_of
byte_of-load_word m s zero b h = byte_0 _ _ _ _ (b s) ∙ ap m (omega arith)
byte_of-load_word m s (suc zero) b h = byte_1 _ _ _ _ (b s) (b (s + 1))
byte_of-load_word m s (suc (suc zero)) b h = byte_2 _ _ _ _ (b s) (b (s + 1)) (b (s + 2))
byte_of-load_word m s (suc (suc (suc zero))) b h =
    byte_3 _ _ _ _ (b s) (b (s + 1)) (b (s + 2)) (b (s + 3))
byte_of-load_word m s (suc (suc (suc (suc k)))) b h = absurd (omega arith)

-- One word, moved.
move_word :
    (m : Bytes) (d s j : ℕ)
    → ((i : ℕ) → m i < 256)
    → store_word m d (load_word m s) j ≡ (if leb d j && ltb j (d + 4) then m (s + (j - d)) else m j)
unfolding store_word
move_word m d s j b = elim (Bool-cases (leb d j && ltb j (d + 4))) [
  | inl e ↦ let k : j - d < 4 = ground arith in rw e (byte_of-load_word m s (j - d) b k)
  | inr e ↦ rw e refl
]

move_word-lt :
    (m : Bytes) (d s : ℕ) → ((i : ℕ) → m i < 256) → (i : ℕ) → store_word m d (load_word m s) i < 256
move_word-lt m d s b i = ground (arith, move_word m d s i b, b (s + (i - d)), b i)

copy_words_lem :
    (left d s j : ℕ) (m : Bytes)
    → IsCopyable d s (4 * left)
    → ((i : ℕ) → m i < 256)
    → copy_words left d s m j ≡ (if leb d j && ltb j (d + 4 * left) then m (s + (j - d)) else m j)
unfolding copy_words
copy_words_lem zero d s j m h b = ground arith
copy_words_lem (suc left) d s j m h b =
    let m' = store_word m d (load_word m s) in
    let k : IsCopyable (d + 4) (s + 4) (4 * left) =
      advance 4 d s (4 * left) (grow (4 * suc left) (4 + 4 * left) d s (omega arith) h) in
    let rest = copy_words_lem left (d + 4) (s + 4) j m' k (move_word-lt m d s b) in
    elim (dec_lt j (d + 4)) [
      | yes l ↦ ground (arith, rest, move_word m d s j b)
      | no l ↦
          let x = s + (j - d) in
          let e : s + 4 + (j - (d + 4)) ≡ x = omega arith in
          ground (arith, rest, ap m' e, move_word m d s x b, move_word m d s j b, h)
    ]

aligned-mod : (x : ℕ) → is_aligned x ≡ true → x % 4 ≡ 0
unfolding is_aligned
aligned-mod x h =
    let e : bit_and x 3 ≡ 0 = ground arith in
    omega (
      arith,
      bit-bit_and 0 x 3,
      bit-bit_and 1 x 3,
      ap (λ (t : ℕ). bit t 0) e,
      ap (λ (t : ℕ). bit t 1) e,
    )

or-mod : (a b : ℕ) → bit_or a b % 4 ≡ 0 → (a % 4 ≡ 0) × (b % 4 ≡ 0)
or-mod a b h = (
  omega (arith, bit-bit_or 0 a b, bit-bit_or 1 a b),
  omega (arith, bit-bit_or 0 a b, bit-bit_or 1 a b),
)

-- Where the test for words holds, the length is a number of whole words.
pub whole_words : (x len : ℕ) → is_aligned (bit_or x len) ≡ true → 4 * word_rounds len ≡ len
whole_words x len h = omega (arith, or-mod x len (aligned-mod (bit_or x len) h))

-- memcpy, by words or by bytes, leaves in the destination the bytes of the source and changes no
-- other byte, when the destination does not begin inside the source, after its start. Memory holds
-- bytes.
pub memcpy-copies :
    (m : Bytes) (dest src len j : ℕ)
    → IsCopyable dest src len
    → ((i : ℕ) → m i < 256)
    → memcpy m dest src len j
      ≡ (if leb dest j && ltb j (dest + len) then m (src + (j - dest)) else m j)
unfolding memcpy
memcpy-copies m dest src len j h b = elim (Bool-cases (is_aligned (bit_or (bit_or dest src) len))) [
  | inl a ↦
      let e = whole_words (bit_or dest src) len a in
      ground (
        arith,
        e,
        copy_words_lem (word_rounds len) dest src j m
            (grow len (4 * word_rounds len) dest src (sym e) h) b,
      )
  | inr a ↦ ground (arith, copy_bytes_lem len dest src j m h)
]
