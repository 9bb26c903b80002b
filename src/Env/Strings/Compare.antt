-- ===== src/Env/Strings/Compare.antt =====
-- riscv-tests/env/v/string.c: memcmp.
use native.Mathlib.Decide.{dec_lt}
use tartaruga.Base.{
  ℕ, zero, suc, ◌+◌, ◌-◌, ◌*◌, ◌/◌, ◌<◌, ◌≤◌, ◌≡◌, inl, inr, ◌∙◌, ◌==◌, ap, ap₂, sym, refl, bit_or,
  arith, Bool-cases,
}
use tartaruga.Env.Strings.{Bytes, load_word, is_aligned, compare_bytes, equal_words, memcmp}

-- The first `k` bytes at `a` and at `b` are the same.
abbrev pub AreEqual : Bytes → ℕ → ℕ → ℕ → Type 0
AreEqual m a b k = (i : ℕ) → i < k → m (a + i) ≡ m (b + i)

pub head_equal : (m : Bytes) (a b k : ℕ) → AreEqual m a b (suc k) → m a ≡ m b
head_equal m a b k h =
    let p : a + 0 ≡ a = omega arith in
    let q : b + 0 ≡ b = omega arith in sym (ap m p) ∙ h 0 (omega arith) ∙ ap m q

pub tail_equal : (m : Bytes) (a b k : ℕ) → AreEqual m a b (suc k) → AreEqual m (a + 1) (b + 1) k
tail_equal m a b k h i p =
    let e : a + 1 + i ≡ a + (i + 1) = omega arith in
    let f : b + 1 + i ≡ b + (i + 1) = omega arith in ap m e ∙ h (i + 1) (omega arith) ∙ sym (ap m f)

compare_head :
    (n a b : ℕ) (m : Bytes)
    → m a ≡ m b
    → compare_bytes (suc n) m a b ≡ compare_bytes n m (a + 1) (b + 1)
unfolding compare_bytes
compare_head n a b m h = ground arith

-- Equal bytes are passed over.
compare_bytes-skip :
    (k n a b : ℕ) (m : Bytes)
    → AreEqual m a b k
    → compare_bytes (k + n) m a b ≡ compare_bytes n m (a + k) (b + k)
compare_bytes-skip zero n a b m h =
    let p : zero + n ≡ n = omega arith in
    let q : a ≡ a + 0 = omega arith in
    let r : b ≡ b + 0 = omega arith in
    ap (λ (t : ℕ). compare_bytes t m a b) p ∙ ap₂ (λ (x y : ℕ). compare_bytes n m x y) q r
compare_bytes-skip (suc k) n a b m h =
    let p : suc k + n ≡ suc (k + n) = omega arith in
    let q : a + 1 + k ≡ a + suc k = omega arith in
    let r : b + 1 + k ≡ b + suc k = omega arith in
    ap (λ (t : ℕ). compare_bytes t m a b) p
    ∙ compare_head (k + n) a b m (head_equal m a b k h)
    ∙ compare_bytes-skip k n (a + 1) (b + 1) m (tail_equal m a b k h)
    ∙ ap₂ (λ (x y : ℕ). compare_bytes n m x y) q r

equal_words-le : (left a b : ℕ) (m : Bytes) → equal_words left m a b ≤ left
unfolding equal_words
equal_words-le zero a b m = omega arith
equal_words-le (suc left) a b m = ground (arith, equal_words-le left (a + 4) (b + 4) m)

word_digits :
    (a b c d e f g h : ℕ)
    → a < 256
    → b < 256
    → c < 256
    → d < 256
    → e < 256
    → f < 256
    → g < 256
    → h < 256
    → a + 0x100 * b + 0x10000 * c + 0x1000000 * d ≡ e + 0x100 * f + 0x10000 * g + 0x1000000 * h
    → (a ≡ e) × (b ≡ f) × (c ≡ g) × (d ≡ h)
word_digits a b c d e f g h p q r s t u v w x = (omega arith, omega arith, omega arith, omega arith)

four_equal :
    (a b : ℕ) (m : Bytes)
    → (m a ≡ m b) × (m (a + 1) ≡ m (b + 1)) × (m (a + 2) ≡ m (b + 2)) × (m (a + 3) ≡ m (b + 3))
    → AreEqual m a b 4
four_equal a b m w zero p =
    let e : a + 0 ≡ a = omega arith in let f : b ≡ b + 0 = omega arith in ap m e ∙ w.0 ∙ ap m f
four_equal a b m w (suc zero) p = w.1
four_equal a b m w (suc (suc zero)) p = w.2
four_equal a b m w (suc (suc (suc zero))) p = w.3
four_equal a b m w (suc (suc (suc (suc i)))) p = absurd (omega arith)

equal_word :
    (a b : ℕ) (m : Bytes) → ((i : ℕ) → m i < 256) → load_word m a ≡ load_word m b → AreEqual m a b 4
unfolding load_word
equal_word a b m l e = four_equal a b m (
    word_digits _ _ _ _ _ _ _ _ (l a) (l (a + 1)) (l (a + 2)) (l (a + 3)) (l b) (l (b + 1))
      (l (b + 2)) (l (b + 3)) e)

equal_words-AreEqual :
    (left a b : ℕ) (m : Bytes) → ((i : ℕ) → m i < 256) → AreEqual m a b (4 * equal_words left m a b)
unfolding equal_words
equal_words-AreEqual zero a b m l i p = absurd (omega arith)
equal_words-AreEqual (suc left) a b m l i p = elim (Bool-cases (load_word m a == load_word m b)) [
  | inl e ↦ elim (dec_lt i 4) [
    | yes q ↦ equal_word a b m l (ground arith) i q
    | no q ↦
        let r : i - 4 < 4 * equal_words left m (a + 4) (b + 4) = ground arith in
        let f : a + i ≡ a + 4 + (i - 4) = omega arith in
        let g : b + 4 + (i - 4) ≡ b + i = omega arith in
        ap m f ∙ equal_words-AreEqual left (a + 4) (b + 4) m l (i - 4) r ∙ ap m g
  ]
  | inr e ↦ absurd (ground arith)
]

-- memcmp, which skips equal words first when both pointers are aligned, gives what the loop over
-- bytes gives. Memory holds bytes.
memcmp-compare_bytes :
    (m : Bytes) (a b n : ℕ) → ((i : ℕ) → m i < 256) → memcmp m a b n ≡ compare_bytes n m a b
unfolding memcmp
memcmp-compare_bytes m a b n l = elim (Bool-cases (is_aligned (bit_or a b))) [
  | inl e ↦
      let k = 4 * equal_words (n / 4) m a b in
      let p : k ≤ n = omega (arith, equal_words-le (n / 4) a b m) in
      let q : k + (n - k) ≡ n = omega arith in
      rw e (
        sym (compare_bytes-skip k (n - k) a b m (equal_words-AreEqual (n / 4) a b m l))
        ∙ ap (λ (t : ℕ). compare_bytes t m a b) q)
  | inr e ↦ rw e refl
]
