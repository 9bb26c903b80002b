-- ===== src/Env/Strings/Terminated.antt =====
-- riscv-tests/env/v/string.c: the functions on zero-terminated strings.

use tartaruga.Base.{
  ℕ, zero, suc, true, false, not, ◌&&◌, ◌+◌, ◌-◌, ◌<◌, ◌≡◌, ◌≢◌, ◌∙◌, ◌==◌, ap, ap₂, sym, refl,
  update, arith, some,
}
use tartaruga.Env.Strings.{Bytes, difference, strlen, strcmp, strcpy, copy_bytes}
use tartaruga.Env.Strings.Copy.{IsCopyable, advance, grow, copy_bytes_lem}
use mathlib.Core.Option.{some-injective}
use tartaruga.Env.Strings.Compare.{AreEqual, head_equal, tail_equal}

-- The string at `p` has `n` bytes before its zero byte.
pub record IsString (m : Bytes) (p n : ℕ) : Type 0 where
  pub body : (i : ℕ) → i < n → m (p + i) ≢ 0
  pub ends : m (p + n) ≡ 0

IsString-tail : (m : Bytes) (p n : ℕ) → IsString m p (suc n) → IsString m (p + 1) n
IsString-tail m p n h = record {
  body =
      λ i k. let e : p + 1 + i ≡ p + suc i = omega arith in ground (arith, h.body (suc i), ap m e);
  ends = let e : p + 1 + n ≡ p + suc n = omega arith in ap m e ∙ h.ends;
}

IsString-head : (m : Bytes) (p n : ℕ) → IsString m p (suc n) → (m p == 0) ≡ false
IsString-head m p n h =
    let e : p + 0 ≡ p = omega arith in ground (arith, h.body 0 (omega arith), ap m e)

IsString-empty : (m : Bytes) (p : ℕ) → IsString m p 0 → (m p == 0) ≡ true
IsString-empty m p h = let e : p + 0 ≡ p = omega arith in ground (arith, h.ends, ap m e)

-- Fuel above the length is enough, and the length is returned.
strlen-IsString : (n fuel p : ℕ) (m : Bytes) → IsString m p n → n < fuel → strlen fuel m p ≡ some n
unfolding strlen
strlen-IsString n zero p m h k = absurd (omega arith)
strlen-IsString zero (suc fuel) p m h k = rw (IsString-empty m p h) refl
strlen-IsString (suc n) (suc fuel) p m h k =
    let e : n + 1 ≡ suc n = omega arith in
    let r = strlen-IsString n fuel (p + 1) m (IsString-tail m p n h) (omega arith) in
    rw (IsString-head m p n h, r) (ap some e)

-- The string is not changed by a write of its first byte to the copy.
IsString-write :
    (m : Bytes) (d s n : ℕ)
    → IsString m s (suc n)
    → IsCopyable d s (suc (suc n))
    → IsString (update m d (m s)) (s + 1) n
IsString-write m d s n h c = record {
  body = λ i k. ground (arith, (IsString-tail m s n h).body i k, c);
  ends = ground (arith, (IsString-tail m s n h).ends, c);
}

-- The string and its zero byte are copied, when the destination does not begin inside the string.
strcpy-copy_bytes :
    (n fuel d s : ℕ) (m : Bytes)
    → IsString m s n
    → IsCopyable d s (suc n)
    → n < fuel
    → strcpy fuel m d s ≡ some (copy_bytes (suc n) d s m)
unfolding strcpy copy_bytes
strcpy-copy_bytes n zero d s m h c k = absurd (omega arith)
strcpy-copy_bytes zero (suc fuel) d s m h c k = rw (IsString-empty m s h) refl
strcpy-copy_bytes (suc n) (suc fuel) d s m h c k =
    let c1 : IsCopyable (d + 1) (s + 1) (suc n) =
      advance 1 d s (suc n) (grow (suc (suc n)) (1 + suc n) d s (omega arith) c) in
    rw (IsString-head m s n h) (
      strcpy-copy_bytes n fuel (d + 1) (s + 1) (update m d (m s)) (IsString-write m d s n h c) c1
        (omega arith))

-- The copy is a string of the same length.
copy-IsString :
    (n d s : ℕ) (m : Bytes)
    → IsString m s n
    → IsCopyable d s (suc n)
    → IsString (copy_bytes (suc n) d s m) d n
copy-IsString n d s m h c = record {
  body = λ i k.
      let e : s + (d + i - d) ≡ s + i = omega arith in
      ground (arith, copy_bytes_lem (suc n) d s (d + i) m c, ap m e, h.body i k);
  ends =
      let e : s + (d + n - d) ≡ s + n = omega arith in
      ground (arith, copy_bytes_lem (suc n) d s (d + n) m c, ap m e, h.ends);
}

-- When strcpy of a string returns, strlen of the copy is the length of the string, with fuel above
-- that length and a destination that does not begin inside the string, after its start.
strlen-strcpy :
    (n fuel d s : ℕ) (m e : Bytes)
    → IsString m s n
    → IsCopyable d s (suc n)
    → n < fuel
    → strcpy fuel m d s ≡ some e
    → strlen fuel e d ≡ some n
strlen-strcpy n fuel d s m e h c k f =
    let g = some-injective _ _ (sym (strcpy-copy_bytes n fuel d s m h c k) ∙ f) in
    ap (λ t. strlen fuel t d) (sym g)
    ∙ strlen-IsString n fuel d (copy_bytes (suc n) d s m) (copy-IsString n d s m h c) k

-- Where the comparison of two strings stops: after `n` equal bytes that are not zero.
pub record IsStop (m : Bytes) (a b n : ℕ) : Type 0 where
  pub same : AreEqual m a b n
  pub body : (i : ℕ) → i < n → m (a + i) ≢ 0
  pub stop : (not (m (a + n) == 0) && m (a + n) == m (b + n)) ≡ false

IsStop-tail : (m : Bytes) (a b n : ℕ) → IsStop m a b (suc n) → IsStop m (a + 1) (b + 1) n
IsStop-tail m a b n h = record {
  same = tail_equal m a b n h.same;
  body =
      λ i k. let e : a + 1 + i ≡ a + suc i = omega arith in ground (arith, h.body (suc i), ap m e);
  stop =
      let e : a + 1 + n ≡ a + suc n = omega arith in
      let f : b + 1 + n ≡ b + suc n = omega arith in rw (e, f) h.stop;
}

-- The result is the difference of the bytes where the comparison stops.
strcmp-IsStop :
    (n fuel a b : ℕ) (m : Bytes)
    → IsStop m a b n
    → n < fuel
    → strcmp fuel m a b ≡ some (difference (m (a + n)) (m (b + n)))
unfolding strcmp
strcmp-IsStop n zero a b m h k = absurd (omega arith)
strcmp-IsStop zero (suc fuel) a b m h k =
    let e : a + 0 ≡ a = omega arith in
    let f : b + 0 ≡ b = omega arith in
    let s : (not (m a == 0) && m a == m b) ≡ false = ground (arith, h.stop, ap m e, ap m f) in
    rw s (ap some (ap₂ difference (sym (ap m e)) (sym (ap m f))))
strcmp-IsStop (suc n) (suc fuel) a b m h k =
    let p : a + 0 ≡ a = omega arith in
    let z : (m a == 0) ≡ false = ground (arith, h.body 0 (omega arith), ap m p) in
    let q : (m a == m b) ≡ true = ground (arith, head_equal m a b n h.same) in
    let e : a + 1 + n ≡ a + suc n = omega arith in
    let f : b + 1 + n ≡ b + suc n = omega arith in
    rw (z, q)
      (strcmp-IsStop n fuel (a + 1) (b + 1) m (IsStop-tail m a b n h) (omega arith)
        ∙ ap some (ap₂ difference (ap m e) (ap m f)))
