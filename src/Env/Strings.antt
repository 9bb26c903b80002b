-- ===== src/Env/Strings.antt =====
-- riscv-tests/env/v/string.c: the string functions of the virtual-memory environment, on a memory of
-- bytes. A `uintptr_t` has 4 bytes, the lowest first, and no object wraps around the address space.
pub mod Copy
pub mod Fill
pub mod Compare
pub mod Terminated
pub mod Numbers
use tartaruga.Base.{
  ℕ, zero, suc, Bool, true, false, ◌&&◌, ◌+◌, ◌-◌, ◌*◌, ◌/◌, ◌%◌, ◌==◌, ◌||◌, add32, sub32,
  if◌then◌else◌, not, ltb, leb, update, bit_and, bit_or, Option, none, some, ℤ, pos, negsuc,
  word_mod,
}

abbrev pub Bytes : Type 0
Bytes = ℕ → ℕ

unfoldable pub load_word : Bytes → ℕ → ℕ
load_word m a = m a + 0x100 * m (a + 1) + 0x10000 * m (a + 2) + 0x1000000 * m (a + 3)

-- Byte `k` of a word.
unfoldable pub byte_of : ℕ → ℕ → ℕ
byte_of w k =
    if k == 0
    then w % 256
    else if k == 1
    then w / 0x100 % 256
    else if k == 2
    then w / 0x10000 % 256
    else w / 0x1000000 % 256

unfoldable pub store_word : Bytes → ℕ → ℕ → Bytes
unfolding byte_of
store_word m a w j = if leb a j && ltb j (a + 4) then byte_of w (j - a) else m j

-- `*d++ = *s++`, `left` times, by words and by bytes.
unfoldable pub copy_words : ℕ → ℕ → ℕ → Bytes → Bytes
copy_words zero d s m = m
copy_words (suc left) d s m = copy_words left (d + 4) (s + 4) (store_word m d (load_word m s))

unfoldable pub copy_bytes : ℕ → ℕ → ℕ → Bytes → Bytes
copy_bytes zero d s m = m
copy_bytes (suc left) d s m = copy_bytes left (d + 1) (s + 1) (update m d (m s))

-- `& (sizeof(uintptr_t)-1)) == 0`
unfoldable pub is_aligned : ℕ → Bool
is_aligned x = bit_and x 3 == 0

-- The rounds of a loop that moves a pointer by 4 over `len` bytes.
abbrev pub word_rounds : ℕ → ℕ
word_rounds len = (len + 3) / 4

-- The memory after the call.
unfoldable pub memcpy : Bytes → ℕ → ℕ → ℕ → Bytes
unfolding is_aligned copy_words copy_bytes
memcpy m dest src len =
    if is_aligned (bit_or (bit_or dest src) len)
    then copy_words (word_rounds len) dest src m
    else copy_bytes len dest src m

-- `word` after the shifts.
unfoldable pub repeated : ℕ → ℕ
repeated byte =
    let w0 = bit_and byte 0xff in
    let w1 = bit_or w0 (w0 * 0x100 % word_mod) in
    let w2 = bit_or w1 (w1 * 0x10000 % word_mod) in
    bit_or w2 (w2 * 0x10000 % word_mod * 0x10000 % word_mod)

unfoldable pub set_words : ℕ → ℕ → ℕ → Bytes → Bytes
set_words w zero d m = m
set_words w (suc left) d m = set_words w left (d + 4) (store_word m d w)

unfoldable pub set_bytes : ℕ → ℕ → ℕ → Bytes → Bytes
set_bytes b zero d m = m
set_bytes b (suc left) d m = set_bytes b left (d + 1) (update m d (b % 256))

unfoldable pub memset : Bytes → ℕ → ℕ → ℕ → Bytes
unfolding is_aligned set_words set_bytes
memset m dest byte len =
    if is_aligned (bit_or dest len)
    then set_words (repeated byte) (word_rounds len) dest m
    else set_bytes byte len dest m

-- The loop of `strlen` with fuel: the number of bytes before the zero byte.
unfoldable pub strlen : ℕ → Bytes → ℕ → Option ℕ
strlen zero m p = none
strlen (suc fuel) m p =
    let rest = strlen fuel m (p + 1) in
    if m p == 0 then some 0 else elim rest [ none ↦ none | some n ↦ some (n + 1) ]

-- `c1 - c2`
abbrev pub difference : ℕ → ℕ → ℤ
difference a b = if leb b a then pos (a - b) else negsuc (b - a - 1)

unfoldable pub strcmp : ℕ → Bytes → ℕ → ℕ → Option ℤ
strcmp zero m s1 s2 = none
strcmp (suc fuel) m s1 s2 =
    let rest = strcmp fuel m (s1 + 1) (s2 + 1) in
    if not (m s1 == 0) && m s1 == m s2 then rest else some (difference (m s1) (m s2))

-- The loop over bytes.
unfoldable pub compare_bytes : ℕ → Bytes → ℕ → ℕ → ℤ
compare_bytes zero m s1 s2 = pos 0
compare_bytes (suc n) m s1 s2 =
    let rest = compare_bytes n m (s1 + 1) (s2 + 1) in
    if m s1 == m s2 then rest else difference (m s1) (m s2)

-- The loop over words, with `left` of them to go: how many are equal before one that differs.
unfoldable pub equal_words : ℕ → Bytes → ℕ → ℕ → ℕ
equal_words zero m u1 u2 = 0
equal_words (suc left) m u1 u2 =
    let rest = equal_words left m (u1 + 4) (u2 + 4) in
    if load_word m u1 == load_word m u2 then 1 + rest else 0

unfoldable pub memcmp : Bytes → ℕ → ℕ → ℕ → ℤ
unfolding is_aligned compare_bytes equal_words
memcmp m s1 s2 n =
    if is_aligned (bit_or s1 s2)
    then (let k = 4 * equal_words (n / 4) m s1 s2 in compare_bytes (n - k) m (s1 + k) (s2 + k))
    else compare_bytes n m s1 s2

-- The copy up to and with the zero byte.
unfoldable pub strcpy : ℕ → Bytes → ℕ → ℕ → Option Bytes
strcpy zero m d s = none
strcpy (suc fuel) m d s =
    let rest = strcpy fuel (update m d (m s)) (d + 1) (s + 1) in
    if m s == 0 then some (update m d (m s)) else rest

-- The loops of `atol`. A `char` is a byte, a `long` a 32-bit word that wraps around.
unfoldable pub skip_spaces : ℕ → Bytes → ℕ → Option ℕ
skip_spaces zero m p = none
skip_spaces (suc fuel) m p =
    let rest = skip_spaces fuel m (p + 1) in if m p == 32 then rest else some p

unfoldable pub add_digits : ℕ → Bytes → ℕ → ℕ → Option ℕ
add_digits zero m p res = none
add_digits (suc fuel) m p res =
    let rest = add_digits fuel m (p + 1) (add32 (res * 10 % word_mod) (sub32 (m p) 48)) in
    if m p == 0 then some res else rest

-- The position after a sign, if there is one.
unfoldable pub after_sign : Bytes → ℕ → ℕ
after_sign m p = if m p == 45 || m p == 43 then p + 1 else p

unfoldable pub atol : ℕ → Bytes → ℕ → Option ℕ
atol fuel m str = elim (skip_spaces fuel m str) [
  | none ↦ none
  | some p ↦ elim (add_digits fuel m (after_sign m p) 0) [
    | none ↦ none
    | some res ↦ some (if m p == 45 then sub32 0 res else res)
  ]
]
