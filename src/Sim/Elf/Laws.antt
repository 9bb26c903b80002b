-- ===== src/Sim/Elf/Laws.antt =====
-- simulator/elf_reader.cpp: the words of memory after a section is loaded.
use native.Mathlib.Decide.{dec_lt, ℕ_discrete}
use tartaruga.Base.{
  add32, ℕ, zero, suc, true, false, ◌&&◌, ◌||◌, ◌+◌, ◌-◌, ◌*◌, ◌/◌, ◌%◌, ◌<◌, ◌≤◌, ◌≡◌, ◌≢◌, ◌==◌,
  refl, arith, word_mod, if◌then◌else◌, ltb, leb, ap,
}
use text.Mathlib.Text.{◌==◌ as str_eq}
use tartaruga.Sim.Memory.{Memory, write_mem}
use tartaruga.Sim.Memory.Laws.{word_at, mem_bytes, read_mem-write_mem}
use tartaruga.Sim.Elf.{
  Section, word_le, partial_word, load_words, rounds, load_remaining, load_section,
}

-- One round and the rounds after it.
run_split :
    (b : ℕ → ℕ) (left addr offset a x old : ℕ)
    → addr % 4 ≡ 0
    → x ≡ (
        if leb (addr + 4) a && ltb a (addr + 4 + 4 * left)
        then word_le b (offset + 4 + (a / 4 * 4 - (addr + 4)))
        else (if addr / 4 == a / 4 then word_le b offset else old))
    → x ≡ (
        if leb addr a && ltb a (addr + 4 * suc left)
        then word_le b (offset + (a / 4 * 4 - addr))
        else old)
run_split b left addr offset a x old p e = elim (dec_lt a (addr + 4)) [
  | yes h ↦ elim (dec_lt a addr) [
    | yes k ↦ ground arith
    | no k ↦
        let j : offset ≡ offset + (a / 4 * 4 - addr) = omega arith in
        ground (arith, ap (word_le b) j)
  ]
  | no h ↦
      let j : offset + 4 + (a / 4 * 4 - (addr + 4)) ≡ offset + (a / 4 * 4 - addr) = omega arith in
      ground (arith, ap (word_le b) j)
]

-- The words of a run of `left` rounds, read back: the bytes of the section, and nothing else changed.
load_words_lem :
    (b : ℕ → ℕ) (left addr offset a : ℕ) (m : Memory)
    → addr % 4 ≡ 0
    → addr + 4 * left ≤ mem_bytes
    → a < word_mod
    → word_at (load_words b addr offset left m) a ≡ (
        if leb addr a && ltb a (addr + 4 * left)
        then word_le b (offset + (a / 4 * 4 - addr))
        else word_at m a)
unfolding load_words
load_words_lem b zero addr offset a m p q r = ground arith
load_words_lem b (suc left) addr offset a m p q r =
    let m' = (write_mem m addr (word_le b offset)).0 in
    let n : add32 addr 4 ≡ addr + 4 = omega arith in
    let ih = load_words_lem b left (add32 addr 4) (offset + 4) a m' (omega arith) (omega arith) r in
    let w = read_mem-write_mem m addr a (word_le b offset) (omega arith) r in
    run_split b left addr offset a _ (word_at m a) p (ground (arith, ih, w))

load_section-eq :
    (s : Section) (m : Memory)
    → (str_eq s.name ".text" || str_eq s.name ".data") ≡ true
    → s.is_nobits ≡ false
    → s.sh_size ≢ 0
    → s.sh_addr < word_mod
    → load_section s m ≡ load_remaining s (load_words s.bytes s.sh_addr 0 (rounds s.sh_size) m)
unfolding load_section
load_section-eq s m l n z w =
    let e : s.sh_addr % word_mod ≡ s.sh_addr = omega arith in rw (n, l, e) (ground arith)

load_section-zero : (s : Section) (m : Memory) → s.sh_size ≡ 0 → load_section s m ≡ m
unfolding load_section
load_section-zero s m z = rw z (ground arith)

-- The little-endian word of `n` bytes, at most 4, with zeros above them.
unfoldable pub bytes_word : (ℕ → ℕ) → ℕ → ℕ → ℕ
bytes_word b o n =
    (if ltb 0 n then b o else 0)
    + (if ltb 1 n then 256 * b (o + 1) else 0)
    + (if ltb 2 n then 256 * 256 * b (o + 2) else 0)
    + (if ltb 3 n then 256 * 256 * 256 * b (o + 3) else 0)

word_le-bytes_word : (b : ℕ → ℕ) (o : ℕ) → word_le b o ≡ bytes_word b o 4
unfolding bytes_word
word_le-bytes_word b o = ground arith

partial_word-bytes_word : (b : ℕ → ℕ) (o n : ℕ) → n < 4 → partial_word b o n ≡ bytes_word b o n
unfolding bytes_word
partial_word-bytes_word b o zero h = refl
partial_word-bytes_word b o (suc zero) h = omega arith
partial_word-bytes_word b o (suc (suc zero)) h = omega arith
partial_word-bytes_word b o (suc (suc (suc zero))) h =
    let e : o + 1 + 1 ≡ o + 2 = omega arith in omega (arith, ap b e)
partial_word-bytes_word b o (suc (suc (suc (suc n)))) h = absurd (omega arith)

module _ (s : Section) (m : Memory) (a : ℕ)
    (loaded : (str_eq s.name ".text" || str_eq s.name ".data") ≡ true) (bits : s.is_nobits ≡ false)
    (aligned : s.sh_addr % 4 ≡ 0) (word : a < word_mod) where
  abbrev loop_end : Memory
  loop_end = load_words s.bytes s.sh_addr 0 (rounds s.sh_size) m

  loop_word :
      s.sh_addr + 4 * rounds s.sh_size ≤ mem_bytes
      → word_at loop_end a ≡ (
          if leb s.sh_addr a && ltb a (s.sh_addr + 4 * rounds s.sh_size)
          then word_le s.bytes (0 + (a / 4 * 4 - s.sh_addr))
          else word_at m a)
  loop_word f = load_words_lem s.bytes (rounds s.sh_size) s.sh_addr 0 a m aligned f word

  -- A .text or .data section that takes space in the file, of whole words and at an aligned address
  -- with its end below 1 GiB, is in memory word for word after it is loaded, and no other word has
  -- changed.
  pub load_section-whole :
      s.sh_size % 4 ≡ 0
      → s.sh_addr + s.sh_size ≤ mem_bytes
      → word_at (load_section s m) a ≡ (
          if leb s.sh_addr a && ltb a (s.sh_addr + s.sh_size)
          then word_le s.bytes (a / 4 * 4 - s.sh_addr)
          else word_at m a)
  unfolding load_remaining
  load_section-whole w f = elim (ℕ_discrete s.sh_size 0) [
    | yes z ↦ rw (load_section-zero s m z) (ground arith)
    | no z ↦
        let n : 4 * rounds s.sh_size ≡ s.sh_size = omega arith in
        let k : 0 + (a / 4 * 4 - s.sh_addr) ≡ a / 4 * 4 - s.sh_addr = omega arith in
        rw (load_section-eq s m loaded bits z (omega arith), w)
          (ground (arith, loop_word, ap (word_le s.bytes) k))
  ]

  -- The write after the loop.
  load_section-tail :
      s.sh_size % 4 ≢ 0
      → s.sh_addr + 4 * rounds s.sh_size + 4 ≤ mem_bytes
      → word_at (load_section s m) a ≡ (
          if a / 4 == s.sh_addr / 4 + rounds s.sh_size
          then partial_word s.bytes (s.sh_size - s.sh_size % 4) (s.sh_size % 4)
          else word_at loop_end a)
  unfolding load_remaining
  load_section-tail w f =
      let z : s.sh_size ≢ 0 = λ e. w (ap (λ (n : ℕ). n % 4) e) in
      let at : (s.sh_addr + 4 * rounds s.sh_size) % word_mod ≡ s.sh_addr + 4 * rounds s.sh_size =
        omega arith in
      let last = partial_word s.bytes (s.sh_size - s.sh_size % 4) (s.sh_size % 4) in
      rw (load_section-eq s m loaded bits z (omega arith), at)
        (ground (
          arith,
          w,
          read_mem-write_mem loop_end (s.sh_addr + 4 * rounds s.sh_size) a last (omega arith) word,
        ))

  -- After a .text or .data section at an aligned address that does not end at a word boundary is
  -- loaded, memory has from that address on the little-endian words of the bytes, the last of them
  -- with bytes from behind the section; the word after that one has the one to three last bytes of
  -- the section once more, with zeros above them; and the other words are as before. The words
  -- written lie below 1 GiB.
  pub load_section-ragged :
      s.sh_size % 4 ≢ 0
      → s.sh_addr + 4 * rounds s.sh_size + 4 ≤ mem_bytes
      → word_at (load_section s m) a ≡ (
          let last = s.sh_addr + 4 * (s.sh_size / 4) in
          if leb s.sh_addr a && ltb a (last + 4)
          then bytes_word s.bytes (a / 4 * 4 - s.sh_addr) 4
          else if leb (last + 4) a && ltb a (last + 8)
          then bytes_word s.bytes (last - s.sh_addr) (s.sh_size % 4)
          else word_at m a)
  load_section-ragged w f =
      let n : rounds s.sh_size ≡ s.sh_size / 4 + 1 = omega (arith, w) in
      let o : s.sh_addr + 4 * (s.sh_size / 4) - s.sh_addr ≡ s.sh_size - s.sh_size % 4 =
        omega arith in
      let k : 0 + (a / 4 * 4 - s.sh_addr) ≡ a / 4 * 4 - s.sh_addr = omega arith in
      ground (
        arith,
        load_section-tail w f,
        loop_word (omega arith),
        n,
        ap (λ (b : ℕ). bytes_word s.bytes b (s.sh_size % 4)) o,
        ap (word_le s.bytes) k,
        word_le-bytes_word s.bytes (a / 4 * 4 - s.sh_addr),
        partial_word-bytes_word s.bytes (s.sh_size - s.sh_size % 4) (s.sh_size % 4) (omega arith),
      )
