-- ===== src/Sim/Elf.antt =====
-- simulator/elf_reader.cpp: the loader of the program. The layout of the ELF structures is that of
-- <elf.h>: a section arrives here with its name, type, address, size and bytes.
pub mod Laws
use Prim.Native.String.{String}
use text.Mathlib.Text.{◌==◌ as str_eq}
use tartaruga.Base.{
  ℕ, Bool, true, false, ◌&&◌, ◌||◌, not, ◌+◌, ◌-◌, ◌*◌, ◌/◌, ◌%◌, zero, suc, ◌==◌, if◌then◌else◌,
  add32, word_mod, List, [], ◌∷◌, Option, none, some,
}
use tartaruga.Sim.Memory.{Memory, write_mem}

-- `bytes` is the vector `data` and, from `sh_size` on, what lies behind it in the heap.
pub record Section : Type 0 where
  pub name : String
  pub is_nobits : Bool
  pub sh_addr : ℕ
  pub sh_size : ℕ
  pub bytes : ℕ → ℕ

-- `memcpy(&data_to_mem, &data[offset], 4)` on a little-endian machine.
abbrev pub word_le : (ℕ → ℕ) → ℕ → ℕ
word_le b o = b o + 0x100 * b (o + 1) + 0x10000 * b (o + 2) + 0x1000000 * b (o + 3)

-- The last `n` bytes, copied into a zeroed word.
abbrev pub partial_word : (ℕ → ℕ) → ℕ → ℕ → ℕ
partial_word b o zero = 0
partial_word b o (suc n) = b o + 0x100 * partial_word b (o + 1) n

-- The loop over the words, with `left` rounds to go.
unfoldable pub load_words : (ℕ → ℕ) → ℕ → ℕ → ℕ → Memory → Memory
load_words b addr offset zero m = m
load_words b addr offset (suc left) m =
    load_words b (add32 addr 4) (offset + 4) left (write_mem m addr (word_le b offset)).0

-- The rounds of `for (offset = 0; offset < sh_size; offset += 4)`.
abbrev pub rounds : ℕ → ℕ
rounds size = (size + 3) / 4

-- The write of the remaining bytes, at the address that the loop has left.
unfoldable pub load_remaining : Section → Memory → Memory
load_remaining s m =
    let remaining = s.sh_size % 4 in
    if remaining == 0
    then m
    else (write_mem m ((s.sh_addr + 4 * rounds s.sh_size) % word_mod)
        (partial_word s.bytes (s.sh_size - remaining) remaining)).0

-- The body of the loop over the sections.
unfoldable pub load_section : Section → Memory → Memory
unfolding load_words load_remaining
load_section s m =
    if s.is_nobits || s.sh_size == 0
    then m
    else if str_eq s.name ".text" || str_eq s.name ".data"
    then load_remaining s (load_words s.bytes (s.sh_addr % word_mod) 0 (rounds s.sh_size) m)
    else m

unfoldable pub extract_sections : List Section → Memory → Memory
extract_sections [] m = m
extract_sections (s ∷ ss) m = extract_sections ss (load_section s m)

-- What opening the path gives: `ident` holds EI_NIDENT bytes; the sections are read as 32-bit or as
-- 64-bit structures.
pub data ElfFile : Type 0 where
  missing : ElfFile
  opened : (ℕ → ℕ) → List Section → List Section → ElfFile

-- The returned bool (the constant 1 for a file that cannot be opened) and the memory.
unfoldable pub load_elf : ElfFile → Memory → Bool × Memory
load_elf missing m = (true, m)
load_elf (opened ident sections_32 sections_64) m =
    if not (ident 0 == 0x7f)
      || not (ident 1 == b'E')
      || not (ident 2 == b'L')
      || not (ident 3 == b'F')
    then (false, m)
    else if ident 4 == 1
    then (true, extract_sections sections_32 m)
    else if ident 4 == 2
    then (true, extract_sections sections_64 m)
    else (false, m)
