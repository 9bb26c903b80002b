-- ===== src/Dcache/Reach.antt =====
-- rtl/caches/dcache.sv: the cache and its memory over many clock cycles.
use tartaruga.Base.{ℕ, ◌<◌, ◌≡◌, arith, word_mod}
use tartaruga.Dcache
use tartaruga.Dcache.{Dcache, Inputs, load_line, index, tag_in, mem_request, dcache_step}
use tartaruga.Dcache.Coherent.{IsCoherent, served, word_of, dcache_step-IsCoherent}

-- What a response in the state LOAD_LINE must hold: the line of memory at the address asked for.
abbrev pub IsAnswer : Dcache → (ℕ → ℕ) → Inputs → Type 0
IsAnswer d memory x =
    (k : ℕ)
    → k < 4
    → d.state ≡ load_line
    → x.mem_data_line k ≡ memory (word_of (index x.addr) (tag_in x.addr) k)

-- The caches from reset on, each with the memory behind it.
pub data IsRun : Dcache → (ℕ → ℕ) → Type 0 where
  at_reset : (memory : ℕ → ℕ) → IsRun tartaruga.Dcache.reset memory
  cycle :
      {d : Dcache} {memory : ℕ → ℕ} (x : Inputs)
      → x.addr < word_mod
      → IsAnswer d memory x
      → IsRun d memory
      → IsRun (dcache_step d x) (served memory (mem_request d x))

reset-IsCoherent : (memory : ℕ → ℕ) → IsCoherent tartaruga.Dcache.reset memory
unfolding tartaruga.Dcache.reset
reset-IsCoherent memory = record { agrees = λ i k p q v. ground arith }

-- After any clock cycles from reset, with 32-bit addresses and lines from memory that hold what
-- memory has at the address asked for, every valid line of the cache agrees with the memory that
-- its writes have made.
IsRun-IsCoherent : {d : Dcache} {memory : ℕ → ℕ} → IsRun d memory → IsCoherent d memory
IsRun-IsCoherent (at_reset memory) = reset-IsCoherent memory
IsRun-IsCoherent (cycle x p a r) = dcache_step-IsCoherent (IsRun-IsCoherent r) x p a
