-- ===== src/Frontend/Correct.antt =====
-- rtl/datapath/fetch/fetch.sv: what is fetched is what memory holds.
use tartaruga.Base.{ℕ, Bool, true, ◌/◌, ◌<◌, ◌≡◌, arith, word_mod}
use tartaruga.Fetch
use tartaruga.Fetch.{FetchState, fetch_step, pc_next}
use tartaruga.Icache.{line_aligned}
use tartaruga.Icache.Coherent.{IsCoherent, instr-memory, icache_step-IsCoherent, reset-IsCoherent}
use tartaruga.Imem.Answers.{
  Reads, IsAnswered, imem_step-IsAnswered, reset-IsAnswered, IsLineAddress,
}
use tartaruga.Sim.Memory.{Memory}
use tartaruga.Frontend.{
  Frontend, Inputs, reset, icache_inputs, imem_inputs, frontend_step, valid_out, instr_out,
}

-- The states from reset on, while the words of memory stay.
pub data IsFetching (memory : ℕ → ℕ) : Frontend → Type 0 where
  at_reset : IsFetching memory reset
  cycle :
      {s : Frontend} (m : Memory) (x : Inputs)
      → Reads m memory
      → x.new_pc < word_mod
      → IsFetching memory s
      → IsFetching memory (frontend_step m s x)

record IsFed (memory : ℕ → ℕ) (s : Frontend) : Type 0 where
  counter : s.counter.pc_q < word_mod
  lines : IsCoherent s.icache memory
  pipes : IsAnswered s.imem memory

fetch_step-lt :
    (s : FetchState) (stall taken : Bool) (new_pc : ℕ)
    → s.pc_q < word_mod
    → new_pc < word_mod
    → (fetch_step s stall taken new_pc).pc_q < word_mod
unfolding fetch_step pc_next
fetch_step-lt s stall taken new_pc h l = ground arith

aligned-IsLineAddress : (a : ℕ) → a < word_mod → IsLineAddress (line_aligned a)
aligned-IsLineAddress a h = (omega arith, omega arith)

frontend_step-IsFed :
    (memory : ℕ → ℕ) (m : Memory) (s : Frontend) (x : Inputs)
    → IsFed memory s
    → Reads m memory
    → x.new_pc < word_mod
    → IsFed memory (frontend_step m s x)
unfolding frontend_step icache_inputs imem_inputs
frontend_step-IsFed memory m s x h r l = record {
  counter = fetch_step-lt s.counter x.stall x.taken_branch x.new_pc h.counter l;
  lines =
      icache_step-IsCoherent (icache_inputs s) h.lines (λ v. (h.pipes.answers 4 (omega arith) v).0)
        (λ k p v. (h.pipes.answers 4 (omega arith) v).1 k p);
  pipes =
      imem_step-IsAnswered m s.imem (imem_inputs s) memory h.pipes r
        (λ v. aligned-IsLineAddress s.counter.pc_q h.counter);
}

reset-IsFed : (memory : ℕ → ℕ) → IsFed memory reset
unfolding reset tartaruga.Fetch.reset
reset-IsFed memory = record {
  counter = omega arith;
  lines = reset-IsCoherent memory;
  pipes = reset-IsAnswered memory;
}

IsFetching-IsFed : {memory : ℕ → ℕ} {s : Frontend} → IsFetching memory s → IsFed memory s
IsFetching-IsFed {memory} at_reset = reset-IsFed memory
IsFetching-IsFed {memory} (cycle m x r l f) =
    frontend_step-IsFed memory m _ x (IsFetching-IsFed f) r l

-- In every state that cycles lead to from reset, a valid instruction at the output of fetch is the
-- word of memory at the program counter. The words of memory stay the same and the targets of
-- branches are 32-bit addresses; when the branches and the stalls come does not matter.
pub fetched-memory :
    {memory : ℕ → ℕ} {s : Frontend}
    → IsFetching memory s
    → valid_out s ≡ true
    → instr_out s ≡ memory (s.counter.pc_q / 4)
unfolding valid_out instr_out
fetched-memory {memory} {s} f v =
    let h = IsFetching-IsFed f in instr-memory s.icache memory s.counter.pc_q h.lines h.counter v
