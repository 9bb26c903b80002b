-- ===== src/Fetch.antt =====
-- rtl/datapath/fetch/fetch.sv: the program counter.
use tartaruga.Base.{ℕ, Bool, ◌&&◌, ◌||◌, not, ◌+◌, add32, if◌then◌else◌}

-- pc_d
unfoldable pub pc_next : ℕ → Bool → ℕ → ℕ
pc_next pc_q taken_branch new_pc = if taken_branch then new_pc else add32 pc_q 4

pub record FetchState : Type 0 where
  pub pc_q : ℕ
  pub kanata_id : ℕ

unfoldable pub reset : FetchState
reset = record { pc_q = 0; kanata_id = 0 }

unfoldable pub fetch_step : FetchState → Bool → Bool → ℕ → FetchState
unfolding pc_next
fetch_step s stall taken_branch new_pc =
    if not stall || taken_branch
    then record {
      pc_q = pc_next s.pc_q taken_branch new_pc;
      kanata_id = if not stall && not taken_branch then s.kanata_id + 1 else s.kanata_id;
    }
    else s
