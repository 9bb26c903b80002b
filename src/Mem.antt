-- ===== src/Mem.antt =====
-- rtl/datapath/mem/mem.sv: the result and the branch target of the memory stage.
pub mod Stage
use tartaruga.Base.{ℕ, Bool, true, false, add32, if◌then◌else◌}
use tartaruga.Pkg.{ExeToMem, WbOrigin, alu, mem, mul, pc_4}

abbrev pub is_mem : WbOrigin → Bool
is_mem mem = true
is_mem _ = false

-- mem_to_wb_o.result
unfoldable pub mem_result : ExeToMem → Bool → ℕ → ℕ → ℕ
mem_result x valid_load_bypass data_from_sb dcache_data_rd = elim x.instr.wb_origin [
  | alu ↦ x.result
  | mem ↦ if valid_load_bypass then data_from_sb else dcache_data_rd
  | pc_4 ↦ add32 x.instr.pc_of 4
  | mul ↦ 0
]

-- mem_to_wb_o.branched_pc
unfoldable pub branched_pc_out : ExeToMem → ℕ
branched_pc_out x = if x.branch_taken then x.result else 0
