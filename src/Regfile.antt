-- ===== src/Regfile.antt =====
-- rtl/datapath/decode/regfile.sv: the registers. Both loops end at REG_COUNT - 2.
pub mod History
use tartaruga.Base.{ℕ, Bool, ◌&&◌, ◌==◌, ltb, if◌then◌else◌, ◌≡◌, arith, ◌-◌}
use tartaruga.Pkg.{reg_count}

unfoldable pub regfile_reset : (ℕ → ℕ) → ℕ → ℕ
regfile_reset regs i = if ltb i (reg_count - 1) then 0 else regs i

unfoldable pub regfile_step : (ℕ → ℕ) → ℕ → ℕ → Bool → ℕ → ℕ
regfile_step regs addr_rd data_rd write_enable i =
    if ltb 0 i && ltb i (reg_count - 1) && (i == addr_rd && write_enable) then data_rd else regs i

-- data_rs1_o and data_rs2_o.
unfoldable pub regfile_read : (ℕ → ℕ) → ℕ → ℕ
regfile_read regs addr = regs addr
