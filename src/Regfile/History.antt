-- ===== src/Regfile/History.antt =====
-- rtl/datapath/decode/regfile.sv: the registers after a history of clock cycles.
use tartaruga.Base.{
  ℕ, Bool, true, false, ◌&&◌, ◌<◌, ◌≤◌, ◌⊎◌, inl, inr, ltb, sym, ap, ◌≡◌, ◌∙◌, ◌==◌, refl, arith,
  if◌then◌else◌, List, [], ◌∷◌, Option, none, some,
}
use native.Mathlib.Decide.{dec_lt, ℕ_discrete}
use tartaruga.Regfile.{regfile_reset, regfile_step, regfile_read}

-- The write inputs of a cycle.
pub record Write : Type 0 where
  pub addr_rd : ℕ
  pub data_rd : ℕ
  pub write_enable : Bool

-- The registers after cycles with these inputs, the first one first.
unfoldable pub run : (ℕ → ℕ) → List Write → ℕ → ℕ
run regs [] = regs
run regs (w ∷ ws) = run (regfile_step regs w.addr_rd w.data_rd w.write_enable) ws

abbrev pub or_value : Option ℕ → ℕ → ℕ
or_value none v = v
or_value (some w) v = w

-- The first of two values that is there.
abbrev pub first_of : Option ℕ → Option ℕ → Option ℕ
first_of none o = o
first_of (some v) o = some v

-- The value of the last enabled write to a register.
unfoldable pub last_write : List Write → ℕ → Option ℕ
last_write [] i = none
last_write (w ∷ ws) i =
    first_of (last_write ws i) (if w.write_enable && w.addr_rd == i then some w.data_rd else none)

or_value-first_of :
    (o : Option ℕ) (b : Bool) (v d : ℕ)
    → or_value (first_of o (if b then some v else none)) d ≡ or_value o (if b then v else d)
or_value-first_of (some w) b v d = refl
or_value-first_of none true v d = refl
or_value-first_of none false v d = refl

run-written :
    (regs : ℕ → ℕ) (ws : List Write) (i : ℕ)
    → 0 < i
    → i < 31
    → run regs ws i ≡ or_value (last_write ws i) (regs i)
unfolding run last_write regfile_step
run-written regs [] i p q = refl
run-written regs (w ∷ ws) i p q =
    let s = regfile_step regs w.addr_rd w.data_rd w.write_enable in
    let e : s i ≡ (if w.write_enable && w.addr_rd == i then w.data_rd else regs i) = ground arith in
    run-written s ws i p q
    ∙ ap (or_value (last_write ws i)) e
    ∙ sym
        (or_value-first_of (last_write ws i) (w.write_enable && w.addr_rd == i) w.data_rd (regs i))

run-constant :
    (regs : ℕ → ℕ) (ws : List Write) (i : ℕ) → (i ≡ 0) ⊎ (31 ≤ i) → run regs ws i ≡ regs i
unfolding run regfile_step
run-constant regs [] i h = refl
run-constant regs (w ∷ ws) i h =
    run-constant (regfile_step regs w.addr_rd w.data_rd w.write_enable) ws i h ∙ ground arith

-- After reset and any history of clock cycles, a read of x1 to x30 gives the value of the last
-- enabled write to that register, or 0 if there was none; x0 reads 0, and x31 keeps what it held
-- before the reset.
pub run-reset :
    (regs : ℕ → ℕ) (ws : List Write) (i : ℕ)
    → regfile_read (run (regfile_reset regs) ws) i
      ≡ (if i == 0 then 0 else if ltb i 31 then or_value (last_write ws i) 0 else regs i)
unfolding regfile_read regfile_reset
run-reset regs ws i =
    let z = regfile_reset regs in
    elim (dec_lt i 31) [
      | yes p ↦ elim (ℕ_discrete i 0) [
        | yes e ↦ run-constant z ws i (inl e) ∙ ground arith
        | no n ↦ ground (arith, run-written z ws i (omega arith) p)
      ]
      | no p ↦ run-constant z ws i (inr (omega arith)) ∙ ground arith
    ]
