-- ===== src/Exe/Pipe.antt =====
-- rtl/datapath/exe/exe.sv and mul.sv: the way of an instruction through the stage.
use native.Mathlib.Decide.{ℕ_discrete}
use tartaruga.Base.{ℕ, suc, true, false, ◌≡◌, ◌∙◌, ◌-◌, arith, refl, ap}
use tartaruga.Pkg.{DecodeToExe}
use tartaruga.Alu.{mul_result}
use tartaruga.Exe.{ExeState, exe_step, exe_out, exe_stall, operand_rs1, operand_rs2}
use tartaruga.Exe.{pipe_next, entry_slot, shifted}

shifted-suc : (q : ℕ → DecodeToExe) (i : ℕ) → shifted q (suc i) ≡ q i
shifted-suc q i = let e : suc i - 1 ≡ i = omega arith in ground (arith, ap q e)

-- A valid instruction in the pipe moves on by one, whatever enters.
pipe_next-keeps :
    (s : ExeState) (a : DecodeToExe) (i : ℕ)
    → (s.pipe i).valid ≡ true
    → pipe_next s a (suc i) ≡ s.pipe i
unfolding pipe_next
pipe_next-keeps s a i v = elim (ℕ_discrete (entry_slot a) (suc i)) [
  | yes e ↦ ground (arith, shifted-suc s.pipe i, ap (shifted s.pipe) e)
  | no ne ↦ ground (arith, shifted-suc s.pipe i)
]

pipe_moves :
    (s : ExeState) (a : DecodeToExe) (i : ℕ)
    → (s.pipe i).valid ≡ true
    → (exe_step s a).pipe (suc i) ≡ s.pipe i
unfolding exe_step
pipe_moves s a i v = pipe_next-keeps s a i v

delay_moves : (s : ExeState) (a : DecodeToExe) (i : ℕ) → (exe_step s a).delay (suc i) ≡ s.delay i
unfolding exe_step
delay_moves s a i = let e : suc i - 1 ≡ i = omega arith in ground (arith, ap s.delay e)

enters :
    (s : ExeState) (x : DecodeToExe)
    → x.instr.exe_stages ≡ 5
    → (exe_stall s x ≡ false)
      × ((exe_step s x).pipe 0 ≡ x)
      × ((exe_step s x).delay 0 ≡ mul_result (operand_rs1 x) (operand_rs2 x))
unfolding exe_step exe_stall
enters s x p = rw p (refl, refl, refl)

leaves :
    (s : ExeState) (d : DecodeToExe)
    → (s.pipe 3).valid ≡ true
    → (s.pipe 3).instr.is_mul ≡ true
    → ((exe_out s d).valid ≡ true)
      × ((exe_out s d).instr ≡ (s.pipe 3).instr)
      × ((exe_out s d).result ≡ s.delay 3)
unfolding exe_out
leaves s d v m = let e = pipe_next-keeps s d 3 v in rw e (rw v refl, refl, rw m refl)

-- A valid product that enters the execution stage is not held up, and comes out four cycles later
-- whatever enters in between: as a valid instruction with its own metadata, and with the product of
-- the operands that it came with.
pub mul_latency :
    (s : ExeState) (x a b c d : DecodeToExe)
    → x.valid ≡ true
    → x.instr.exe_stages ≡ 5
    → x.instr.is_mul ≡ true
    → let out = exe_out (exe_step (exe_step (exe_step (exe_step s x) a) b) c) d in
      (exe_stall s x ≡ false)
      × (out.valid ≡ true)
      × (out.instr ≡ x.instr)
      × (out.result ≡ mul_result (operand_rs1 x) (operand_rs2 x))
mul_latency s x a b c d v p m =
    let s1 = exe_step s x in
    let s2 = exe_step s1 a in
    let s3 = exe_step s2 b in
    let s4 = exe_step s3 c in
    let e = enters s x p in
    let p1 = e.1 in
    let p2 = pipe_moves s1 a 0 (rw p1 v) ∙ p1 in
    let p3 = pipe_moves s2 b 1 (rw p2 v) ∙ p2 in
    let p4 = pipe_moves s3 c 2 (rw p3 v) ∙ p3 in
    let d4 = delay_moves s3 c 2 ∙ delay_moves s2 b 1 ∙ delay_moves s1 a 0 ∙ e.2 in
    let l = leaves s4 d (rw p4 v) (rw p4 m) in
    (e.0, l.0, l.1 ∙ ap (λ (y : DecodeToExe). y.instr) p4, l.2 ∙ d4)
