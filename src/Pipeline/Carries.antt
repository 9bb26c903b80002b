-- ===== src/Pipeline/Carries.antt =====
-- rtl/datapath/datapath.sv: which registers between the stages hold the instruction of a slot.
use tartaruga.Base.{
  ℕ, Bool, true, false, ◌&&◌, ◌||◌, not, ◌≡◌, ◌≢◌, ◌==◌, if◌then◌else◌, ap, refl, arith, Bool-cases,
  inl, inr, update-there,
}
use native.Mathlib.Decide.{ℕ_discrete}
use tartaruga.Pkg.{InstrData, DecodeToExe, nop_instr}
use tartaruga.Exe.{ExeState, exe_step, exe_out, exe_stall, pipe_next, shifted, entry_slot}
use tartaruga.Mem.Stage.{MemStage, MemInputs, mem_valid, valid_load_bypass, valid_load_dcache}
use tartaruga.Decode.Slot.{decode-rob_idx}
use tartaruga.Pipeline.{
  Pipeline, decoded, exe_to_mem_d, mem_to_wb_d, decode_to_exe_d, decode_to_exe_next, stalls,
  stall_from_mem, mem_view, pipeline_step,
}

-- A valid instruction of a slot.
abbrev pub is_of : ℕ → Bool → InstrData → Bool
is_of i valid d = valid && d.rob_idx == i

-- Stage `k` of exe; the last one is not read again.
abbrev pub at_stage : ℕ → ExeState → ℕ → Bool
at_stage i s k = is_of i (s.pipe k).valid (s.pipe k).instr

-- Whether a register between the stages holds the instruction of a slot.
abbrev pub carries : ℕ → Pipeline → Bool
carries i c =
    is_of i c.decode_to_exe_q.valid c.decode_to_exe_q.instr
    || at_stage i c.exe 0
    || at_stage i c.exe 1
    || at_stage i c.exe 2
    || at_stage i c.exe 3
    || is_of i c.exe_to_mem_q.valid c.exe_to_mem_q.instr
    || is_of i c.mem_to_wb_q.valid c.mem_to_wb_q.instr

-- Valid instructions that are not of the slot.
abbrev IsOther : ℕ → Bool → InstrData → Type 0
IsOther i v d = is_of i v d ≡ false

abbrev IsOtherStage : ℕ → DecodeToExe → Type 0
IsOtherStage i x = IsOther i x.valid x.instr

if-IsOther :
    (i : ℕ) (b : Bool) (x y : DecodeToExe)
    → IsOtherStage i x
    → IsOtherStage i y
    → IsOtherStage i (if b then x else y)
if-IsOther i true x y h k = h
if-IsOther i false x y h k = k

-- What enters stage `k`, when the stage before it and the register in front of exe hold others.
pipe_next-IsOther :
    (i : ℕ) (s : ExeState) (x : DecodeToExe) (k : ℕ)
    → IsOtherStage i (shifted s.pipe k)
    → IsOtherStage i x
    → IsOtherStage i (pipe_next s x k)
unfolding pipe_next
pipe_next-IsOther i s x k h g = elim (Bool-cases (exe_stall s x)) [
  | inl e ↦ rw e h
  | inr e ↦ rw e (if-IsOther i (entry_slot x == k) x (shifted s.pipe k) g h)
]

-- The registers one by one.
abbrev pub IsNowhere : ℕ → Pipeline → Type 0
IsNowhere i c =
    (is_of i c.decode_to_exe_q.valid c.decode_to_exe_q.instr ≡ false)
    × (at_stage i c.exe 0 ≡ false)
    × (at_stage i c.exe 1 ≡ false)
    × (at_stage i c.exe 2 ≡ false)
    × (at_stage i c.exe 3 ≡ false)
    × (is_of i c.exe_to_mem_q.valid c.exe_to_mem_q.instr ≡ false)
    × (is_of i c.mem_to_wb_q.valid c.mem_to_wb_q.instr ≡ false)

parts :
    (a b c d e f g : Bool)
    → (a || b || c || d || e || f || g) ≡ false
    → (a ≡ false)
      × (b ≡ false)
      × (c ≡ false)
      × (d ≡ false)
      × (e ≡ false)
      × (f ≡ false)
      × (g ≡ false)
parts a b c d e f g h = (
  ground arith,
  ground arith,
  ground arith,
  ground arith,
  ground arith,
  ground arith,
  ground arith,
)

pub not_carried : (i : ℕ) (c : Pipeline) → carries i c ≡ false → IsNowhere i c
not_carried i c h = parts _ _ _ _ _ _ _ h

pub none_carried :
    {a b c d e f g : Bool}
    → a ≡ false
    → b ≡ false
    → c ≡ false
    → d ≡ false
    → e ≡ false
    → f ≡ false
    → g ≡ false
    → (a || b || c || d || e || f || g) ≡ false
none_carried a b c d e f g = ground (arith, a, b, c, d, e, f, g)

mem_valid-idle :
    (s : MemStage) (x : MemInputs) → x.exe_to_mem_i.valid ≡ false → mem_valid s x ≡ false
unfolding mem_valid valid_load_bypass valid_load_dcache
mem_valid-idle s x h = ground (arith, h)

module _ (c : Pipeline) (i : ℕ) where
  -- Decode names the tail.
  pub decode_next-IsOther :
      c.rob.tail ≢ i → IsOtherStage i c.decode_to_exe_q → IsOtherStage i (decode_to_exe_next c)
  unfolding decode_to_exe_next decode_to_exe_d decoded
  decode_next-IsOther t h =
      let q = decode-rob_idx c.pc_decode c.instruction_q c.rob.tail c.id_decode in
      if-IsOther i (not (stalls c)) _ _ (ground (arith, q, t)) (
        if-IsOther i (not (exe_stall c.exe c.decode_to_exe_q) && not (stall_from_mem c)) nop_instr _
          refl h)

  pub mem_out-IsOther :
      is_of i c.exe_to_mem_q.valid c.exe_to_mem_q.instr ≡ false
      → is_of i (mem_to_wb_d c).valid (mem_to_wb_d c).instr ≡ false
  unfolding mem_to_wb_d mem_view
  mem_out-IsOther h = elim (Bool-cases c.exe_to_mem_q.valid) [
    | inl v ↦ ground (arith, h, v)
    | inr v ↦ ground (arith, mem_valid-idle c.mem_stage (mem_view c) v)
  ]

  -- What leaves exe came from its fourth stage or from the register in front of it.
  exe_out-IsOther :
      IsOtherStage i (c.exe.pipe 3)
      → IsOtherStage i c.decode_to_exe_q
      → is_of i (exe_to_mem_d c).valid (exe_to_mem_d c).instr ≡ false
  unfolding exe_to_mem_d exe_out
  exe_out-IsOther h g = pipe_next-IsOther i c.exe c.decode_to_exe_q 4 h g

  exe_to_mem-IsOther :
      is_of i (exe_to_mem_d c).valid (exe_to_mem_d c).instr ≡ false
      → is_of i c.exe_to_mem_q.valid c.exe_to_mem_q.instr ≡ false
      → is_of i (pipeline_step c).exe_to_mem_q.valid (pipeline_step c).exe_to_mem_q.instr ≡ false
  unfolding pipeline_step
  exe_to_mem-IsOther h g = elim (Bool-cases (stall_from_mem c)) [ inl e ↦ rw e g | inr e ↦ rw e h ]

  pub stage :
      (k : ℕ)
      → IsOtherStage i (shifted c.exe.pipe k)
      → IsOtherStage i c.decode_to_exe_q
      → IsOtherStage i (pipe_next c.exe c.decode_to_exe_q k)
  stage k g d = pipe_next-IsOther i c.exe c.decode_to_exe_q k g d

  -- A cycle in which nothing carries the slot.
  pub carries-step : c.rob.tail ≢ i → carries i c ≡ false → carries i (pipeline_step c) ≡ false
  unfolding pipeline_step exe_step
  carries-step t h =
      let (d, p0, p1, p2, p3, m, w) = not_carried i c h in
      none_carried (decode_next-IsOther t d) (stage 0 refl d) (stage 1 p0 d) (stage 2 p1 d)
        (stage 3 p2 d) (exe_to_mem-IsOther (exe_out-IsOther p3 d) m) (mem_out-IsOther m)

-- The last stage is what waits before it.
pub pipe_next-last :
    (s : ExeState) (x : DecodeToExe) → (s.pipe 3).valid ≡ true → pipe_next s x 4 ≡ s.pipe 3
unfolding pipe_next exe_stall
pipe_next-last s x v = elim (Bool-cases (exe_stall s x)) [
  | inl e ↦ rw e refl
  | inr e ↦ elim (ℕ_discrete (entry_slot x) 4) [
    | yes p ↦ let q = ap (λ k. (shifted s.pipe k).valid) p in absurd cc
    | no p ↦ rw e (update-there (shifted s.pipe) (entry_slot x) 4 x p)
  ]
]
