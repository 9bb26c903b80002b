-- ===== src/Pipeline/Indices.antt =====
-- rtl/datapath/datapath.sv: the slots of the reorder buffer that the instructions in flight name.
use tartaruga.Base.{
  ℕ, Bool, true, false, ◌&&◌, not, ◌-◌, ◌<◌, ◌==◌, if◌then◌else◌, arith, Bool-cases, inl, inr, List,
  [],
}
use tartaruga.Pkg.{DecodeToExe, max_exe_stages, nop_instr}
use tartaruga.Decode.Slot.{decode-rob_idx}
use tartaruga.Exe
use tartaruga.Exe.{ExeState, exe_step, exe_out, exe_stall, pipe_next, shifted, entry_slot}
use tartaruga.Rob.{Rob, Entry}
use tartaruga.Rob.Ring.{Holds}
use tartaruga.Datapath.Operands.{datapath_rob-Holds}
use tartaruga.Datapath.{datapath_rob}
use tartaruga.Datapath.Reach.{reset-Holds}
use tartaruga.Wrapper.{System}
use tartaruga.Pipeline.{
  Pipeline, reset, decoded, exe_to_mem_d, mem_to_wb_d, decode_to_exe_d, decode_to_exe_next, stalls,
  stall_from_mem, wires, to_rob, pipeline_step,
}

pub record IsIndexed (c : Pipeline) : Type 0 where
  pub decode : c.decode_to_exe_q.instr.rob_idx < 16
  pub exe : (i : ℕ) → (c.exe.pipe i).instr.rob_idx < 16
  pub exe_to_mem : c.exe_to_mem_q.instr.rob_idx < 16
  pub mem_to_wb : c.mem_to_wb_q.instr.rob_idx < 16

abbrev IsSlot : DecodeToExe → Type 0
IsSlot x = x.instr.rob_idx < 16

if-IsSlot : (b : Bool) (x y : DecodeToExe) → IsSlot x → IsSlot y → IsSlot (if b then x else y)
if-IsSlot true x y h k = h
if-IsSlot false x y h k = k

shifted-IsSlot : (p : ℕ → DecodeToExe) (i : ℕ) → ((j : ℕ) → IsSlot (p j)) → IsSlot (shifted p i)
shifted-IsSlot p i h = if-IsSlot (i == 0) nop_instr (p (i - 1)) (omega arith) (h (i - 1))

pipe_next-IsSlot :
    (s : ExeState) (x : DecodeToExe) (i : ℕ)
    → ((j : ℕ) → IsSlot (s.pipe j))
    → IsSlot x
    → IsSlot (pipe_next s x i)
unfolding pipe_next
pipe_next-IsSlot s x i h g = elim (Bool-cases (exe_stall s x)) [
  | inl e ↦ rw e (shifted-IsSlot s.pipe i h)
  | inr e ↦ rw e (if-IsSlot (entry_slot x == i) x (shifted s.pipe i) g (shifted-IsSlot s.pipe i h))
]

Holds-tail : {r : Rob} {q : List Entry} → Holds r q → r.tail < 16
Holds-tail h = omega (arith, h.tail_at)

module _ {c : Pipeline} {q : List Entry} (h : Holds c.rob q) (k : IsIndexed c) where
  decoded-IsSlot : IsSlot (decode_to_exe_d c)
  unfolding decode_to_exe_d decoded
  decoded-IsSlot =
      omega (arith, decode-rob_idx c.pc_decode c.instruction_q c.rob.tail c.id_decode, Holds-tail h)

  next-IsSlot : IsSlot (decode_to_exe_next c)
  unfolding decode_to_exe_next
  next-IsSlot = if-IsSlot (not (stalls c)) _ _ decoded-IsSlot (
      if-IsSlot (not (exe_stall c.exe c.decode_to_exe_q) && not (stall_from_mem c)) _ _
        (omega arith) k.decode)

  executed-IsSlot : (exe_to_mem_d c).instr.rob_idx < 16
  unfolding exe_to_mem_d exe_out
  executed-IsSlot = pipe_next-IsSlot c.exe c.decode_to_exe_q (max_exe_stages - 1) k.exe k.decode

  step-IsIndexed : IsIndexed (pipeline_step c)
  unfolding pipeline_step mem_to_wb_d exe_step
  step-IsIndexed = record {
    decode = next-IsSlot;
    exe = λ i. pipe_next-IsSlot c.exe c.decode_to_exe_q i k.exe k.decode;
    exe_to_mem = elim (Bool-cases (stall_from_mem c)) [
      | inl e ↦ rw e k.exe_to_mem
      | inr e ↦ rw e executed-IsSlot
    ];
    mem_to_wb = k.exe_to_mem;
  }

-- What the states have in common: the reorder buffer holds a queue, and the slots are slots of it.
pub record IsSound (c : Pipeline) : Type 0 where
  pub in_flight : List Entry
  pub holds : Holds c.rob in_flight
  pub indexed : IsIndexed c

pub step-IsSound : {c : Pipeline} → IsSound c → IsSound (pipeline_step c)
unfolding pipeline_step to_rob datapath_rob wires
step-IsSound {c} h = record {
  in_flight = _;
  holds = datapath_rob-Holds h.holds (wires c) (decoded c) h.indexed.mem_to_wb;
  indexed = step-IsIndexed h.holds h.indexed;
}

-- The states from reset on.
pub data IsRunning : Pipeline → Type 0 where
  at_reset : (regs : ℕ → ℕ) (system : System) → IsRunning (reset regs system)
  cycle : {c : Pipeline} → IsRunning c → IsRunning (pipeline_step c)

reset-IsIndexed : (regs : ℕ → ℕ) (system : System) → IsIndexed (reset regs system)
unfolding reset tartaruga.Exe.reset
reset-IsIndexed regs system = record {
  decode = omega arith;
  exe = λ i. omega arith;
  exe_to_mem = omega arith;
  mem_to_wb = omega arith;
}

-- In every state of the core that clock cycles lead to from reset, whatever memory and the
-- registers hold, the reorder buffer holds a queue of at most 15 instructions, and the instructions
-- between the stages name slots below 16.
pub IsRunning-IsSound : {c : Pipeline} → IsRunning c → IsSound c
unfolding reset
IsRunning-IsSound (at_reset regs system) = record {
  in_flight = [];
  holds = reset-Holds;
  indexed = reset-IsIndexed regs system;
}
IsRunning-IsSound (cycle r) = step-IsSound (IsRunning-IsSound r)
