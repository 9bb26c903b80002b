-- ===== src/Datapath/Operands.antt =====
-- rtl/datapath/datapath.sv: the operands and the reorder buffer against the queue of instructions.
use tartaruga.Base.{
  ℕ, true, false, not, ◌&&◌, ◌||◌, none, some, ◌≡◌, ◌<◌, inl, inr, sym, Bool-cases, List, length,
  refl, arith,
}
use tartaruga.Pkg.{InstrData}
use tartaruga.Mem.{is_mem}
use tartaruga.Rob.{Rob, Entry, hazard, rob_full}
use tartaruga.Rob.Queue.{queue_step, position}
use tartaruga.Rob.Ring.{Holds}
use tartaruga.Rob.Refines.{rob_step-Holds}
use tartaruga.Rob.Hazard.{newest_writer, hazard-newest, slot_of}
use mathlib.Core.Option
use mathlib.Core.Option.{Option}
use mathlib.Core.Path.{subst}
use tartaruga.Datapath.{
  Wires, in_exe, in_mem, has_hazard, operand, stall, decode_valid, rob_inputs, datapath_rob,
}

-- Where the value of the instruction in a slot of the reorder buffer comes from.
pub data Supplies (w : Wires) (slot : ℕ) (e : Entry) : ℕ → Type 0 where
  from_rob : e.completed ≡ true → Supplies w slot e e.result
  from_exe :
      e.completed ≡ false
      → slot ≡ w.exe_to_mem_d.instr.rob_idx
      → w.exe_to_mem_d.valid ≡ true
      → is_mem w.exe_to_mem_d.instr.wb_origin ≡ false
      → Supplies w slot e w.exe_to_mem_d.result
  from_mem :
      e.completed ≡ false
      → slot ≡ w.mem_to_wb_d.instr.rob_idx
      → w.mem_to_wb_d.valid ≡ true
      → Supplies w slot e w.mem_to_wb_d.result

-- What an operand is: the value of the newest instruction in flight that writes the register, or
-- what the register file holds.
pub data IsOperand (r : Rob) (w : Wires) (data_of : ℕ) : Option ℕ → ℕ → Type 0 where
  from_file : IsOperand r w data_of none data_of
  in_flight : (i v : ℕ) → Supplies w i (r.entries i) v → IsOperand r w data_of (some i) v

value-Supplies :
    (r : Rob) (w : Wires) (i v : ℕ)
    → (operand r w (some i) 0).1 ≡ true
    → Supplies w i (r.entries i) (operand r w (some i) v).0
unfolding operand in_exe in_mem
value-Supplies r w i v s = elim (Bool-cases (r.entries i).completed) [
  | inl c ↦
      let e : (operand r w (some i) v).0 ≡ (r.entries i).result = ground arith in
      subst (Supplies w i (r.entries i)) (sym e) (from_rob c)
  | inr c ↦ elim (Bool-cases (in_exe i w)) [
    | inl e ↦
        let p : (operand r w (some i) v).0 ≡ w.exe_to_mem_d.result = ground arith in
        subst (Supplies w i (r.entries i)) (sym p)
          (from_exe c (ground arith) (ground arith) (ground arith))
    | inr e ↦ elim (Bool-cases (in_mem i w)) [
      | inl m ↦
          let p : (operand r w (some i) v).0 ≡ w.mem_to_wb_d.result = ground arith in
          subst (Supplies w i (r.entries i)) (sym p) (from_mem c (ground arith) (ground arith))
      | inr m ↦ absurd (ground arith)
    ]
  ]
]

operand-IsOperand :
    (r : Rob) (w : Wires) (o : Option ℕ) (v : ℕ)
    → (operand r w o 0).1 ≡ true
    → IsOperand r w v o (operand r w o v).0
unfolding operand
operand-IsOperand r w none v s = from_file
operand-IsOperand r w (some i) v s =
    in_flight i (operand r w (some i) v).0 (value-Supplies r w i v s)

solved :
    (r : Rob) (w : Wires) (o p : Option ℕ)
    → ((has_hazard o || has_hazard p) && not ((operand r w o 0).1 && (operand r w p 0).1)) ≡ false
    → ((operand r w o 0).1 ≡ true) × ((operand r w p 0).1 ≡ true)
unfolding has_hazard operand
solved r w none none h = (refl, refl)
solved r w none (some i) h = (refl, ground arith)
solved r w (some i) none h = (ground arith, refl)
solved r w (some i) (some j) h = (ground arith, ground arith)

not_stalled :
    (r : Rob) (w : Wires) (d : InstrData) → decode_valid r w d ≡ true → (stall r w d ≡ false)
unfolding decode_valid
not_stalled r w d v = ground arith

module _ {r : Rob} {q : List Entry} (h : Holds r q) (w : Wires) (d : InstrData) where
  decode_valid-room : decode_valid r w d ≡ true → rob_full r ≡ false
  unfolding stall
  decode_valid-room v = ground (arith, not_stalled r w d v)

  -- A clock cycle of the datapath keeps the reorder buffer in step with the queue, if write-back
  -- names a slot below 16: the stall of decode keeps the buffer from being filled beyond 15
  -- instructions.
  pub datapath_rob-Holds :
      w.mem_to_wb_q.instr.rob_idx < 16
      → Holds (datapath_rob r w d) (
          queue_step q
            (rob_inputs r w d)
            (position r.head w.mem_to_wb_q.instr.rob_idx)
            (r.entries r.tail))
  unfolding datapath_rob rob_inputs
  datapath_rob-Holds c = rob_step-Holds (rob_inputs r w d) h c decode_valid-room

  -- When the instruction in decode goes on, each of its operands belongs to the newest instruction
  -- in flight that writes the register: the result in the reorder buffer if that instruction has
  -- completed, and if it has not, the valid result of its slot that leaves the execution stage (and
  -- is no load) or the memory stage. With no such instruction it is what the register file holds.
  -- The ring holds the queue of the instructions in flight.
  pub operands-IsOperand :
      (v1 v2 : ℕ)
      → decode_valid r w d ≡ true
      → IsOperand r w v1
          (Option.map (slot_of h d.addr_rs1) (newest_writer q d.addr_rs1 (length q)))
          (operand r w (hazard r d.addr_rs1) v1).0
        × IsOperand r w v2
            (Option.map (slot_of h d.addr_rs2) (newest_writer q d.addr_rs2 (length q)))
            (operand r w (hazard r d.addr_rs2) v2).0
  unfolding stall
  operands-IsOperand v1 v2 v =
      let f = not_stalled r w d v in
      let s = solved r w (hazard r d.addr_rs1) (hazard r d.addr_rs2) (ground arith) in
      (
        subst (λ o. IsOperand r w v1 o (operand r w (hazard r d.addr_rs1) v1).0)
            (hazard-newest h d.addr_rs1) (operand-IsOperand r w (hazard r d.addr_rs1) v1 s.0),
        subst (λ o. IsOperand r w v2 o (operand r w (hazard r d.addr_rs2) v2).0)
            (hazard-newest h d.addr_rs2) (operand-IsOperand r w (hazard r d.addr_rs2) v2 s.1),
      )
