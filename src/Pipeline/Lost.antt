-- ===== src/Pipeline/Lost.antt =====
-- rtl/datapath/datapath.sv: an instruction that leaves exe while the memory stage stalls.
use tartaruga.Base.{
  ℕ, zero, suc, Bool, true, false, ◌&&◌, ◌<◌, ◌≤◌, ◌≡◌, ◌≢◌, ◌∙◌, ◌==◌, if◌then◌else◌, ap, refl,
  arith, update, update-there,
}
use tartaruga.Pkg.{DecodeToExe}
use tartaruga.Exe.{exe_step, exe_out}
use tartaruga.Rob.{
  Rob, Entry, Inputs, flush, commit_valid, alloc, write_back, retire, updated, rob_step,
}
use tartaruga.Rob.Ring.{tail_valid}
use tartaruga.Datapath.{rob_inputs}
use tartaruga.Pipeline.{Pipeline, exe_to_mem_d, stall_from_mem, wires, to_rob, pipeline_step}
use tartaruga.Pipeline.Indices.{IsSound, step-IsSound}
use tartaruga.Pipeline.Carries.{
  is_of, at_stage, carries, not_carried, none_carried, decode_next-IsOther, mem_out-IsOther, stage,
  carries-step, pipe_next-last,
}

-- An instruction in flight that nothing carries any more.
pub record IsLost (i : ℕ) (c : Pipeline) : Type 0 where
  pub waits : (c.rob.entries i).valid ≡ true
  pub unfinished : (c.rob.entries i).completed ≡ false
  pub nowhere : carries i c ≡ false

guarded_update :
    (b : Bool) (d : ℕ → Entry) (j i : ℕ) (e : Entry)
    → (b ≡ true → j ≢ i)
    → (if b then update d j e else d) i ≡ d i
guarded_update true d j i e h = update-there d j i e (h refl)
guarded_update false d j i e h = refl

-- The reorder buffer keeps an entry that is not completed and that write-back does not name.
module _ (r : Rob) (x : Inputs) (i : ℕ) (v : (r.entries i).valid ≡ true)
    (c : (r.entries i).completed ≡ false) where
  alloc-kept : (r.entries r.tail).valid ≡ false → alloc r x i ≡ r.entries i
  unfolding alloc
  alloc-kept t =
      guarded_update x.valid_decode r.entries r.tail i _
        (λ b e. let q = ap (λ j. (r.entries j).valid) e in cc)

  write_back-kept :
      (d : ℕ → Entry) → (x.valid_wb && x.rob_entry_commit == i) ≡ false → write_back r x d i ≡ d i
  unfolding write_back
  write_back-kept d w =
      guarded_update (x.valid_wb && (r.entries x.rob_entry_commit).valid) d x.rob_entry_commit i _
        (λ b e. ground (arith, w, e, b))

  retire-kept : (d : ℕ → Entry) → retire r d i ≡ d i
  unfolding retire commit_valid
  retire-kept d =
      guarded_update ((r.entries r.head).valid && (r.entries r.head).completed) d r.head i _
        (λ b e. let q = ap (λ j. (r.entries j).completed) e in ground (arith, q, b, c))

  kept_entry :
      (r.entries r.tail).valid ≡ false
      → (x.valid_wb && x.rob_entry_commit == i) ≡ false
      → flush r ≡ false
      → (rob_step r x).entries i ≡ r.entries i
  unfolding rob_step updated
  kept_entry t w f =
      rw f (retire-kept (write_back r x (alloc r x)) ∙ write_back-kept (alloc r x) w ∙ alloc-kept t)

-- While no taken branch commits, an instruction that is lost stays so.
pipeline_step-IsLost :
    (c : Pipeline) (i : ℕ)
    → IsSound c
    → flush c.rob ≡ false
    → IsLost i c
    → IsLost i (pipeline_step c)
unfolding pipeline_step to_rob rob_inputs wires
pipeline_step-IsLost c i r f l =
    let t : (c.rob.entries c.rob.tail).valid ≡ false = tail_valid r.holds in
    let (d, p0, p1, p2, p3, m, w) = not_carried i c l.nowhere in
    let e = kept_entry c.rob (to_rob c) i l.waits l.unfinished t w f in
    record {
      waits = ap (λ (n : Entry). n.valid) e ∙ l.waits;
      unfinished = ap (λ (n : Entry). n.completed) e ∙ l.unfinished;
      nowhere =
          carries-step c i
            (λ o. let u = ap (λ j. (c.rob.entries j).valid) o in let v = l.waits in cc) l.nowhere;
    }

-- The instruction of a slot, not completed, leaves the pipe of exe, and nothing else has its slot.
pub record IsLeaving (i : ℕ) (c : Pipeline) : Type 0 where
  pub waits : (c.rob.entries i).valid ≡ true
  pub unfinished : (c.rob.entries i).completed ≡ false
  pub leaves : (c.exe.pipe 3).valid ≡ true
  pub slot : (c.exe.pipe 3).instr.rob_idx ≡ i
  pub decode : is_of i c.decode_to_exe_q.valid c.decode_to_exe_q.instr ≡ false
  pub exe : (k : ℕ) → k < 3 → at_stage i c.exe k ≡ false
  pub exe_to_mem : is_of i c.exe_to_mem_q.valid c.exe_to_mem_q.instr ≡ false
  pub mem_to_wb : is_of i c.mem_to_wb_q.valid c.mem_to_wb_q.instr ≡ false

sends :
    (c : Pipeline) (i : ℕ)
    → IsLeaving i c
    → is_of i (exe_to_mem_d c).valid (exe_to_mem_d c).instr ≡ true
unfolding exe_to_mem_d exe_out
sends c i l =
    let e = pipe_next-last c.exe c.decode_to_exe_q l.leaves in
    ap (λ (x : DecodeToExe). is_of i x.valid x.instr) e ∙ ground (arith, l.leaves, l.slot)

-- The memory stage does not take it.
leaving-IsLost :
    (c : Pipeline) (i : ℕ)
    → IsSound c
    → flush c.rob ≡ false
    → stall_from_mem c ≡ true
    → IsLeaving i c
    → IsLost i (pipeline_step c)
unfolding pipeline_step exe_step to_rob rob_inputs wires
leaving-IsLost c i r f x l =
    let d = l.decode in
    let t : (c.rob.entries c.rob.tail).valid ≡ false = tail_valid r.holds in
    let e = kept_entry c.rob (to_rob c) i l.waits l.unfinished t l.mem_to_wb f in
    record {
      waits = ap (λ (n : Entry). n.valid) e ∙ l.waits;
      unfinished = ap (λ (n : Entry). n.completed) e ∙ l.unfinished;
      nowhere =
          none_carried
            (decode_next-IsOther c i
              (λ o. let u = ap (λ j. (c.rob.entries j).valid) o in let v = l.waits in cc) d)
            (stage c i 0 refl d) (stage c i 1 (l.exe 0 (omega arith)) d)
            (stage c i 2 (l.exe 1 (omega arith)) d) (stage c i 3 (l.exe 2 (omega arith)) d)
            (rw x l.exe_to_mem) (mem_out-IsOther c i l.exe_to_mem);
    }

-- The state after some cycles.
unfoldable pub run : Pipeline → ℕ → Pipeline
run c zero = c
run c (suc n) = pipeline_step (run c n)

run-IsSound : (c : Pipeline) → IsSound c → (n : ℕ) → IsSound (run c n)
unfolding run
run-IsSound c h zero = h
run-IsSound c h (suc n) = step-IsSound (run-IsSound c h n)

-- When an instruction that is in flight and not completed leaves the pipe of the execution stage,
-- as a product does, in a cycle in which the memory stage stalls, and nothing else between the
-- stages has its slot, exe sends it as valid, and from the next cycle on nothing between the stages
-- has it while its entry of the reorder buffer waits for it: it does not complete as long as no
-- taken branch commits. The state is one with the invariants of the states from reset.
pub run-IsLost :
    (c : Pipeline) (i n : ℕ)
    → IsSound c
    → stall_from_mem c ≡ true
    → IsLeaving i c
    → ((k : ℕ) → k ≤ n → flush (run c k).rob ≡ false)
    → (is_of i (exe_to_mem_d c).valid (exe_to_mem_d c).instr ≡ true) × IsLost i (run c (suc n))
unfolding run
run-IsLost c i zero h x l f = (sends c i l, leaving-IsLost c i h (f 0 (omega arith)) x l)
run-IsLost c i (suc n) h x l f =
    let (s, t) = run-IsLost c i n h x l (λ k p. f k (omega arith)) in
    (
      s,
      pipeline_step-IsLost (run c (suc n)) i (run-IsSound c h (suc n)) (f (suc n) (omega arith)) t,
    )
