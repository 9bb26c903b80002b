-- ===== src/Mem/Stage/Loads.antt =====
-- rtl/datapath/mem/mem.sv: what leaves the memory stage.
use tartaruga.Base.{
  ℕ, Bool, true, false, ◌<◌, ◌/◌, ◌≡◌, ◌∙◌, ap, refl, if◌then◌else◌, Option, none, some, arith,
  word_mod, List, length, min, ◌-◌,
}
use tartaruga.Pkg.{ExeToMem, mem}
use tartaruga.Mem.{is_mem, mem_result}
use tartaruga.StoreBuffer.{Store, rsp_valid}
use tartaruga.StoreBuffer.Refines.{Holds}
use tartaruga.StoreBuffer.Bypass.{newest, bypass-newest}
use tartaruga.Dcache.{ready, data_rd}
use tartaruga.Dcache.Coherent.{IsCoherent, data_rd-memory}
use tartaruga.Mem.Stage.{
  MemStage, MemInputs, is_some, some_or_zero, dcache_inputs, dcache_ready, found, is_collision,
  mem_stall, valid_load_bypass, valid_load_dcache, mem_valid, mem_out,
}

-- The value found, or else another.
abbrev pub or_else : Option ℕ → ℕ → ℕ
or_else none c = c
or_else (some v) c = v

or_else-cases :
    (o : Option ℕ) (c m : ℕ)
    → (o ≡ none → c ≡ m)
    → (if is_some o then some_or_zero o else c) ≡ or_else o m
or_else-cases none c m h = h refl
or_else-cases (some v) c m h = refl

mem_result-load :
    (y : ExeToMem) (b : Bool) (v c : ℕ)
    → y.instr.wb_origin ≡ mem
    → mem_result y b v c ≡ (if b then v else c)
unfolding mem_result
mem_result-load y b v c o = rw o refl

-- When the memory stage does not stall, its output is valid exactly when its input is: no
-- instruction is lost and none is made.
pub mem_valid-mem_stall :
    (s : MemStage) (x : MemInputs) → mem_stall s x ≡ false → mem_valid s x ≡ x.exe_to_mem_i.valid
unfolding mem_valid mem_stall valid_load_bypass valid_load_dcache
mem_valid-mem_stall s x h = ground arith

module _ (s : MemStage) {memory : ℕ → ℕ} (h : IsCoherent s.cache memory) (x : MemInputs) where
  load_dcache :
      x.exe_to_mem_i.instr.wb_origin ≡ mem
      → x.exe_to_mem_i.valid ≡ true
      → x.exe_to_mem_i.result < word_mod
      → mem_stall s x ≡ false
      → found s x ≡ none
      → data_rd s.cache (dcache_inputs s x) ≡ memory (x.exe_to_mem_i.result / 4)
  unfolding mem_stall is_collision dcache_ready dcache_inputs
  load_dcache o v w p f =
      let l : is_mem x.exe_to_mem_i.instr.wb_origin ≡ true = ap is_mem o in
      let g : is_some (found s x) ≡ false = ap is_some f in
      let e : rsp_valid s.buffer ≡ false = ground arith in
      let r : ready s.cache (dcache_inputs s x) ≡ true = ground arith in
      let a : (dcache_inputs s x).addr ≡ x.exe_to_mem_i.result = ground arith in
      let d = data_rd-memory h (dcache_inputs s x) (omega (arith, a)) r (ground arith) e in
      d ∙ ap (λ i. memory (i / 4)) a

  -- The load gets what the bypass finds, or else the word of memory.
  mem_out-found :
      x.exe_to_mem_i.instr.wb_origin ≡ mem
      → x.exe_to_mem_i.valid ≡ true
      → x.exe_to_mem_i.result < word_mod
      → mem_stall s x ≡ false
      → mem_out s x ≡ or_else (found s x) (memory (x.exe_to_mem_i.result / 4))
  unfolding mem_out valid_load_bypass
  mem_out-found o v w p =
      let l : is_mem x.exe_to_mem_i.instr.wb_origin ≡ true = ap is_mem o in
      let b : valid_load_bypass s x ≡ is_some (found s x) = ground arith in
      let c = data_rd s.cache (dcache_inputs s x) in
      mem_result-load x.exe_to_mem_i (valid_load_bypass s x) (some_or_zero (found s x)) c o
      ∙ ap (λ (t : Bool). if t then some_or_zero (found s x) else c) b
      ∙ or_else-cases (found s x) c (memory (x.exe_to_mem_i.result / 4)) (load_dcache o v w p)

  -- A valid load at a 32-bit address that leaves the memory stage gets the data of the newest of
  -- the last three stores of the buffer's queue that have its address, and with none among those
  -- three the word of memory at its address. The store buffer holds the queue, and the cache agrees
  -- with that memory.
  pub mem_out-load :
      {q : List Store}
      → Holds s.buffer q
      → x.exe_to_mem_i.instr.wb_origin ≡ mem
      → x.exe_to_mem_i.valid ≡ true
      → x.exe_to_mem_i.result < word_mod
      → mem_stall s x ≡ false
      → mem_out s x
        ≡ or_else
            (newest q x.exe_to_mem_i.result (length q - 3) (min 3 (length q)))
            (memory (x.exe_to_mem_i.result / 4))
  unfolding found
  mem_out-load b o v w p =
      mem_out-found o v w p
      ∙ ap (λ (t : Option ℕ). or_else t (memory (x.exe_to_mem_i.result / 4)))
          (bypass-newest b x.exe_to_mem_i.result)
