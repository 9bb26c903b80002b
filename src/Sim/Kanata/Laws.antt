-- ===== src/Sim/Kanata/Laws.antt =====
-- simulator/kanata.cpp: the stages that the map holds, and the end of each instruction in the log.
use tartaruga.Base.{
  ℕ, zero, suc, Bool, true, false, ◌&&◌, ◌==◌, ◌<◌, ◌+◌, ◌≡◌, ◌∙◌, ap, ap₂, Option, Bool-cases, inl,
  inr, refl, if◌then◌else◌, ltb, leb, List, [], ◌∷◌, ◌++◌, none, some, arith,
}
use tartaruga.Sim.Kanata.{
  StageMap, Stage, Line, Signals, stage_of, stage_or_none, is_stage, commit, no_stage, advance,
  advanced, assign, erase, print_kanata, flushed_lines, flush_from, enters, starts, ends, label,
  retires, fetch, decode, execute, memory, writeback,
}

-- Whether the map has an entry.
unfoldable pub known : Option Stage → Bool
known none = false
known (some s) = true

-- How many lines end the instruction.
unfoldable pub retirements : List Line → ℕ → ℕ
retirements [] i = 0
retirements (retires j b ∷ l) i = (if j == i then 1 else 0) + retirements l i
retirements (enters j ∷ l) i = retirements l i
retirements (starts j s ∷ l) i = retirements l i
retirements (ends j s ∷ l) i = retirements l i
retirements (label j p w ∷ l) i = retirements l i

-- No instruction is in the stage COMMIT.
pub record IsOpen (m : StageMap) : Type 0 where
  pub not_committed : (i : ℕ) → is_stage (stage_of m i) commit ≡ false

if_entry :
    (b : Bool) (o p : Option Stage)
    → is_stage (stage_or_none o) commit ≡ false
    → is_stage (stage_or_none p) commit ≡ false
    → is_stage (stage_or_none (if b then o else p)) commit ≡ false
if_entry true o p h k = h
if_entry false o p h k = k

if_map-IsOpen : (b : Bool) (m n : StageMap) → IsOpen m → IsOpen n → IsOpen (if b then m else n)
if_map-IsOpen true m n h k = h
if_map-IsOpen false m n h k = k

assign-IsOpen :
    (m : StageMap) (id : ℕ) (s : Stage)
    → is_stage s commit ≡ false
    → IsOpen m
    → IsOpen (assign m id s)
unfolding stage_of stage_or_none
assign-IsOpen m id s c h = record {
  not_committed = λ i. if_entry (i == id) (some s) (m i) c (h.not_committed i);
}

erase-IsOpen : (m : StageMap) (id : ℕ) → IsOpen m → IsOpen (erase m id)
unfolding stage_of stage_or_none is_stage
erase-IsOpen m id h = record {
  not_committed = λ i. if_entry (i == id) none (m i) refl (h.not_committed i);
}

advance-IsOpen :
    (m : StageMap) (id : ℕ) (prev s : Stage) (valid : Bool)
    → is_stage s commit ≡ false
    → IsOpen m
    → IsOpen (advance m id prev s valid)
unfolding advance is_stage
advance-IsOpen m id prev s valid c h =
    if_map-IsOpen _ _ _ (assign-IsOpen m id s c h)
      (if_map-IsOpen _ _ _ (assign-IsOpen m id no_stage refl h) h)

-- No call puts an instruction into the stage COMMIT.
print_kanata-IsOpen :
    (bound : ℕ) (m : StageMap) (x : Signals) (flush : Bool)
    → IsOpen m
    → IsOpen (print_kanata bound m x flush).0
unfolding print_kanata advanced stage_of stage_or_none is_stage
print_kanata-IsOpen bound m x true h = record { not_committed = λ i. refl }
print_kanata-IsOpen bound m x false h = advance-IsOpen _ _ _ _ _ refl (
    advance-IsOpen _ _ _ _ _ refl (
      advance-IsOpen _ _ _ _ _ refl (
        advance-IsOpen _ _ _ _ _ refl
          (assign-IsOpen _ _ _ refl (if_map-IsOpen _ _ _ (erase-IsOpen _ _ h) h)))))

retirements-append :
    (k l : List Line) (i : ℕ) → retirements (k ++ l) i ≡ retirements k i + retirements l i
unfolding retirements
retirements-append [] l i = omega arith
retirements-append (retires j b ∷ k) l i = omega (arith, retirements-append k l i)
retirements-append (enters j ∷ k) l i = retirements-append k l i
retirements-append (starts j s ∷ k) l i = retirements-append k l i
retirements-append (ends j s ∷ k) l i = retirements-append k l i
retirements-append (label j p w ∷ k) l i = retirements-append k l i

flushed_once :
    (c j i : ℕ) (o : Option Stage)
    → is_stage (stage_or_none o) commit ≡ false
    → retirements (flushed_lines c j o) i ≡ (if j == i && known o then 1 else 0)
unfolding retirements flushed_lines known stage_or_none is_stage
flushed_once c j i none h = ground arith
flushed_once c j i (some fetch) h = ground arith
flushed_once c j i (some decode) h = ground arith
flushed_once c j i (some execute) h = ground arith
flushed_once c j i (some memory) h = ground arith
flushed_once c j i (some writeback) h = elim (Bool-cases (j == c)) [
  | inl e ↦ rw e (ground arith)
  | inr e ↦ rw e (ground arith)
]
flushed_once c j i (some commit) h = absurd (ground arith)
flushed_once c j i (some no_stage) h = ground arith

add_ranges :
    (p : ℕ → Bool) (j left i : ℕ)
    → (if j == i && p j then 1 else 0)
        + (if leb (suc j) i && ltb i (suc j + left) && p i then 1 else 0)
      ≡ (if leb j i && ltb i (j + suc left) && p i then 1 else 0)
add_ranges p j left i = elim (Bool-cases (j == i)) [
  | inl e ↦ let d : j ≡ i = ground arith in ground (arith, ap p d)
  | inr e ↦ ground arith
]

flush_from-retirements :
    (m : StageMap) (c left j i : ℕ)
    → IsOpen m
    → retirements (flush_from m c j left) i
      ≡ (if leb j i && ltb i (j + left) && known (m i) then 1 else 0)
unfolding flush_from retirements stage_of
flush_from-retirements m c zero j i h = ground arith
flush_from-retirements m c (suc left) j i h =
    retirements-append (flushed_lines c j (m j)) (flush_from m c (suc j) left) i
    ∙ ap₂ (λ a b. a + b) (flushed_once c j i (m j) (h.not_committed j))
        (flush_from-retirements m c left (suc j) i h)
    ∙ add_ranges (λ k. known (m k)) j left i

-- A flush ends each instruction of the stage map exactly once in the log, and no other id below the
-- bound, when the map has no instruction in the stage COMMIT.
pub print_kanata-retirements :
    (bound : ℕ) (m : StageMap) (x : Signals) (i : ℕ)
    → IsOpen m
    → i < bound
    → retirements (print_kanata bound m x true).1 i ≡ (if known (m i) then 1 else 0)
unfolding print_kanata
print_kanata-retirements bound m x i h p =
    ground (arith, flush_from-retirements m x.id_commit bound 0 i h)
