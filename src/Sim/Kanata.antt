-- ===== src/Sim/Kanata.antt =====
-- simulator/kanata.cpp: the log of the stages that each instruction goes through. `print_kanata`
-- takes the map of stages to the next one and gives the lines that it writes to the log file.
pub mod Laws
use tartaruga.Base.{
  ℕ, zero, suc, Bool, true, false, ◌&&◌, ◌||◌, not, ◌==◌, if◌then◌else◌, List, [], ◌∷◌, ◌++◌,
  Option, none, some,
}

-- Kanata_Stages
pub data Stage : Type 0 where
  fetch decode execute memory writeback commit no_stage : Stage

unfoldable pub is_stage : Stage → Stage → Bool
is_stage fetch fetch = true
is_stage decode decode = true
is_stage execute execute = true
is_stage memory memory = true
is_stage writeback writeback = true
is_stage commit commit = true
is_stage no_stage no_stage = true
is_stage _ _ = false

-- instruction_stage: a missing id has no entry.
abbrev pub StageMap : Type 0
StageMap = ℕ → Option Stage

-- A line of the log: an instruction enters the log, a stage starts or ends, the label of pc and
-- instruction, and the end of the instruction, retired (0) or flushed (1). `ends` has no letter for
-- the stages that the `switch` leaves out.
pub data Line : Type 0 where
  enters : ℕ → Line
  starts : ℕ → Stage → Line
  ends : ℕ → Stage → Line
  label : ℕ → ℕ → ℕ → Line
  retires : ℕ → Bool → Line

-- The arguments of `print_kanata`.
pub record Signals : Type 0 where
  pub valid_decode : Bool
  pub valid_execute : Bool
  pub valid_memory : Bool
  pub valid_writeback : Bool
  pub valid_commit : Bool
  pub id_fetch : ℕ
  pub id_decode : ℕ
  pub id_execute : ℕ
  pub id_memory : ℕ
  pub id_writeback : ℕ
  pub id_commit : ℕ
  pub pc_decode : ℕ
  pub instr_decode : ℕ

-- prev_curr_fetch and the others: NONE for a missing id.
unfoldable pub stage_or_none : Option Stage → Stage
stage_or_none none = no_stage
stage_or_none (some s) = s

unfoldable pub stage_of : StageMap → ℕ → Stage
stage_of m id = stage_or_none (m id)

abbrev pub assign : StageMap → ℕ → Stage → StageMap
assign m id s i = if i == id then some s else m i

abbrev pub erase : StageMap → ℕ → StageMap
erase m id i = if i == id then none else m i

-- `prev != STAGE && valid && prev != NONE`
unfoldable pub moves : Stage → Stage → Bool → Bool
moves prev s valid = not (is_stage prev s) && valid && not (is_stage prev no_stage)

-- The update of the map for one stage, by the stage that the id had at the start of the call.
unfoldable pub advance : StageMap → ℕ → Stage → Stage → Bool → StageMap
advance m id prev s valid =
    if valid && not (is_stage prev no_stage)
    then assign m id s
    else if is_stage prev no_stage
    then assign m id no_stage
    else m

-- The map after a call with no flush.
unfoldable pub advanced : StageMap → Signals → StageMap
advanced m x =
    let m1 =
      if moves (stage_of m x.id_commit) commit x.valid_commit then erase m x.id_commit else m in
    let m2 = assign m1 x.id_fetch fetch in
    let m3 = advance m2 x.id_decode (stage_of m x.id_decode) decode x.valid_decode in
    let m4 = advance m3 x.id_execute (stage_of m x.id_execute) execute x.valid_execute in
    let m5 = advance m4 x.id_memory (stage_of m x.id_memory) memory x.valid_memory in
    advance m5 x.id_writeback (stage_of m x.id_writeback) writeback x.valid_writeback

abbrev pub lines_if : Bool → List Line → List Line
lines_if b l = if b then l else []

-- The lines of a call with no flush.
unfoldable pub moved_lines : StageMap → Signals → List Line
moved_lines m x =
    lines_if (not (is_stage (stage_of m x.id_fetch) fetch))
      (enters x.id_fetch ∷ starts x.id_fetch fetch ∷ [])
    ++ lines_if (moves (stage_of m x.id_decode) decode x.valid_decode) (
        ends x.id_decode fetch
        ∷ starts x.id_decode decode
        ∷ label x.id_decode x.pc_decode x.instr_decode
        ∷ [])
    ++ lines_if (moves (stage_of m x.id_execute) execute x.valid_execute)
        (ends x.id_execute decode ∷ starts x.id_execute execute ∷ [])
    ++ lines_if (moves (stage_of m x.id_memory) memory x.valid_memory)
        (ends x.id_memory execute ∷ starts x.id_memory memory ∷ [])
    ++ lines_if (moves (stage_of m x.id_writeback) writeback x.valid_writeback)
        (ends x.id_writeback memory ∷ starts x.id_writeback writeback ∷ [])
    ++ lines_if (moves (stage_of m x.id_commit) commit x.valid_commit)
        (ends x.id_commit writeback ∷ retires x.id_commit false ∷ [])

-- The lines of a flush for one id, by its entry in the map.
unfoldable pub flushed_lines : ℕ → ℕ → Option Stage → List Line
unfolding is_stage
flushed_lines id_commit id none = []
flushed_lines id_commit id (some s) =
    if not (is_stage s commit)
      && not (is_stage s no_stage)
      && not (is_stage s writeback && id == id_commit)
    then ends id s ∷ retires id true ∷ []
    else if is_stage s writeback && id == id_commit
    then ends id writeback ∷ retires id false ∷ []
    else if is_stage s no_stage
    then retires id true ∷ []
    else []

-- The loop of a flush over the ids from `id` on, with `left` of them to go; the map iterates in
-- the order of the ids.
unfoldable pub flush_from : StageMap → ℕ → ℕ → ℕ → List Line
flush_from m id_commit id zero = []
flush_from m id_commit id (suc left) =
    flushed_lines id_commit id (m id) ++ flush_from m id_commit (suc id) left

-- The next map and the lines written, without the clock line that each call writes first; `bound` is
-- above all ids.
unfoldable pub print_kanata : ℕ → StageMap → Signals → Bool → StageMap × List Line
print_kanata bound m x true = (λ i. none, flush_from m x.id_commit 0 bound)
print_kanata bound m x false = (advanced m x, moved_lines m x)
