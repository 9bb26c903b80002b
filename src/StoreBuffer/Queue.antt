-- ===== src/StoreBuffer/Queue.antt =====
-- The abstract view of rtl/datapath/mem/store_buffer.sv: a queue of stores, oldest first.
use tartaruga.Base.{
  ℕ, Bool, ◌&&◌, ◌+◌, ◌%◌, ltb, if◌then◌else◌, List, [], ◌∷◌, ◌++◌, get_or, drop, length, suc, zero,
  ◌<◌, ◌≡◌, true, false, ◌==◌, arith, ap, refl, ◌∙◌,
}
use tartaruga.StoreBuffer.{Store, Inputs, empty_store}

abbrev pub first : List Store → Store
first q = get_or q 0 empty_store

-- The oldest store is offered to the cache.
abbrev pub offered : List Store → Bool
offered q = ltb 0 (length q) && (first q).committed

abbrev pub goes : List Store → Inputs → Bool
goes q x = if offered q then x.rsp_ready else ltb 0 (length q) && (first q).discarded

-- A store as it arrives, neither committed nor discarded.
abbrev pub arriving : Inputs → Store
arriving x = record {
  st_data = x.data_i;
  addr = x.addr_i;
  valid = true;
  committed = false;
  discarded = false;
}

-- The store of a slot after the signals: a commit names one slot, a discard any of them.
unfoldable pub signalled : Inputs → ℕ → Store → Store
signalled x slot e = record {
  st_data = e.st_data;
  addr = e.addr;
  valid = e.valid;
  committed = if x.commit && x.idx_commit == slot then true else e.committed;
  discarded = if x.discard slot then true else e.discarded;
}

-- The commit and discard signals reach the stores by their slots, `slot` being that of the first.
abbrev pub marked : Inputs → ℕ → List Store → List Store
marked x slot [] = []
marked x slot (e ∷ q) = signalled x (slot % 4) e ∷ marked x (suc slot) q

-- A cycle: a new store joins if there is room, the signals are taken, the oldest may leave.
abbrev pub queue_step : ℕ → List Store → Inputs → List Store
queue_step slot q x =
    let all =
      marked x slot (q ++ (if x.req_valid && ltb (length q) 4 then arriving x ∷ [] else [])) in
    if goes q x then drop 1 all else all

pub length-marked : (x : Inputs) (slot : ℕ) (q : List Store) → length (marked x slot q) ≡ length q
length-marked x slot [] = refl
length-marked x slot (e ∷ q) = ap suc (length-marked x (suc slot) q)

pub get_or-marked :
    (x : Inputs) (slot k : ℕ) (q : List Store)
    → k < length q
    → get_or (marked x slot q) k empty_store ≡ signalled x ((slot + k) % 4) (get_or q k empty_store)
get_or-marked x slot k [] h = absurd (omega arith)
get_or-marked x slot zero (e ∷ q) h =
    let c : slot % 4 ≡ (slot + 0) % 4 = omega arith in ap (λ (i : ℕ). signalled x i e) c
get_or-marked x slot (suc k) (e ∷ q) h =
    let c : (suc slot + k) % 4 ≡ (slot + suc k) % 4 = omega arith in
    get_or-marked x (suc slot) k q (omega arith)
    ∙ ap (λ (i : ℕ). signalled x i (get_or q k empty_store)) c
