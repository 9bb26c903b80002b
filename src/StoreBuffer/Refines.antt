-- ===== src/StoreBuffer/Refines.antt =====
-- rtl/datapath/mem/store_buffer.sv: a clock cycle of the ring against a step of the queue.
use native.Mathlib.Decide.{ℕ_discrete}
use tartaruga.Base.{
  ℕ, false, ◌&&◌, not, ◌+◌, ◌%◌, ◌<◌, ◌≤◌, ◌≡◌, ◌==◌, if◌then◌else◌, List, [], ◌∷◌, ◌++◌, length,
  get_or, ltb, arith, Bool-cases, inl, inr, ap, ◌∙◌, suc, sym, some, none,
}
use tartaruga.Base.{
  length-append, length-drop, get_or-append_left, get_or-append_last, get_or-drop_one,
}
use tartaruga.StoreBuffer.{
  StoreBuffer, Store, Inputs, empty_store, mark, accepts, accept, leaves, release, sb_step,
  req_ready, rsp_valid, sb_out,
}
use tartaruga.StoreBuffer.Queue.{
  first, offered, goes, arriving, signalled, marked, queue_step, length-marked, get_or-marked,
}

-- The ring holds the queue: store `k` of the queue is `k` slots after the head, and just those slots
-- are valid.
pub record Holds (s : StoreBuffer) (q : List Store) : Type 0 where
  pub head_in : s.head < 4
  pub size : length q ≤ 4
  pub tail_at : s.tail ≡ (s.head + length q) % 4
  pub slots : (k : ℕ) → k < length q → s.entries ((s.head + k) % 4) ≡ get_or q k empty_store
  pub flags : (k : ℕ) → k < 4 → (s.entries ((s.head + k) % 4)).valid ≡ ltb k (length q)

module _ {s : StoreBuffer} {q : List Store} (h : Holds s q) where
  head_slot : 0 < length q → s.entries s.head ≡ first q
  head_slot p =
      let e : (s.head + 0) % 4 ≡ s.head = omega (arith, h.head_in) in
      ground (arith, h.slots 0, ap s.entries e)

  head_valid : (s.entries s.head).valid ≡ ltb 0 (length q)
  head_valid =
      let e : (s.head + 0) % 4 ≡ s.head = omega (arith, h.head_in) in
      ground (arith, h.flags 0, ap s.entries e)

  -- When the ring holds a queue of stores, the store buffer takes a new store exactly when fewer
  -- than 4 wait.
  req_ready-Holds : req_ready s ≡ ltb (length q) 4
  unfolding req_ready
  req_ready-Holds = ground (arith, head_valid, h.head_in, h.tail_at, h.size)

  pub rsp_valid-Holds : rsp_valid s ≡ offered q
  unfolding rsp_valid
  rsp_valid-Holds = ground (arith, head_valid, head_slot)

  -- When the ring holds a queue of stores, the address and the data of the oldest store are offered
  -- to the cache exactly when that store is committed.
  sb_out-Holds : sb_out s ≡ (if offered q then some ((first q).addr, (first q).st_data) else none)
  unfolding sb_out
  sb_out-Holds = ground (arith, rsp_valid-Holds, head_slot)

  leaves-Holds : (x : Inputs) → leaves s x ≡ goes q x
  unfolding leaves
  leaves-Holds x = ground (arith, rsp_valid-Holds, head_valid, head_slot)

mark-signalled : (x : Inputs) (i : ℕ) (e : Store) → mark x i e ≡ signalled x i e
unfolding mark signalled
mark-signalled x i e = ground arith

module _ {s : StoreBuffer} {q : List Store} (h : Holds s q) (x : Inputs) where
  abbrev joined : List Store
  joined = q ++ (if x.req_valid && ltb (length q) 4 then arriving x ∷ [] else [])

  abbrev gone : ℕ
  gone = if goes q x then 1 else 0

  abbrev after : List Store
  after = queue_step s.head q x

  length-joined : length joined ≡ length q + (if accepts s x then 1 else 0)
  unfolding accepts
  length-joined =
      ground (arith, req_ready-Holds h, length-append q (arriving x ∷ []), length-append q [])

  length-after : length after + gone ≡ length q + (if accepts s x then 1 else 0)
  length-after =
      ground (
        arith,
        length-marked x s.head joined,
        length-drop 1 (marked x s.head joined),
        length-joined,
      )

  accepts-Holds : accepts s x ≡ (x.req_valid && ltb (length q) 4)
  unfolding accepts
  accepts-Holds = ground (arith, req_ready-Holds h)

  -- Slot `m` before the signals.
  accept_slot :
      (m : ℕ)
      → m < 4
      → accept s x ((s.head + m) % 4)
        ≡ (if accepts s x && m == length q then arriving x else s.entries ((s.head + m) % 4))
  unfolding accept
  accept_slot m p =
      let t : (s.tail == (s.head + m) % 4) ≡ (m == length q % 4) =
        ground (arith, h.head_in, h.tail_at, h.size) in
      ground (arith, accepts-Holds)

  get_or-joined :
      (m : ℕ)
      → m < length joined
      → get_or joined m empty_store
        ≡ (if accepts s x && m == length q then arriving x else get_or q m empty_store)
  get_or-joined m p = ground (
    arith,
    accepts-Holds,
    length-joined,
    get_or-append_left q (arriving x ∷ []) m empty_store,
    get_or-append_left q [] m empty_store,
    get_or-append_last q (arriving x) empty_store,
    λ (e : m ≡ length q). ap (λ (i : ℕ). get_or (q ++ (arriving x ∷ [])) i empty_store) e,
  )

  -- What slot `m` holds at the end of the cycle.
  release_slot :
      (m : ℕ)
      → m < 4
      → let e = accept s x ((s.head + m) % 4) in
        release s x (accept s x) ((s.head + m) % 4)
        ≡ (if goes q x && m == 0 then record e { valid = false } else e)
  unfolding release
  release_slot m p =
      let t : (s.head == (s.head + m) % 4) ≡ (m == 0) = ground (arith, h.head_in) in
      elim (ℕ_discrete s.head ((s.head + m) % 4)) [
        | yes e ↦ ground (arith, leaves-Holds h x, ap (accept s x) e)
        | no ne ↦ ground (arith, leaves-Holds h x)
      ]

  gone-le : (gone ≤ 1) × (gone ≤ length q)
  gone-le = ground arith

  get_or-after :
      (k : ℕ) → get_or after k empty_store ≡ get_or (marked x s.head joined) (k + gone) empty_store
  get_or-after k = elim (Bool-cases (goes q x)) [
    | inl b ↦ rw b (
        let e : suc k ≡ k + 1 = omega arith in
        get_or-drop_one (marked x s.head joined) k empty_store
        ∙ ap (λ (i : ℕ). get_or (marked x s.head joined) i empty_store) e)
    | inr b ↦ rw b (
        let e : k ≡ k + 0 = omega arith in
        ap (λ (i : ℕ). get_or (marked x s.head joined) i empty_store) e)
  ]

  pointers_after :
      ((sb_step s x).head ≡ (s.head + gone) % 4)
      × ((sb_step s x).tail ≡ (s.tail + (if accepts s x then 1 else 0)) % 4)
  unfolding sb_step
  pointers_after = ground (arith, leaves-Holds h x, h.head_in, h.tail_at)

  entry_after :
      (m : ℕ)
      → m < 4
      → gone ≤ m
      → m < length joined
      → (sb_step s x).entries ((s.head + m) % 4) ≡ get_or (marked x s.head joined) m empty_store
  unfolding sb_step
  entry_after m p g b =
      mark-signalled x ((s.head + m) % 4) (release s x (accept s x) ((s.head + m) % 4))
      ∙ ap (signalled x ((s.head + m) % 4)) (
          ground
            (arith, release_slot m p, accept_slot m p, get_or-joined m b, h.slots m, length-joined))
      ∙ sym (get_or-marked x s.head m joined b)

  valid_after :
      (m : ℕ)
      → m < 4
      → ((sb_step s x).entries ((s.head + m) % 4)).valid
        ≡ (ltb m (length joined) && not (goes q x && m == 0))
  unfolding sb_step mark
  valid_after m p =
      ground (arith, release_slot m p, accept_slot m p, h.flags m p, length-joined, accepts-Holds)

  slots_after :
      (k : ℕ)
      → k < length after
      → (sb_step s x).entries (((sb_step s x).head + k) % 4) ≡ get_or after k empty_store
  slots_after k p =
      let j : ((sb_step s x).head + k) % 4 ≡ (s.head + (k + gone)) % 4 =
        omega (arith, pointers_after) in
      let b : k + gone < length joined = omega (arith, length-after, length-joined) in
      let c : k + gone < 4 = ground (arith, b, length-joined, accepts-Holds, h.size) in
      ap (sb_step s x).entries j ∙ entry_after (k + gone) c (omega arith) b ∙ sym (get_or-after k)

  flags_after :
      (k : ℕ)
      → k < 4
      → ((sb_step s x).entries (((sb_step s x).head + k) % 4)).valid ≡ ltb k (length after)
  flags_after k p =
      let j : ((sb_step s x).head + k) % 4 ≡ (s.head + (k + gone) % 4) % 4 =
        omega (arith, pointers_after) in
      let e = ap (sb_step s x).entries j in
      ground
        (arith, e, valid_after ((k + gone) % 4), length-after, length-joined, accepts-Holds, h.size)

-- A clock cycle keeps the store buffer in step with a queue of at most 4 stores: a new store joins
-- at the end if fewer than 4 wait, the commit and discard signals reach the stores of the named
-- slots, and the oldest leaves when it is committed and the cache takes it, or when it is discarded
-- and not committed.
pub sb_step-Holds :
    {s : StoreBuffer} {q : List Store} (x : Inputs)
    → Holds s q
    → Holds (sb_step s x) (queue_step s.head q x)
sb_step-Holds {s} {q} x h = record {
  head_in = omega (arith, pointers_after h x);
  size = ground (arith, length-after h x, accepts-Holds h x, h.size);
  tail_at = omega (arith, pointers_after h x, length-after h x, h.tail_at, h.head_in, gone-le h x);
  slots = slots_after h x;
  flags = flags_after h x;
}
