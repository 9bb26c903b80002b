-- ===== src/Rob/Refines.antt =====
-- rtl/datapath/wb/rob.sv: a clock cycle of the ring against a step of the queue.
use native.Mathlib.Decide.{ℕ_discrete}
use tartaruga.Base.{ℕ, suc, ◌∙◌, refl}
use tartaruga.Base.{
  ℕ, true, false, ◌&&◌, ◌+◌, ◌%◌, ◌<◌, ◌≤◌, ◌≡◌, ◌==◌, if◌then◌else◌, List, [], ◌∷◌, ◌++◌, length,
  get_or, set, drop, ltb, arith, Bool-cases, inl, inr, ap,
}
use tartaruga.Base.{
  length-append, length-set, length-drop, get_or-set_self, get_or-set_ne, get_or-append_left,
  get_or-append_last, get_or-drop_one,
}
use tartaruga.Rob.{
  Rob, Entry, Inputs, empty_entry, rob_full, updated, rob_step, completion, allocated, alloc,
  write_back,
}
use tartaruga.Rob.Queue.{position, first, ready, finished, decoded, queue_step, record_result}
use tartaruga.Rob.Ring.{Holds, valid_slot, commit_valid-Holds, flush-Holds, rob_full-Holds}

completion-finished : (x : Inputs) (e : Entry) → completion x e ≡ finished x e
unfolding completion finished
completion-finished x e = refl

allocated-decoded : (x : Inputs) (e : Entry) → allocated x e ≡ decoded x e
unfolding allocated decoded
allocated-decoded x e = refl

module _ (x : Inputs) (len k : ℕ) where
  -- What write-back and decode make of the entry in slot `k` after the head.
  abbrev filled : ℕ → Entry → Entry
  filled kc e =
      if x.valid_wb && (ltb k len && k == kc)
      then finished x e
      else if x.valid_decode && k == len
      then decoded x e
      else e

module _ (x : Inputs) (kc : ℕ) (q : List Entry) where
  length-record_result : length (record_result x kc q) ≡ length q
  length-record_result = ground (arith, length-set q kc (finished x (get_or q kc empty_entry)))

  get_or-record_result :
      (j : ℕ)
      → j < length q
      → get_or (record_result x kc q) j empty_entry ≡ (
          if x.valid_wb && (ltb kc (length q) && j == kc)
          then finished x (get_or q j empty_entry)
          else get_or q j empty_entry)
  get_or-record_result j p = elim (ℕ_discrete kc j) [
    | yes e ↦ ground (
      arith,
      ap (λ (i : ℕ). get_or q i empty_entry) e,
      ap (λ (i : ℕ). get_or (set q i (finished x (get_or q i empty_entry))) j empty_entry) e,
      get_or-set_self q j (finished x (get_or q j empty_entry)) empty_entry,
    )
    | no ne ↦
        ground (arith, get_or-set_ne q kc j (finished x (get_or q kc empty_entry)) empty_entry)
  ]

  -- What the queue keeps of the old entries.
  abbrev kept : List Entry
  kept = if ready q then drop 1 (record_result x kc q) else record_result x kc q

  abbrev gone : ℕ
  gone = if ready q then 1 else 0

  length-kept : length kept + gone ≡ length q
  length-kept = ground (arith, length-record_result, length-drop 1 (record_result x kc q))

  get_or-kept :
      (j : ℕ)
      → j < length kept
      → get_or kept j empty_entry ≡ get_or (record_result x kc q) (j + gone) empty_entry
  get_or-kept j p = elim (Bool-cases (ready q)) [
    | inl b ↦ rw b (
        let e : suc j ≡ j + 1 = omega arith in
        get_or-drop_one (record_result x kc q) j empty_entry
        ∙ ap (λ (i : ℕ). get_or (record_result x kc q) i empty_entry) e)
    | inr b ↦ rw b (
        let e : j ≡ j + 0 = omega arith in
        ap (λ (i : ℕ). get_or (record_result x kc q) i empty_entry) e)
  ]

  length-queue_step :
      (fresh : Entry)
      → (ready q && (first q).branch_taken) ≡ false
      → length (queue_step q x kc fresh) + gone ≡ length q + (if x.valid_decode then 1 else 0)
  length-queue_step fresh f =
      ground (arith, length-kept, length-append kept (decoded x fresh ∷ []), length-append kept [])

  get_or-queue_step :
      (fresh : Entry) (j : ℕ)
      → (ready q && (first q).branch_taken) ≡ false
      → j < length (queue_step q x kc fresh)
      → get_or (queue_step q x kc fresh) j empty_entry ≡ (
          if ltb (j + gone) (length q)
          then get_or (record_result x kc q) (j + gone) empty_entry
          else decoded x fresh)
  get_or-queue_step fresh j f p = ground (
    arith,
    length-queue_step fresh f,
    length-kept,
    get_or-kept j,
    get_or-append_left kept (decoded x fresh ∷ []) j empty_entry,
    get_or-append_left kept [] j empty_entry,
    get_or-append_last kept (decoded x fresh) empty_entry,
    λ (e : j ≡ length kept).
        ap (λ (i : ℕ). get_or (kept ++ (decoded x fresh ∷ [])) i empty_entry) e,
  )

module _ {r : Rob} {q : List Entry} (h : Holds r q) (x : Inputs) (c : x.rob_entry_commit < 16) where
  at_tail : (k : ℕ) → k < 16 → (r.tail == (r.head + k) % 16) ≡ (k == length q)
  at_tail k p = ground (arith, h.head_in, h.tail_at, h.size)

  at_commit :
      (k : ℕ)
      → k < 16
      → (x.rob_entry_commit == (r.head + k) % 16) ≡ (k == position r.head x.rob_entry_commit)
  at_commit k p = ground (arith, h.head_in)

  alloc_slot :
      (k : ℕ)
      → k < 16
      → let e = r.entries ((r.head + k) % 16) in
        alloc r x ((r.head + k) % 16) ≡ (if x.valid_decode && k == length q then decoded x e else e)
  unfolding alloc
  alloc_slot k p = elim (ℕ_discrete r.tail ((r.head + k) % 16)) [
    | yes e ↦ ground (arith, at_tail k p, ap r.entries e, allocated-decoded x (r.entries r.tail))
    | no ne ↦ ground (arith, at_tail k p)
  ]

  write_back_slot :
      (k : ℕ)
      → k < 16
      → write_back r x (alloc r x) ((r.head + k) % 16)
        ≡ filled x (length q) k (position r.head x.rob_entry_commit) (r.entries ((r.head + k) % 16))
  unfolding write_back
  write_back_slot k p = elim (ℕ_discrete x.rob_entry_commit ((r.head + k) % 16)) [
    | yes e ↦ ground (
      arith,
      at_commit k p,
      alloc_slot k p,
      ap (alloc r x) e,
      ap r.entries e,
      valid_slot h k p,
      completion-finished x (alloc r x x.rob_entry_commit),
    )
    | no ne ↦ ground (arith, at_commit k p, alloc_slot k p)
  ]

  at_head : (k : ℕ) → k < 16 → (r.head == (r.head + k) % 16) ≡ (k == 0)
  at_head k p = ground (arith, h.head_in)

  -- The entry in each slot after the cycle, before the flush.
  updated_slot :
      (k : ℕ)
      → k < 16
      → let e =
          filled x
            (length q)
            k
            (position r.head x.rob_entry_commit)
            (r.entries ((r.head + k) % 16)) in
        updated r x ((r.head + k) % 16)
        ≡ (if ready q && k == 0 then record e { valid = false } else e)
  unfolding updated
  updated_slot k p = elim (ℕ_discrete r.head ((r.head + k) % 16)) [
    | yes e ↦ ground (
      arith,
      at_head k p,
      write_back_slot k p,
      ap (write_back r x (alloc r x)) e,
      commit_valid-Holds h,
    )
    | no ne ↦ ground (arith, at_head k p, write_back_slot k p, commit_valid-Holds h)
  ]

flushed :
    {r : Rob} {q : List Entry}
    → Holds r q
    → (x : Inputs) → (ready q && (first q).branch_taken) ≡ true
    → Holds (rob_step r x) []
unfolding rob_step
flushed {r} h x f = rw (flush-Holds h ∙ f) (record {
  head_in = omega arith;
  size = omega arith;
  tail_at = refl;
  slots = λ k p. absurd (omega arith);
  flags = λ i p. ground arith;
})

-- The state after a cycle with no flush.
module _ {r : Rob} {q : List Entry} (h : Holds r q) (x : Inputs) (c : x.rob_entry_commit < 16)
    (room : x.valid_decode ≡ true → rob_full r ≡ false)
    (f : (ready q && (first q).branch_taken) ≡ false) where
  abbrev kc : ℕ
  kc = position r.head x.rob_entry_commit

  abbrev fresh : Entry
  fresh = r.entries r.tail

  abbrev after : List Entry
  after = queue_step q x kc fresh

  entries_after : (rob_step r x).entries ≡ updated r x
  unfolding rob_step
  entries_after = ground (arith, flush-Holds h)

  pointers_after :
      ((rob_step r x).head ≡ (r.head + gone x kc q) % 16)
      × ((rob_step r x).tail ≡ (r.tail + (if x.valid_decode then 1 else 0)) % 16)
  unfolding rob_step
  pointers_after = ground (arith, flush-Holds h, commit_valid-Holds h, h.head_in, h.tail_at)

  size_after : length after ≤ 15
  size_after = ground (arith, length-queue_step x kc q fresh f, rob_full-Holds h, h.size)

  -- The entry that slot `m` after the old head holds in the end.
  slot_old :
      (m : ℕ)
      → m < length q
      → filled x (length q) m kc (r.entries ((r.head + m) % 16))
        ≡ get_or (record_result x kc q) m empty_entry
  slot_old m p = ground (arith, h.slots m, get_or-record_result x kc q m)

  slot_new :
      (m : ℕ)
      → m ≡ length q
      → x.valid_decode ≡ true
      → filled x (length q) m kc (r.entries ((r.head + m) % 16)) ≡ decoded x fresh
  slot_new m p d =
      let e : (r.head + m) % 16 ≡ r.tail = omega (arith, h.tail_at) in
      ground (arith, ap r.entries e)

  slot_index : (k : ℕ) → ((rob_step r x).head + k) % 16 ≡ (r.head + (k + gone x kc q)) % 16
  slot_index k = omega (arith, pointers_after)

  updated_after :
      (m : ℕ)
      → m < 16
      → gone x kc q ≤ m
      → (rob_step r x).entries ((r.head + m) % 16)
        ≡ filled x (length q) m kc (r.entries ((r.head + m) % 16))
  updated_after m p g = rw entries_after (ground (arith, updated_slot h x c m))

  gone-le : gone x kc q ≤ 1
  gone-le = ground arith

  tail_after : (rob_step r x).tail ≡ ((rob_step r x).head + length after) % 16
  tail_after =
      omega (arith, pointers_after, length-queue_step x kc q fresh f, h.tail_at, h.head_in, gone-le)

  slots_after :
      (k : ℕ)
      → k < length after
      → (rob_step r x).entries (((rob_step r x).head + k) % 16) ≡ get_or after k empty_entry
  slots_after k p =
      ap (rob_step r x).entries (slot_index k)
      ∙ updated_after (k + gone x kc q) (omega (arith, gone-le, size_after)) (omega arith)
      ∙ ground (
        arith,
        get_or-queue_step x kc q fresh k f p,
        slot_old (k + gone x kc q),
        slot_new (k + gone x kc q),
        length-queue_step x kc q fresh f,
      )

  filled_valid :
      (m : ℕ)
      → m < 16
      → (filled x (length q) m kc (r.entries ((r.head + m) % 16))).valid
        ≡ ltb m (length q + (if x.valid_decode then 1 else 0))
  unfolding finished decoded
  filled_valid m p = ground (arith, valid_slot h m p)

  flags_after :
      (i : ℕ)
      → i < 16
      → ((rob_step r x).entries i).valid ≡ ltb (position (rob_step r x).head i) (length after)
  flags_after i p =
      let m = position r.head i in
      let e : (r.head + m) % 16 ≡ i = omega (arith, h.head_in) in
      let u = ap (updated r x) e in
      rw entries_after (
        ground (
          arith,
          u,
          updated_slot h x c m,
          filled_valid m,
          pointers_after,
          length-queue_step x kc q fresh f,
          size_after,
          h.head_in,
        ))

-- A clock cycle keeps the reorder buffer in step with a queue of at most 15 instructions, if decode
-- allocates only while the buffer is not full and write-back names a slot below 16: the queue
-- records the result that write-back brings, loses its oldest instruction if that one had
-- completed, gains the one from decode, and is emptied if the one that leaves is a taken branch.
pub rob_step-Holds :
    {r : Rob} {q : List Entry} (x : Inputs)
    → Holds r q
    → x.rob_entry_commit < 16
    → (x.valid_decode ≡ true → rob_full r ≡ false)
    → Holds (rob_step r x) (queue_step q x (position r.head x.rob_entry_commit) (r.entries r.tail))
rob_step-Holds {r} {q} x h c room = elim (Bool-cases (ready q && (first q).branch_taken)) [
  | inl f ↦ rw f (flushed h x f)
  | inr f ↦ record {
    head_in = omega (arith, pointers_after h x c room f);
    size = size_after h x c room f;
    tail_at = tail_after h x c room f;
    slots = slots_after h x c room f;
    flags = flags_after h x c room f;
  }
]
