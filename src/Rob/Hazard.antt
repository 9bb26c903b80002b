-- ===== src/Rob/Hazard.antt =====
-- rtl/datapath/wb/rob.sv: the hazard search against a search of the queue.
use mathlib.Core.Option
use tartaruga.Base.{
  Bool, false, ◌&&◌, ◌==◌, ℕ, zero, suc, ◌+◌, ◌%◌, ◌<◌, ◌≤◌, ◌≡◌, ap, if◌then◌else◌, List, length,
  get_or, arith, Option, none, some, refl,
}
use tartaruga.Rob.{Rob, Entry, empty_entry, scan, hazard}
use tartaruga.Rob.Ring.{Holds, valid_slot}

-- The instruction writes the register, and that is not x0.
abbrev pub writes : ℕ → Entry → Bool
writes rs e = if rs == 0 then false else e.write_enable && e.addr_rd == rs

-- The last position below `n` whose instruction writes `rs`.
unfoldable pub newest_writer : List Entry → ℕ → ℕ → Option ℕ
newest_writer q rs zero = none
newest_writer q rs (suc n) =
    if writes rs (get_or q n empty_entry) then some n else newest_writer q rs n

module _ {r : Rob} {q : List Entry} (h : Holds r q) (rs : ℕ) where
  abbrev pub slot_of : ℕ → ℕ
  slot_of k = (r.head + k) % 16

  -- Past the oldest instruction the slots are free.
  scan_free :
      (left p i : ℕ)
      → i ≡ (r.head + p) % 16
      → p < 16
      → length q + left ≤ p + 1
      → scan r.entries rs left i ≡ none
  unfolding scan
  scan_free zero p i e a b = refl
  scan_free (suc left) zero i e a b =
      ground (arith, valid_slot h 0, ap r.entries e, scan_free left 15 ((i + 15) % 16))
  scan_free (suc left) (suc p) i e a b =
      ground (arith, valid_slot h (suc p), ap r.entries e, scan_free left p ((i + 15) % 16))

  scan_from :
      (n left i : ℕ)
      → n ≤ length q
      → left + length q ≡ 15 + n
      → i ≡ (r.head + n + 15) % 16
      → scan r.entries rs left i ≡ Option.map slot_of (newest_writer q rs n)
  unfolding scan newest_writer
  scan_from zero left i a b e =
      let j : i ≡ (r.head + 15) % 16 = omega arith in
      scan_free left 15 i j (omega arith) (omega arith)
  scan_from (suc n) zero i a b e = absurd (omega (arith, h.size))
  scan_from (suc n) (suc left) i a b e =
      let j : i ≡ (r.head + n) % 16 = omega arith in
      ground (arith, h.slots n, valid_slot h n, ap r.entries j, scan_from n left ((i + 15) % 16))

  -- When the ring holds a queue, the hazard outputs name the slot of the newest instruction of the
  -- queue that writes the register looked up, and report no hazard when there is none or the
  -- register is x0.
  pub hazard-newest : hazard r rs ≡ Option.map slot_of (newest_writer q rs (length q))
  unfolding hazard
  hazard-newest =
      scan_from (length q) 15 _ (omega arith) (omega arith) (omega (arith, h.tail_at, h.head_in))
