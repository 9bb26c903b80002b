-- ===== src/StoreBuffer/Bypass.antt =====
-- rtl/datapath/mem/store_buffer.sv: the bypass search against a search of the queue.
use tartaruga.Base.{
  ℕ, zero, suc, ◌+◌, ◌-◌, ◌%◌, ◌<◌, ◌≤◌, ◌≡◌, ◌==◌, ap, if◌then◌else◌, List, length, get_or, arith,
  ◌⊎◌, inl, inr, ◌≢◌, Option, none, some, refl, min,
}
use tartaruga.StoreBuffer.{StoreBuffer, Store, empty_store, search_from, bypass}
use tartaruga.StoreBuffer.Refines.{Holds}

-- The data of the newest store to an address among the `n` stores from position `lo` on.
unfoldable pub newest : List Store → ℕ → ℕ → ℕ → Option ℕ
newest q a lo zero = none
newest q a lo (suc n) =
    if (get_or q (lo + n) empty_store).addr == a
    then some (get_or q (lo + n) empty_store).st_data
    else newest q a lo n

module _ {s : StoreBuffer} {q : List Store} (h : Holds s q) (a : ℕ) where
  -- Free slots are passed over; at most three rounds are left.
  search_free :
      (left p i : ℕ)
      → i ≡ (s.head + p) % 4
      → p < 4
      → length q + left ≤ p + 1
      → search_from s.entries a left i ≡ none
  unfolding search_from
  search_free zero p i e b c = refl
  search_free (suc left) zero i e b c =
      ground (arith, h.flags 0, ap s.entries e, search_free left 3 ((i + 3) % 4))
  search_free (suc left) (suc p) i e b c =
      ground (arith, h.flags (suc p), ap s.entries e, search_free left p ((i + 3) % 4))

  -- The rounds that meet waiting stores, then those that do not.
  search_used :
      (n left lo i : ℕ)
      → lo + n ≤ length q
      → i ≡ (s.head + lo + n + 3) % 4
      → n ≤ left
      → (left ≡ n) ⊎ ((lo ≡ 0) × (left + length q ≤ 4 + n))
      → search_from s.entries a left i ≡ newest q a lo n
  unfolding search_from newest
  search_used zero zero lo i b e g f = refl
  search_used zero (suc left) lo i b e g (inl f) = absurd (omega arith)
  search_used zero (suc left) lo i b e g (inr f) =
      let j : i ≡ (s.head + 3) % 4 = omega arith in
      search_free (suc left) 3 i j (omega arith) (omega arith)
  search_used (suc n) zero lo i b e g f = absurd (omega arith)
  search_used (suc n) (suc left) lo i b e g f =
      let j : i ≡ (s.head + (lo + n)) % 4 = omega arith in
      let f' : (left ≡ n) ⊎ ((lo ≡ 0) × (left + length q ≤ 4 + n)) = omega arith in
      ground (
        arith,
        h.slots (lo + n),
        h.flags (lo + n),
        h.size,
        ap s.entries j,
        search_used n left lo ((i + 3) % 4),
      )

  -- When the ring holds a queue of stores, a load is served by the newest of the last three of them
  -- that has its address, whether committed, discarded or neither; with none among those three
  -- there is no bypass.
  pub bypass-newest : bypass s a ≡ newest q a (length q - 3) (min 3 (length q))
  unfolding bypass
  bypass-newest =
      search_used (min 3 (length q)) 3 (length q - 3) _ (omega arith)
        (omega (arith, h.tail_at, h.head_in)) (omega arith) (omega (arith, h.size))

  -- When 4 stores wait, a load of the address that only the oldest of them writes is not served by
  -- the store buffer, although a search of the whole queue finds that store.
  pub bypass-full_oldest :
      length q ≡ 4
      → (get_or q 0 empty_store).addr ≡ a
      → ((k : ℕ) → 0 < k → k < 4 → (get_or q k empty_store).addr ≢ a)
      → (newest q a 0 4 ≡ some (get_or q 0 empty_store).st_data) × (bypass s a ≡ none)
  unfolding newest
  bypass-full_oldest e o n = ground (
    arith,
    bypass-newest,
    n 1 (omega arith) (omega arith),
    n 2 (omega arith) (omega arith),
    n 3 (omega arith) (omega arith),
  )
