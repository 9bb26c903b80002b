-- ===== src/Bench/Memcpy.antt =====
-- benchmarks/memcpy/memcpy.c: an array is filled and copied.
use tartaruga.Base.{ℕ, zero, suc, ◌+◌, ◌≡◌, update, if◌then◌else◌, ◌&&◌, leb, ltb, arith}

unfoldable pub fill_loop : ℕ → ℕ → (ℕ → ℕ) → ℕ → ℕ
fill_loop i zero a = a
fill_loop i (suc left) a = fill_loop (i + 1) left (update a i 5)

unfoldable pub copy_loop : (ℕ → ℕ) → ℕ → ℕ → (ℕ → ℕ) → ℕ → ℕ
copy_loop a i zero b = b
copy_loop a i (suc left) b = copy_loop a (i + 1) left (update b i (a i))

-- The arrays `a` and `b` at the end, and the returned value.
unfoldable pub main : (ℕ → ℕ) → (ℕ → ℕ) → (ℕ → ℕ) × (ℕ → ℕ) × ℕ
main a b = let a' = fill_loop 0 256 a in let b' = copy_loop a' 0 256 b in (a', b', b' 0)

fill_loop_lem :
    (left i j : ℕ) (a : ℕ → ℕ)
    → fill_loop i left a j ≡ (if leb i j && ltb j (i + left) then 5 else a j)
unfolding fill_loop
fill_loop_lem zero i j a = ground arith
fill_loop_lem (suc left) i j a = ground (arith, fill_loop_lem left (i + 1) j (update a i 5))

copy_loop_lem :
    (a : ℕ → ℕ) (left i j : ℕ) (b : ℕ → ℕ)
    → copy_loop a i left b j ≡ (if leb i j && ltb j (i + left) then a j else b j)
unfolding copy_loop
copy_loop_lem a zero i j b = ground arith
copy_loop_lem a (suc left) i j b = ground (arith, copy_loop_lem a left (i + 1) j (update b i (a i)))

-- After the program memcpy both arrays hold 5 in their 256 elements and are as they were elsewhere,
-- and 5 is returned.
memcpy_main_lem :
    (a b : ℕ → ℕ) (j : ℕ)
    → ((main a b).0 j ≡ (if ltb j 256 then 5 else a j))
      × ((main a b).1 j ≡ (if ltb j 256 then 5 else b j))
      × ((main a b).2 ≡ 5)
unfolding main
memcpy_main_lem a b j = (
  ground (arith, fill_loop_lem 256 0 j a),
  ground (arith, fill_loop_lem 256 0 j a, copy_loop_lem (fill_loop 0 256 a) 256 0 j b),
  ground (arith, fill_loop_lem 256 0 0 a, copy_loop_lem (fill_loop 0 256 a) 256 0 0 b),
)
