-- ===== src/Kmem/Orders.antt =====
-- `get_chunk_order` of src/alloc.c: the cache for a request.
use nycu_osdi.Prelude.{ℕ, ◌^◌, ◌≤◌, ◌<◌, arith, ltb, Bool-cases, inl, inr}
use nycu_osdi.Mm.Order.{Least, order_loop-Least}
use nycu_osdi.Kmem.{get_chunk_order}

-- For any unsigned int up to the largest power of two that it holds, `get_chunk_order` ends by its
-- test, at the least order from 4 on whose power of two holds the size.
pub get_chunk_order-Least : (size : ℕ) → size ≤ 2 ^ 31 → Least size 4 (get_chunk_order size)
unfolding get_chunk_order
get_chunk_order-Least size h = order_loop-Least 28 size 4 (omega (arith, h))

-- A size of at most 128 bytes has a cache.
pub get_chunk_order-lt : (size : ℕ) → size ≤ 128 → get_chunk_order size < 8
get_chunk_order-lt size h = elim (Bool-cases (ltb 7 (get_chunk_order size))) [
  | inl big ↦ absurd (
      omega (
        arith,
        (get_chunk_order-Least size (omega (arith, h))).least 7 (omega arith) (ground arith),
        h,
      ))
  | inr small ↦ ground arith
]
