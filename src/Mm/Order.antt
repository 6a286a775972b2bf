-- ===== src/Mm/Order.antt =====
-- `round` and `get_order` of src/mm.c: the order of the block for a request.
use nycu_osdi.Prelude.{
  ℕ, zero, suc, ◌+◌, ◌/◌, ◌%◌, ◌^◌, ◌≤◌, ◌<◌, ◌≡◌, refl, arith, ltb, ◌==◌, Bool-cases, inl, inr,
  add-zero,
}
use nycu_osdi.Mm.{page_size, max_alloc_size, round, get_order, order_loop}

-- `o` is the least order, from `lo` on, with 2 ^ o at least `size`.
pub record Least (size lo o : ℕ) : Type 0 where
  pub enough : size ≤ 2 ^ o
  pub from : lo ≤ o
  pub least : (j : ℕ) → lo ≤ j → j < o → 2 ^ j < size

more_rounds : (fuel size order : ℕ) → size ≤ 2 ^ (order + suc fuel) → size ≤ 2 ^ (order + 1 + fuel)
more_rounds fuel size order h = let e : order + 1 + fuel ≡ order + suc fuel = omega arith in rw e h

-- With enough rounds the loop ends by its test.
pub order_loop-Least :
    (fuel size order : ℕ)
    → size ≤ 2 ^ (order + fuel)
    → Least size order (order_loop fuel size order)
unfolding order_loop
order_loop-Least zero size order h = record {
  enough = rw add-zero at h;
  from = omega arith;
  least = λ j a b. absurd (omega arith);
}
order_loop-Least (suc fuel) size order h = elim (Bool-cases (ltb (2 ^ order) size)) [
  | inl more ↦ rw more (
      let rest = order_loop-Least fuel size (order + 1) (more_rounds fuel size order h) in
      record {
        enough = rest.enough;
        from = omega (arith, rest.from);
        least = λ j a b. elim (Bool-cases (order == j)) [
          | inl e ↦ (let q : order ≡ j = ground arith in rw (← q) (ground arith))
          | inr e ↦ rest.least j (ground arith) b
        ];
      })
  | inr done ↦
      rw done (record {
        enough = ground arith;
        from = omega arith;
        least = λ j a b. absurd (omega arith);
      })
]

-- Rounding gives the next multiple of the page size.
pub round_lem :
    (size : ℕ)
    → (size ≤ round size) × (round size < size + page_size) × (round size % page_size ≡ 0)
unfolding round
round_lem size = ground arith

Least-lt : {n o : ℕ} → Least n 0 o → n ≤ 2 ^ 13 → o < 14
Least-lt {n} {o} l h = elim (Bool-cases (ltb o 14)) [
  | inl small ↦ ground arith
  | inr big ↦ absurd (omega (arith, l.least 13 (omega arith) (ground arith)))
]

pages_of_round : (size : ℕ) → size ≤ max_alloc_size → round size / page_size ≤ 2 ^ 13
pages_of_round size h = omega (arith, round_lem size)

order_of_pages : (n : ℕ) → n ≤ 2 ^ 13 → n ≤ 2 ^ (0 + 31)
order_of_pages n h = omega arith

-- For a request that `_alloc` accepts, `get_order` ends by its test, at the least order whose
-- block holds the rounded size; that order has a free list.
pub get_order-Least :
    (size : ℕ)
    → size ≤ max_alloc_size
    → Least (round size / page_size) 0 (get_order (round size)) × (get_order (round size) < 14)
unfolding get_order
get_order-Least size h =
    let pages = pages_of_round size h in
    let o =
      order_loop-Least 31 (round size / page_size) 0
        (order_of_pages (round size / page_size) pages) in
    (o, Least-lt o pages)

-- A request for a page takes a block of one page.
pub get_order-page : get_order (round page_size) ≡ 0
unfolding get_order order_loop round
get_order-page = refl
