-- ===== src/Mm/Tests.antt =====
-- Concrete calls of the page allocator of src/mm.c.
use nycu_osdi.Prelude.{ℕ, ◌+◌, ◌*◌, ◌/◌, ◌<◌, ◌≡◌, refl, some, List, [], arith}
use nycu_osdi.Prelude.Int.{pos}
use nycu_osdi.Mm.{
  Mm, page_size, round, get_order, order_loop, get_buddy, set_order, alloc_pages, free_pages,
}
use nycu_osdi.Mm.Init.{mm_init}
use nycu_osdi.Mm.Order.{Least, get_order-Least}
use nycu_osdi.Mm.Alloc.{Fits, Served, alloc_pages-Served}
use nycu_osdi.Mm.Boot.{blank, blank-Inv, mm_init-Inv}
use nycu_osdi.Mm.Buddy.{Aligned}
use nycu_osdi.Mm.Cover.{covers, cover, cover_below, cover_list, covers-le-one}
use nycu_osdi.Mm.Release.Rounds.{Freed, GivenBack}
use nycu_osdi.Mm.Release.{Owned, free_pages-Freed, free_pages-GivenBack, free_pages-top}
use nycu_osdi.Mm.System.{System, Reach, Step, IsSound, Reach-IsSound, grown}

-- 5000 bytes are two pages: a block of order 1.
get_order_two_pages : get_order (round 5000) ≡ 1
unfolding get_order round order_loop
get_order_two_pages = refl

get_buddy_of_4 : get_buddy 4 1 ≡ 6
unfolding get_buddy
get_buddy_of_4 = refl

-- The first request after boot.
abbrev first_call : System
first_call = record {
  mm = (alloc_pages 5000 mm_init).1;
  live = grown 5000 (alloc_pages 5000 mm_init) [];
}

Reach-IsSound_example : IsSound first_call
Reach-IsSound_example = Reach-IsSound first_call (
    Reach.next {s = record { mm = mm_init; live = [] }} (Reach.boot refl refl)
      (Step.alloc 5000 refl refl))

alloc_pages-Served_example :
    (m : ℕ) × Fits 5000 m × Served mm_init mm_init-Inv.0 m (alloc_pages 5000 mm_init)
alloc_pages-Served_example =
    alloc_pages-Served 5000 {s = mm_init} {fr = mm_init-Inv.0} mm_init-Inv.1 (omega arith)
      (omega arith)

get_order-Least_example :
    Least (round 5000 / page_size) 0 (get_order (round 5000)) × (get_order (round 5000) < 14)
get_order-Least_example = get_order-Least 5000 (omega arith)

-- The zeroed frames, on no list: each is marked as a block of order 0 that is taken.
abbrev none_free : ℕ → List ℕ
none_free k = []

none_free_covers : (p : ℕ) → cover none_free p ≡ 0
unfolding cover cover_below cover_list
none_free_covers p = refl

frame_2-Owned : Owned blank none_free 2 0
frame_2-Owned = record {
  block = record { small = omega arith; aligned = (2, refl); fits = omega arith };
  order = refl;
  entry = refl;
  once = λ p. omega (arith, none_free_covers p, covers-le-one 2 0 p);
}

free_pages-Freed_example :
    (t : Mm) × (free_pages (2 * page_size) blank ≡ some t) × Freed blank t none_free 2 0
free_pages-Freed_example = free_pages-Freed blank-Inv frame_2-Owned (omega arith)

-- Frame 3 is in use.
frame_3_stays :
    (top : ℕ)
    → Aligned top 13
    → covers top 13 2 ≡ 1
    → (p : ℕ) × (covers top 13 p ≡ 1) × (cover none_free p + covers 2 0 p ≡ 0)
unfolding covers
frame_3_stays top (q, e) around = (3, ground arith, omega (arith, none_free_covers 3))

free_pages-GivenBack_example :
    (t : Mm) × (free_pages (2 * page_size) blank ≡ some t) × GivenBack blank t none_free 2 0
free_pages-GivenBack_example =
    free_pages-GivenBack blank-Inv frame_2-Owned (omega arith) frame_3_stays

-- The second block of the largest order, as its owner holds it.
abbrev whole_block : Mm
whole_block = set_order 8192 (pos 13) blank

whole_block-Owned : Owned whole_block none_free 8192 13
whole_block-Owned = record {
  block = record { small = omega arith; aligned = (1, refl); fits = omega arith };
  order = refl;
  entry = refl;
  once = λ p. omega (arith, none_free_covers p, covers-le-one 8192 13 p);
}

free_pages-top_example : free_pages (8192 * page_size) whole_block ≡ some whole_block
free_pages-top_example = free_pages-top whole_block-Owned (omega arith)
