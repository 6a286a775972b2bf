-- ===== src/Kmem/Tests.antt =====
-- Concrete calls of src/alloc.c.
use nycu_osdi.Prelude.{
  ℕ, ◌+◌, ◌-◌, ◌*◌, ◌^◌, ◌==◌, ◌&&◌, subst, ◌≤◌, ◌<◌, ◌≡◌, ◌≢◌, ◌⊎◌, refl, true, false, none, some,
  List, [], ◌∷◌, arith, has, update,
}
use nycu_osdi.Prelude.Int.{pos}
use nycu_osdi.Mm.{
  Mm, alloc_pages, alloc_loop, take_block, rm_from_free_list, drop_front, split_loop, get_order,
  order_loop, round, add_to_free_list, push_front,
}
use nycu_osdi.Mm.Books.{IsBlock, Inv}
use nycu_osdi.Mm.Boot.{blank, blank-Inv}
use nycu_osdi.Mm.Cover.{cover, covers-le-one, cover-put, cover_below, cover_list}
use nycu_osdi.Mm.Put.{Put-Books, tag, tag-Put, listed_frame}
use nycu_osdi.Mm.Caches.{set_cache_order-Inv}
use nycu_osdi.Kmem.Chunks.{Kmalloced, kmalloc-Kmalloced}
use nycu_osdi.Kmem.Init.{kmem_cache_init-Kept}
use nycu_osdi.Kmem.Linking.{Pool, Linked}
use nycu_osdi.Kmem.Release.{kmalloc-kfree, kmalloc-head}
use nycu_osdi.Kmem.Sound.{width, Slot, Used, Sound}
use nycu_osdi.Kmem.System.{System, Step, Reach, Reach-Apart, grown}
use nycu_osdi.Kmem.{
  kfree, out_of_bounds, Kmem, simple_alloc, kmem_cache_init, init_caches, init_pages, init_page,
  split_chunks, kmem_freelist_push, pop_head, get_chunk_order, kmalloc, alloc,
}

-- Memory with one free page.
abbrev one_page : Mm
one_page = tag 5 0 (listed_frame 5 0 blank)

abbrev page_5 : ℕ → List ℕ
page_5 = update (λ k. []) 0 (5 ∷ [])

abbrev start : Kmem
start = record {
  cache_size = λ c. 0;
  free_list = λ c. none;
  prev = λ e. none;
  next = λ e. none;
  mm = one_page;
}

abbrev kmem : Kmem
kmem = kmem_cache_init start

first_chunk : kmem.free_list 0 ≡ some (5 * 4096 + 127 * 32)
unfolding kmem_cache_init init_caches init_pages init_page split_chunks kmem_freelist_push
    alloc_pages alloc_loop take_block rm_from_free_list drop_front split_loop get_order order_loop
    round add_to_free_list push_front
first_chunk = refl

second_chunk : (pop_head 24544 0 kmem).free_list 0 ≡ some 24512
unfolding kmem_cache_init init_caches init_pages init_page split_chunks kmem_freelist_push
    alloc_pages alloc_loop take_block rm_from_free_list drop_front split_loop get_order order_loop
    round add_to_free_list push_front pop_head
second_chunk = refl

cache_of_16 : get_chunk_order 16 - 4 ≡ 0
unfolding get_chunk_order order_loop
cache_of_16 = refl

no_cover : (p : ℕ) → cover (λ k. []) p ≡ 0
unfolding cover_below cover_list
no_cover p = refl

one_page-Inv : Inv one_page page_5
one_page-Inv = record {
  books =
      Put-Books 5 0 blank-Inv.books (tag-Put 5 0 blank (omega arith)) page_5-IsBlock (λ j. refl)
        (λ x ne a. a);
  once =
      λ p. ground (arith, covers-le-one 5 0 p, cover-put 0 5 p (λ k. []) (omega arith), no_cover p);
}
  where
    page_5-IsBlock : IsBlock 5 0
    page_5-IsBlock = record { small = omega arith; aligned = (5, refl); fits = omega arith }

alloc_16 : (e : ℕ) (s : Kmem) → s.free_list 0 ≡ some e → alloc 16 s ≡ some (e + 16, pop_head e 0 s)
unfolding alloc
alloc_16 e s h = kmalloc-head 16 0 e s (omega arith) cache_of_16 h

abbrev booted : System
booted = record { kmem = kmem; used = λ c e. false }

abbrev one_used : System
one_used = record { kmem = pop_head 24544 0 kmem; used = grown 16 24560 (λ c e. false) }

abbrev two_used : System
two_used = record {
  kmem = pop_head 24512 0 (pop_head 24544 0 kmem);
  used = grown 16 24528 (grown 16 24560 (λ c e. false));
}

two_used-Reach : Reach 524288 1048576 two_used
two_used-Reach =
    Reach.next {s = one_used}
      (Reach.next {s = booted} (Reach.boot start page_5 one_page-Inv refl refl)
        (Step.allocate 16 24560 (alloc_16 24544 kmem first_chunk) refl))
      (Step.allocate 16 24528 (alloc_16 24512 (pop_head 24544 0 kmem) second_chunk) refl)

Reach-Apart_example :
    (l : Pool) × Linked two_used.kmem l
    × ((c e : ℕ) → c < 4 → two_used.used c e ≡ true → has e (l c) ≡ false)
    × ((c d e f : ℕ)
        → c < 4
        → d < 4
        → two_used.used c e ≡ true
        → two_used.used d f ≡ true
        → e ≢ f
        → (e + width c ≤ f) ⊎ (f + width d ≤ e))
Reach-Apart_example = Reach-Apart 524288 1048576 two_used two_used-Reach

kmalloc-Kmalloced_example : Kmalloced kmem (λ c e. false) 100 (kmalloc 100 kmem)
kmalloc-Kmalloced_example =
    kmalloc-Kmalloced 100 (omega arith) (kmem_cache_init-Kept start page_5 one_page-Inv).2

-- A chunk of 16 bytes in page 7, in use; the lists are empty.
abbrev chunk_used : Kmem
chunk_used = record start {
  cache_size = λ c. 2 ^ (c + 4);
  mm = record blank {
    pages = update blank.pages 7 (record (blank.pages 7) { cache_order = pos 4 });
  };
}

abbrev only : Used
only c e = (c == 0) && (e == 28672)

only-Sound : Sound chunk_used (λ k. []) (λ c. []) only
only-Sound = record {
  inv = set_cache_order-Inv 7 (pos 4) blank-Inv;
  sizes = λ c lt. refl;
  linked = record { chains = λ c lt. refl; distinct = λ c lt. tt; apart = λ c d e a b p q. cc };
  places = λ c e lt i.
      let z : 0 ≡ c = ground arith in
      let at : e ≡ 28672 = ground arith in
      subst (λ k. Slot chunk_used.mm (λ k. []) k e) z
        (record {
          page = 7;
          nth = 0;
          at = at;
          inside = omega arith;
          in_memory = omega arith;
          labelled = refl;
          taken = no_cover 7;
        });
  apart = λ c e lt i. refl;
}

away : out_of_bounds 524288 1048576 28688 ≡ false
unfolding out_of_bounds
away = refl

order_of_16 : get_chunk_order 16 ≡ 4
unfolding get_chunk_order order_loop
order_of_16 = refl

kmalloc-kfree_example :
    (t u : Kmem) × (kfree 524288 1048576 28688 chunk_used ≡ some t)
    × (kmalloc 16 t ≡ some (28688, u))
    × ((k : ℕ) → u.free_list k ≡ chunk_used.free_list k)
    × ((x : ℕ) → 28672 ≢ x → u.next x ≡ chunk_used.next x)
    × Linked u (λ c. [])
kmalloc-kfree_example =
    kmalloc-kfree 524288 1048576 16 0 28672 only-Sound (omega arith) refl away (omega arith)
      order_of_16

-- A request that does not fit is refused, and the heap begins at the end of the bss.
simple_alloc_example : simple_alloc 4096 8192 100 0 ≡ (4096, 4196)
unfolding simple_alloc
simple_alloc_example = refl
