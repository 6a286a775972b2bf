-- ===== src/Kmem/Init.antt =====
-- `kmem_cache_init` of src/alloc.c: the first chunks of the four caches.
use nycu_osdi.Prelude.{
  ℕ, zero, suc, ◌+◌, ◌*◌, ◌/◌, ◌<◌, ◌≡◌, refl, subst, false, none, [], arith, ◌==◌, update,
  Bool-cases, inl, inr,
}
use nycu_osdi.Mm.{Mm, page_size, alloc_pages}
use nycu_osdi.Mm.Alloc.{Granted, alloc_pages-by_order}
use nycu_osdi.Mm.Books.{Inv}
use nycu_osdi.Mm.Caches.{alloc_pages-SameCaches}
use nycu_osdi.Mm.Lists.{Free}
use nycu_osdi.Mm.Order.{get_order-page}
use nycu_osdi.Kmem.{Kmem, label, init_page, init_pages, init_caches, kmem_cache_init, split_chunks}
use nycu_osdi.Kmem.Linking.{Pool}
use nycu_osdi.Kmem.Pages.{leak-Sound, label-Sound, label-Room, split_chunks-Sound, Room}
use nycu_osdi.Kmem.Requests.{room_for}
use nycu_osdi.Kmem.Sound.{width, Used, Sound}

-- The state is as the invariant asks, for some free pages and free chunks.
abbrev pub Kept : Kmem → Used → Type 0
Kept s used = (fr : Free) × (l : Pool) × Sound s fr l used

-- `free_list = NULL`
reset-Sound :
    (c : ℕ) {s : Kmem} {fr : Free} {l : Pool} {used : Used}
    → Sound s fr l used
    → Sound (record s { free_list = update s.free_list c none }) fr (update l c []) used
reset-Sound c {s} {fr} {l} {used} v = record {
  inv = v.inv;
  sizes = v.sizes;
  linked = record {
    chains = λ j lt. elim (Bool-cases (c == j)) [
      | inl q ↦ rw q refl
      | inr q ↦ rw q (v.linked.chains j lt)
    ];
    distinct = λ j lt. elim (Bool-cases (c == j)) [
      | inl q ↦ rw q tt
      | inr q ↦ rw q (v.linked.distinct j lt)
    ];
    apart = λ i j x a b p q. ground (arith, v.linked.apart i j x a b);
  };
  places = λ d x small i. v.places d x small (ground arith);
  apart = λ d x small i. ground (arith, v.apart d x small i);
}

init_page-Kept :
    {s : Kmem} {fr : Free} {l : Pool} {used : Used} {m : Mm} {a : ℕ}
    → Sound s fr l used
    → Granted s.mm m fr 0 a
    → ((x : ℕ) → (m.pages x).cache_order ≡ (s.mm.pages x).cache_order)
    → (c : ℕ) → c < 4
    → Kept (init_page c (a, m) s) used
unfolding init_page
init_page-Kept {s} {fr} {l} {used} {m} {a} v g same c lt =
    let (many, fits', fits) = room_for c lt in
    let n = 4096 / width c in
    let base : Kmem = record (label a c m s) { free_list = update s.free_list c none } in
    let at : g.block * 4096 + 0 * width c ≡ a = omega (arith, g.at) in
    let w = reset-Sound c (label-Sound v g same c lt) in
    let r = label-Room (reset-Sound c v) g same c lt n fits in
    let room : Room base g.free (update l c []) used c g.block 0 n = record {
      small = lt;
      inside = r.inside;
      in_memory = r.in_memory;
      labelled = r.labelled;
      taken = r.taken;
      fresh = r.fresh;
    } in
    let (l', w', full) = split_chunks-Sound n c g.block 0 w room (inl (omega (arith, many))) in
    rw (v.sizes c lt)
      (g.free, l', subst (λ p. Sound (split_chunks n (width c) c p base) g.free l' used) at w')

init_pages-Kept :
    (n c : ℕ) {s : Kmem} {used : Used} → c + n ≡ 4 → Kept s used → Kept (init_pages n c s) used
unfolding init_pages
init_pages-Kept zero c e k = k
init_pages-Kept (suc n) c {s} {used} e (fr, l, v) =
    elim (alloc_pages-by_order page_size v.inv (omega arith) (omega arith)) [
      | inl (nothing, empty) ↦ rw nothing (fr, l, v)
      | inr g ↦
          (let g' =
              subst
                (λ o.
                  Granted s.mm (alloc_pages page_size s.mm).1 fr o (alloc_pages page_size s.mm).0)
                get_order-page g in
            elim (Bool-cases ((alloc_pages page_size s.mm).0 == 0)) [
              | inl null ↦
                  rw null (g'.free, l, leak-Sound v g' (alloc_pages-SameCaches page_size s.mm))
              | inr ne ↦ rw ne (
                  init_pages-Kept n (c + 1) (omega (arith, e)) (
                    init_page-Kept v g' (alloc_pages-SameCaches page_size s.mm) c
                      (omega (arith, e))))
            ])
    ]

-- `kmem_cache_init`, on a page allocator that is as its invariant asks, leaves the caches as theirs
-- does, with no chunk in use.
pub kmem_cache_init-Kept :
    (s : Kmem) (fr : Free) → Inv s.mm fr → Kept (kmem_cache_init s) (λ c e. false)
unfolding kmem_cache_init init_caches
kmem_cache_init-Kept s fr v = init_pages-Kept 4 0 refl (
  fr,
  (λ c. []),
  record {
    inv = v;
    sizes = λ c lt. ground arith;
    linked = record {
      chains = λ c lt. ground arith;
      distinct = λ c lt. tt;
      apart = λ c d e a b p q. cc;
    };
    places = λ c e lt i. cc;
    apart = λ c e lt i. cc;
  },
)
