-- ===== src/Kmem/Requests.antt =====
-- `request_page` of src/alloc.c: what it leaves, with a page or without one.
use nycu_osdi.Prelude.{
  ℕ, zero, suc, ◌+◌, ◌-◌, ◌*◌, ◌/◌, ◌≤◌, ◌<◌, ◌≡◌, ◌⊎◌, refl, subst, false, arith, ◌==◌, Bool-cases,
  inl, inr,
}
use nycu_osdi.Mm.{Mm, page_size, alloc_pages}
use nycu_osdi.Mm.Alloc.{Granted, alloc_pages-by_order}
use nycu_osdi.Mm.Caches.{alloc_pages-SameCaches}
use nycu_osdi.Mm.Order.{get_order-page}
use nycu_osdi.Mm.Lists.{Free}
use nycu_osdi.Kmem.{Kmem, label, split_chunks, cut_page, request_page}
use nycu_osdi.Kmem.Linking.{Pool}
use nycu_osdi.Kmem.Sound.{width, Used, Sound}
use nycu_osdi.Kmem.Pages.{Cut, leak-Sound, label-Sound, label-Room, split_chunks-Sound}

-- A page has room for at least two chunks of each cache.
pub room_for :
    (c : ℕ)
    → c < 4
    → (0 < 4096 / width c - 1)
      × ((4096 / width c - 1) * width c ≤ 4096)
      × (4096 / width c * width c ≤ 4096)
room_for zero lt = (omega arith, omega arith, omega arith)
room_for (suc zero) lt = (omega arith, omega arith, omega arith)
room_for (suc (suc zero)) lt = (omega arith, omega arith, omega arith)
room_for (suc (suc (suc zero))) lt = (omega arith, omega arith, omega arith)
room_for (suc (suc (suc (suc c)))) lt = absurd (omega (arith, lt))

cut_page-Sound :
    {s : Kmem} {fr : Free} {l : Pool} {used : Used} {m : Mm} {a : ℕ}
    → Sound s fr l used
    → Granted s.mm m fr 0 a
    → ((x : ℕ) → (m.pages x).cache_order ≡ (s.mm.pages x).cache_order)
    → (c : ℕ) → c < 4
    → (a == 0) ≡ false
    → (fr' : Free) × Cut (cut_page c (a, m) s) fr' used c
unfolding cut_page
cut_page-Sound {s} {fr} {l} {used} {m} {a} v g same c lt ne =
    let (many, inside, fits) = room_for c lt in
    let n = 4096 / width c - 1 in
    let at : g.block * 4096 + 0 * width c ≡ a = omega (arith, g.at) in
    rw (ne, v.sizes c lt)
      (
        g.free,
        subst (λ p. Cut (split_chunks n (width c) c p (label a c m s)) g.free used c) at
            (split_chunks-Sound n c g.block 0 (label-Sound v g same c lt)
              (label-Room v g same c lt n inside) (inl many)),
      )

-- What `request_page` leaves, by the page that `_alloc` returned: no page, or chunks in the list.
abbrev pub Requested : (address : ℕ) → Kmem → Kmem → Used → (c : ℕ) → Type 0
Requested address s t used c =
    (fr : Free) × (((l : Pool) × Sound t fr l used × (t.free_list ≡ s.free_list) × (address ≡ 0))
      ⊎ Cut t fr used c)

cut_page-Requested :
    {s : Kmem} {fr : Free} {l : Pool} {used : Used} {m : Mm} {a : ℕ}
    → Sound s fr l used
    → Granted s.mm m fr 0 a
    → ((x : ℕ) → (m.pages x).cache_order ≡ (s.mm.pages x).cache_order)
    → (c : ℕ) → c < 4
    → Requested a s (cut_page c (a, m) s) used c
unfolding cut_page
cut_page-Requested {s} {fr} {l} {used} {m} {a} v g same c lt = elim (Bool-cases (a == 0)) [
  | inl null ↦ rw null (g.free, inl (l, leak-Sound v g same, refl, ground arith))
  | inr ne ↦ (let (fr', cut) = cut_page-Sound v g same c lt ne in (fr', inr cut))
]

pub request_page-Requested :
    (c : ℕ) {s : Kmem} {fr : Free} {l : Pool} {used : Used}
    → c < 4
    → Sound s fr l used
    → Requested (alloc_pages page_size s.mm).0 s (request_page c s) used c
unfolding request_page cut_page
request_page-Requested c {s} {fr} {l} {used} lt v =
    elim (alloc_pages-by_order page_size v.inv (omega arith) (omega arith)) [
      | inl (nothing, empty) ↦ rw nothing (fr, inl (l, v, refl, refl))
      | inr g ↦
          cut_page-Requested v
            (subst
              (λ o. Granted s.mm (alloc_pages page_size s.mm).1 fr o (alloc_pages page_size s.mm).0)
              get_order-page g)
            (alloc_pages-SameCaches page_size s.mm) c lt
    ]
