-- ===== src/Kmem/Pages.antt =====
-- `request_page` of src/alloc.c: a page of the page allocator cut into the chunks of a cache.
use nycu_osdi.Prelude.{
  ℕ, zero, suc, ◌+◌, ◌*◌, ◌≤◌, ◌<◌, ◌≡◌, ◌≢◌, ◌⊎◌, ◌∙◌, refl, sym, ap, subst, true, false, List,
  ◌∷◌, arith, ◌==◌, ◌||◌, ltb, has, update, update_self, Bool-cases, ==_iff, inl, inr,
}
use nycu_osdi.Prelude.Int.{pos}
use nycu_osdi.Mm.{Mm, page_num, frame_of}
use nycu_osdi.Mm.Alloc.{Granted}
use nycu_osdi.Mm.Caches.{set_cache_order-Inv}
use nycu_osdi.Mm.Cover.{cover, covers_first}
use nycu_osdi.Mm.Lists.{Free}
use nycu_osdi.Kmem.{Kmem, label, split_chunks, kmem_freelist_push}
use nycu_osdi.Kmem.Linking.{Pool}
use nycu_osdi.Kmem.Sound.{width, Slot, Used, Sound, push-Sound, push-mm}

-- The address of a chunk of a page.
abbrev pub spot : (page nth c : ℕ) → ℕ
spot page nth c = page * 4096 + nth * width c

-- From the chunk `nth` of the page on there are `n` places that no chunk has taken.
pub record Room (s : Kmem) (fr : Free) (l : Pool) (used : Used) (c page nth n : ℕ) : Type 0 where
  pub small : c < 4
  pub inside : nth * width c + n * width c ≤ 4096
  pub in_memory : page < page_num
  pub labelled : (s.mm.pages page).cache_order ≡ pos (c + 4)
  pub taken : cover fr page ≡ 0
  pub fresh :
      (d x : ℕ)
      → d < 4
      → (has x (l d) || used d x) ≡ true
      → (x < spot page nth c) ⊎ (page * 4096 + 4096 ≤ x)

-- A list that is not empty.
abbrev pub Filled : List ℕ → Type 0
Filled xs = (e : ℕ) × (ys : List ℕ) × (xs ≡ e ∷ ys)

abbrev pub Cut : Kmem → Free → Used → (c : ℕ) → Type 0
Cut t fr used c = (l : Pool) × Sound t fr l used × Filled (l c)

module _ {s : Kmem} {fr : Free} {l : Pool} {used : Used} {c page nth n : ℕ}
    (r : Room s fr l used c page nth (suc n)) where
  first-Slot : Slot s.mm fr c (spot page nth c)
  first-Slot = record {
    page = page;
    nth = nth;
    at = refl;
    inside = omega (arith, r.inside);
    in_memory = r.in_memory;
    labelled = r.labelled;
    taken = r.taken;
  }

  first_new : (d : ℕ) → d < 4 → (has (spot page nth c) (l d) || used d (spot page nth c)) ≡ false
  first_new d lt = elim (Bool-cases (has (spot page nth c) (l d) || used d (spot page nth c))) [
    | inr new ↦ new
    | inl old ↦ elim (r.fresh d (spot page nth c) lt old) [
      | inl low ↦ absurd (omega (arith, low))
      | inr high ↦ absurd (omega (arith, high, r.inside))
    ]
  ]

  first-Sound :
      Sound s fr l used
      → Sound
          (kmem_freelist_push (spot page nth c) c s)
          fr
          (update l c ((spot page nth c) ∷ l c))
          used
  first-Sound v =
      push-Sound v (spot page nth c) c used r.small first-Slot
        (λ j lt. ground (arith, first_new j lt))
        (λ d x lt i. (i, λ q e. absurd (ground (arith, rw (← e) at i, first_new d lt))))

  other :
      (d x : ℕ)
      → (has x (update l c ((spot page nth c) ∷ l c) d) || used d x) ≡ true
      → (x == spot page nth c) ≡ false
      → (has x (l d) || used d x) ≡ true
  other d x i ne = elim (Bool-cases (c == d)) [
    | inl q ↦ (let lists : l d ≡ l c = ap l (sym ((==_iff c d).0 q)) in ground arith)
    | inr q ↦ ground arith
  ]

  first-Room :
      Room
        (kmem_freelist_push (spot page nth c) c s)
        fr
        (update l c ((spot page nth c) ∷ l c))
        used
        c
        page
        (suc nth)
        n
  first-Room = record {
    small = r.small;
    inside = omega (arith, r.inside);
    in_memory = r.in_memory;
    labelled = rw (push-mm (spot page nth c) c s) r.labelled;
    taken = r.taken;
    fresh = λ d x lt i. elim (Bool-cases (x == spot page nth c)) [
      | inl here ↦ inl (ground arith)
      | inr there ↦ elim (r.fresh d x lt (other d x i there)) [
        | inl low ↦ inl (omega (arith, low))
        | inr high ↦ inr high
      ]
    ];
  }

pub split_chunks-Sound :
    (n : ℕ) {s : Kmem} {fr : Free} {l : Pool} {used : Used} (c page nth : ℕ)
    → Sound s fr l used
    → Room s fr l used c page nth n
    → (0 < n) ⊎ Filled (l c)
    → Cut (split_chunks n (width c) c (spot page nth c) s) fr used c
unfolding split_chunks
split_chunks-Sound zero c page nth v r (inl lt) = absurd (omega (arith, lt))
split_chunks-Sound zero {l = l} c page nth v r (inr full) = (l, v, full)
split_chunks-Sound (suc n) {s} {fr} {l} {used} c page nth v r full =
    let a = spot page nth c in
    let next : page * 4096 + suc nth * width c ≡ a + width c = omega arith in
    subst (λ p. Cut (split_chunks n (width c) c p (kmem_freelist_push a c s)) fr used c) next
      (split_chunks-Sound n c page (suc nth) (first-Sound r v) (first-Room r)
        (inr (a, l c, update_self l c (a ∷ l c))))

-- Pages that `_alloc` grants and that no cache gets: those of large requests, and the one at
-- address 0, which is taken for NULL.
pub leak-Sound :
    {s : Kmem} {fr : Free} {l : Pool} {used : Used} {m : Mm} {a o : ℕ}
    → Sound s fr l used
    → (g : Granted s.mm m fr o a) → ((x : ℕ) → (m.pages x).cache_order ≡ (s.mm.pages x).cache_order)
    → Sound (record s { mm = m }) g.free l used
leak-Sound v g same = record {
  inv = g.inv;
  sizes = v.sizes;
  linked = record {
    chains = v.linked.chains;
    distinct = v.linked.distinct;
    apart = v.linked.apart;
  };
  places = λ d x small i.
      let q = v.places d x small i in
      record {
        page = q.page;
        nth = q.nth;
        at = q.at;
        inside = q.inside;
        in_memory = q.in_memory;
        labelled = same q.page ∙ q.labelled;
        taken = omega (arith, g.conserved q.page, q.taken);
      };
  apart = v.apart;
}

-- The page that `_alloc` grants, labelled for the cache.
module _ {s : Kmem} {fr : Free} {l : Pool} {used : Used} (v : Sound s fr l used) {m : Mm} {a : ℕ}
    (g : Granted s.mm m fr 0 a)
    (same : (x : ℕ) → (m.pages x).cache_order ≡ (s.mm.pages x).cache_order) (c : ℕ)
    (lt : c < 4) where
  page_at : frame_of a ≡ g.block
  page_at = omega (arith, g.at, g.is_block.fits)

  -- Its page was free, so that it has no chunks.
  no_chunk : (p : ℕ) → cover fr p ≡ 0 → g.block ≢ p
  no_chunk p z e =
      absurd (omega (arith, g.conserved g.block, covers_first g.block 0, (rw (← e) at z)))

  still : (p : ℕ) → cover fr p ≡ 0 → cover g.free p ≡ 0
  still p z = omega (arith, g.conserved p, z)

  moved : (d x : ℕ) → Slot s.mm fr d x → Slot (label a c m s).mm g.free d x
  moved d x q = record {
    page = q.page;
    nth = q.nth;
    at = q.at;
    inside = q.inside;
    in_memory = q.in_memory;
    labelled = ground (arith, page_at, no_chunk q.page q.taken, same q.page, q.labelled);
    taken = still q.page q.taken;
  }

  pub label-Sound : Sound (label a c m s) g.free l used
  label-Sound = record {
    inv = set_cache_order-Inv (frame_of a) (pos (c + 4)) g.inv;
    sizes = v.sizes;
    linked = record {
      chains = v.linked.chains;
      distinct = v.linked.distinct;
      apart = v.linked.apart;
    };
    places = λ d x small i. moved d x (v.places d x small i);
    apart = v.apart;
  }

  pub label-Room : (n : ℕ) → n * width c ≤ 4096 → Room (label a c m s) g.free l used c g.block 0 n
  label-Room n fits = record {
    small = lt;
    inside = omega (arith, fits);
    in_memory = omega (arith, g.is_block.fits);
    labelled = ground (arith, page_at);
    taken = omega (arith, g.conserved g.block, covers_first g.block 0, v.inv.once g.block);
    fresh = λ d x small i.
        let q = v.places d x small i in
        let apart : g.block ≢ q.page = no_chunk q.page q.taken in
        elim (Bool-cases (ltb q.page g.block)) [
          | inl low ↦ inl (ground (arith, q.at, q.inside))
          | inr high ↦ inr (ground (arith, q.at, q.inside))
        ];
  }
