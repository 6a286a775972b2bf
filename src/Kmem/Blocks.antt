-- ===== src/Kmem/Blocks.antt =====
-- `free` of src/alloc.c for a block of pages, which `alloc` grants for more than 128 bytes.
use nycu_osdi.Prelude.{
  ℕ, ◌+◌, ◌-◌, ◌*◌, ◌<◌, ◌≡◌, ◌≢◌, ◌∙◌, sym, ap, subst, false, some, arith, ◌==◌, leb, ◌>>=◌,
  Bool-cases, inl, inr,
}
use nycu_osdi.Prelude.Int.{pos, negsuc, eq_ℤ}
use nycu_osdi.Mm.{Mm, page_num, page_size, frame_of, free_pages, free_loop, get_buddy}
use nycu_osdi.Mm.Books.{Inv}
use nycu_osdi.Mm.Caches.{SameCaches, free_loop-SameCaches}
use nycu_osdi.Mm.Cover.{covers, covers_first}
use nycu_osdi.Mm.Lists.{Free}
use nycu_osdi.Mm.Release.{
  Owned, Owned-inside, frame_of-address, free_pages_lem, free_pages-GivenBack,
}
use nycu_osdi.Mm.Release.Rounds.{GivenBack}
use nycu_osdi.Mm.System.{StopsBelowTop}
use nycu_osdi.Kmem.{Kmem, free, free_by, out_of_bounds}
use nycu_osdi.Kmem.Linking.{Pool}
use nycu_osdi.Kmem.Sound.{Slot, Used, Sound}

-- A block of pages in the hands of a caller: not the one at address 0, none of its frames is free or in
-- a cache, and the merging of `_free` stops below the largest order.
pub record PageBlock (s : Kmem) (b m : ℕ) : Type 0 where
  pub away : b ≢ 0
  pub owned : (fr : Free) → Inv s.mm fr → Owned s.mm fr b m
  pub stops : (fr : Free) → Inv s.mm fr → StopsBelowTop fr b m
  pub uncached : (p : ℕ) → 0 < covers b m p → (s.mm.pages p).cache_order ≡ negsuc 0

module _ {s : Kmem} {fr : Free} {l : Pool} {used : Used} (v : Sound s fr l used) {b m : ℕ}
    (o : PageBlock s b m) where
  now_held : Owned s.mm fr b m
  now_held = o.owned fr v.inv

  -- No chunk lies in the block.
  no_chunk : (d x : ℕ) → (q : Slot s.mm fr d x) → covers b m q.page ≡ 0
  no_chunk d x q = elim (Bool-cases (covers b m q.page == 0)) [
    | inl none_there ↦ ground arith
    | inr there ↦
        (let both : pos (d + 4) ≡ negsuc 0 =
            sym q.labelled ∙ o.uncached q.page (ground (arith, there)) in
          cc)
  ]

  given-Sound :
      {t : Mm}
      → SameCaches s.mm t
      → (g : GivenBack s.mm t fr b m) → Sound (record s { mm = t }) g.free l used
  given-Sound same g = record {
    inv = g.inv;
    sizes = v.sizes;
    linked = record {
      chains = v.linked.chains;
      distinct = v.linked.distinct;
      apart = v.linked.apart;
    };
    places = λ d x small i.
        let q = v.places d x small i in
        record {
          page = q.page;
          nth = q.nth;
          at = q.at;
          inside = q.inside;
          in_memory = q.in_memory;
          labelled = same q.page ∙ q.labelled;
          taken = omega (arith, g.conserved q.page, q.taken, no_chunk d x q);
        };
    apart = v.apart;
  }

  free-free_pages :
      (bss_end stack_top : ℕ)
      → out_of_bounds bss_end stack_top (b * page_size) ≡ false
      → free bss_end stack_top (b * page_size) s
        ≡ (free_pages (b * page_size) s.mm >>= λ mm. some (record s { mm = mm }))
  unfolding free free_by
  free-free_pages bss_end stack_top inside =
      let in_memory = Owned-inside now_held in
      let page : frame_of (b * page_size) ≡ b = frame_of-address b in_memory in
      let order : (s.mm.pages (frame_of (b * page_size))).cache_order ≡ negsuc 0 =
        ap (λ p. (s.mm.pages p).cache_order) page
        ∙ o.uncached b (omega (arith, covers_first b m)) in
      let known : leb page_num (frame_of (b * page_size)) ≡ false =
        ground (arith, page, in_memory) in
      let not_null : (b * page_size == 0) ≡ false = ground (arith, o.away) in
      rw (not_null, inside, known)
        (ap (λ c. free_by bss_end stack_top (b * page_size) (eq_ℤ c (negsuc 0)) s) order)

  -- `free` of the block always returns, and no chunk is concerned.
  pub free_block-Sound :
      (bss_end stack_top : ℕ)
      → out_of_bounds bss_end stack_top (b * page_size) ≡ false
      → (t : Kmem) × (fr' : Free) × (free bss_end stack_top (b * page_size) s ≡ some t)
        × Sound t fr' l used
  free_block-Sound bss_end stack_top inside =
      let (mm, e, g) = free_pages-GivenBack v.inv now_held o.away (o.stops fr v.inv) in
      let loop : free_loop (13 - m) m b (get_buddy b m) s.mm ≡ mm =
        mm_of (sym (free_pages_lem now_held o.away) ∙ e) in
      (
        record s { mm = mm },
        g.free,
        free-free_pages bss_end stack_top inside
            ∙ ap (λ r. r >>= λ q. some (record s { mm = q })) e,
        given-Sound
            (subst (SameCaches s.mm) loop (free_loop-SameCaches (13 - m) m b (get_buddy b m) s.mm))
            g,
      )
    where
      mm_of : {x y : Mm} → some x ≡ some y → x ≡ y
      mm_of q = cc
