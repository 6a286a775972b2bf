-- ===== src/Kmem/System.antt =====
-- src/alloc.c and its callers: any order of calls of `alloc` and of `free`.
use native.Mathlib.Nat.{one-le-pow}
use nycu_osdi.Prelude.{
  ℕ, ◌+◌, ◌-◌, ◌*◌, ◌≤◌, ◌<◌, ◌≡◌, ◌≢◌, ◌⊎◌, ◌∙◌, sym, ap, subst, true, false, Option, some, ◌∷◌,
  arith, has, ◌==◌, ◌||◌, ltb, leb, update, if◌then◌else◌, Bool-cases, inl, inr,
}
use nycu_osdi.Prelude.Int.{pos, negsuc, eq_ℤ}
use nycu_osdi.Mm.{page_num, page_size, frame_of, max_alloc_size, alloc_pages}
use nycu_osdi.Mm.Alloc.{alloc_pages-by_order, alloc_pages-refuses}
use nycu_osdi.Mm.Caches.{alloc_pages-SameCaches}
use nycu_osdi.Mm.Lists.{Free}
use nycu_osdi.Mm.Books.{Inv}
use nycu_osdi.Kmem.{
  Kmem, kmem_cache_init, get_chunk_order, kmalloc, alloc, free, free_by, kfree, out_of_bounds,
}
use nycu_osdi.Kmem.Linking.{Pool, Linked}
use nycu_osdi.Kmem.Blocks.{PageBlock, free_block-Sound}
use nycu_osdi.Kmem.Chunks.{kmalloc-Kmalloced}
use nycu_osdi.Kmem.Init.{Kept, kmem_cache_init-Kept}
use nycu_osdi.Kmem.Pages.{leak-Sound}
use nycu_osdi.Kmem.Release.{released, kfree-Sound}
use nycu_osdi.Kmem.Sound.{width, Slot, Slot-Apart, Used, Sound, held}

-- The allocator, and the chunks in the hands of its callers, by cache and address of the entry.
pub record System : Type 0 where
  pub kmem : Kmem
  pub used : Used

-- How the callers see the result of `alloc`: NULL is no chunk, and what is larger is pages.
abbrev pub grown : (size p : ℕ) → Used → Used
grown size p used =
    if (p == 0) || ltb 128 size then used else held used (p - 16) (get_chunk_order size - 4)

module _ (bss_end stack_top : ℕ) where
  -- A call of a caller; `free` is for a chunk in use, or for a block of pages, that does not lie where
  -- the kernel itself does.
  pub data Step (s t : System) : Type 0 where
    allocate :
        (size p : ℕ)
        → alloc size s.kmem ≡ some (p, t.kmem)
        → t.used ≡ grown size p s.used
        → Step s t
    give_back :
        (c e : ℕ)
        → c < 4
        → s.used c e ≡ true
        → out_of_bounds bss_end stack_top (e + 16) ≡ false
        → free bss_end stack_top (e + 16) s.kmem ≡ some t.kmem
        → t.used ≡ released s.used e c
        → Step s t
    give_back_pages :
        (b m : ℕ)
        → PageBlock s.kmem b m
        → out_of_bounds bss_end stack_top (b * page_size) ≡ false
        → free bss_end stack_top (b * page_size) s.kmem ≡ some t.kmem
        → t.used ≡ s.used
        → Step s t

  pub data Reach : System → Type 0 where
    boot :
        {s : System} (k : Kmem) (fr : Free)
        → Inv k.mm fr
        → s.kmem ≡ kmem_cache_init k
        → s.used ≡ (λ c e. false)
        → Reach s
    next : {s t : System} → Reach s → Step s t → Reach t

pair_of :
    {a b : ℕ} {s t : Kmem}
    → ◌≡◌ {A = Option (ℕ × Kmem)} (some (a, s)) (some (b, t))
    → (a ≡ b) × (s ≡ t)
pair_of e = (cc, cc)

some_inj : {s t : Kmem} → some s ≡ some t → s ≡ t
some_inj e = cc

module _ {s : Kmem} {used : Used} where
  kmalloc-Kept :
      (size p : ℕ) {t : Kmem}
      → size ≤ 128
      → Kept s used
      → kmalloc size s ≡ some (p, t)
      → Kept t (grown size p used)
  kmalloc-Kept size p {t} h (fr, l, v) e =
      let (q, u, r, outcome) = kmalloc-Kmalloced size h v in
      let (qp, ut) = pair_of (sym r ∙ e) in
      let small : ltb 128 size ≡ false = ground arith in
      subst (λ w. Kept w (grown size p used)) ut
        (subst (λ w. Kept u (grown size w used)) qp
          (elim outcome [
            | inl (null, o) ↦
                (let z : (q == 0) ≡ true = ground arith in rw z (o.free, o.pool, o.sound))
            | inr a ↦
                (let z : (q == 0) ≡ false = ground (arith, a.at) in
                  let entry : a.entry ≡ q - 16 = omega (arith, a.at) in
                  rw (z, small)
                    (
                      a.free,
                      a.pool,
                      subst (λ x. Sound u a.free a.pool (held used x (get_chunk_order size - 4)))
                          entry
                          (subst (λ x. Sound u a.free a.pool (held used a.entry x)) a.for_size
                            a.sound),
                    ))
          ]))

  pages-Kept :
      (size p : ℕ) {t : Kmem}
      → 128 < size
      → Kept s used
      → ◌≡◌ {A = Option (ℕ × Kmem)}
          (some ((alloc_pages size s.mm).0, record s { mm = (alloc_pages size s.mm).1 }))
          (some (p, t))
      → Kept t (grown size p used)
  pages-Kept size p {t} h (fr, l, v) e =
      let large : ltb 128 size ≡ true = ground arith in
      let (qp, ut) = pair_of e in
      let same : grown size p used ≡ used = ground arith in
      subst (λ w. Kept w (grown size p used)) ut
        (rw same (elim (Bool-cases (ltb max_alloc_size size)) [
          | inl over ↦ rw (alloc_pages-refuses size s.mm (inr (ground arith))) (fr, l, v)
          | inr fits ↦ elim (alloc_pages-by_order size v.inv (omega (arith, h)) (ground arith)) [
            | inl (nothing, empty) ↦ rw nothing (fr, l, v)
            | inr g ↦ (g.free, l, leak-Sound v g (alloc_pages-SameCaches size s.mm))
          ]
        ]))

  alloc-Kept :
      (size p : ℕ) {t : Kmem}
      → Kept s used
      → alloc size s ≡ some (p, t)
      → Kept t (grown size p used)
  unfolding alloc
  alloc-Kept size p {t} k e = elim (Bool-cases (size == 0)) [
    | inl zero_size ↦
        (let (null, same) = pair_of (rw zero_size at e) in
          let z : (p == 0) ≡ true = ground (arith, null) in rw z (subst (λ w. Kept w used) same k))
    | inr some_size ↦ elim (Bool-cases (ltb 128 size)) [
      | inl large ↦ pages-Kept size p (ground arith) k (rw (some_size, large) at e)
      | inr small ↦ kmalloc-Kept size p (ground arith) k (rw (some_size, small) at e)
    ]
  ]

module _ (bss_end stack_top : ℕ) {s : Kmem} {fr : Free} {l : Pool} {used : Used}
    (v : Sound s fr l used) {c e : ℕ} (lt : c < 4) (held_now : used c e ≡ true)
    (away : out_of_bounds bss_end stack_top (e + 16) ≡ false) where
  -- `free` sends a chunk to `kfree`.
  free-kfree : free bss_end stack_top (e + 16) s ≡ kfree bss_end stack_top (e + 16) s
  unfolding free free_by
  free-kfree =
      let slot = v.places c e lt (ground (arith, held_now)) in
      let page : frame_of (e + 16) ≡ slot.page =
        omega (arith, slot.at, slot.inside, slot.in_memory, one-le-pow (c + 4) 2) in
      let order : (s.mm.pages (frame_of (e + 16))).cache_order ≡ pos (c + 4) =
        ap (λ p. (s.mm.pages p).cache_order) page ∙ slot.labelled in
      let known : leb page_num (frame_of (e + 16)) ≡ false = ground (arith, page, slot.in_memory) in
      let not_null : (e + 16 == 0) ≡ false = ground arith in
      rw (not_null, away, known)
        (ap (λ o. free_by bss_end stack_top (e + 16) (eq_ℤ o (negsuc 0)) s) order)

  free-Kept : {t : Kmem} → free bss_end stack_top (e + 16) s ≡ some t → Kept t (released used e c)
  free-Kept {t} q =
      let (u, r, w) = kfree-Sound bss_end stack_top c e v lt held_now away in
      subst (λ x. Kept x (released used e c)) (some_inj (sym r ∙ (sym free-kfree ∙ q)))
        (fr, update l c (e ∷ l c), w)

Reach-Kept : (bss_end stack_top : ℕ) (s : System) → Reach bss_end stack_top s → Kept s.kmem s.used
Reach-Kept bss_end stack_top s (boot k fr v e u) = rw (e, u) (kmem_cache_init-Kept k fr v)
Reach-Kept bss_end stack_top t (next {s} r (Step.allocate size p e u)) =
    rw u (alloc-Kept size p (Reach-Kept bss_end stack_top s r) e)
Reach-Kept bss_end stack_top t (next {s} r (Step.give_back c e lt i away q u)) =
    let (fr, l, v) = Reach-Kept bss_end stack_top s r in
    rw u (free-Kept bss_end stack_top v lt i away q)
Reach-Kept bss_end stack_top t (next {s} r (Step.give_back_pages b m o away q u)) =
    let (fr, l, v) = Reach-Kept bss_end stack_top s r in
    let (k, fr', e, w) = free_block-Sound v o bss_end stack_top away in
    rw u (subst (λ x. Kept x s.used) (some_inj (sym e ∙ q)) (fr', l, w))

-- In every state that calls of `alloc` for any sizes, and of `free` for chunks in use and for blocks of
-- pages in use, reach from `kmem_cache_init`, two different chunks in use do not overlap, and no chunk
-- in use is in a free list. What is given to `free` does not lie where the kernel itself does; a block of
-- pages is not the one at address 0, has no frame that is free or in a cache, and some frame of the block
-- of order 13 around it is in use elsewhere.
pub Reach-Apart :
    (bss_end stack_top : ℕ) (s : System)
    → Reach bss_end stack_top s
    → (l : Pool) × Linked s.kmem l
      × ((c e : ℕ) → c < 4 → s.used c e ≡ true → has e (l c) ≡ false)
      × ((c d e f : ℕ)
          → c < 4
          → d < 4
          → s.used c e ≡ true
          → s.used d f ≡ true
          → e ≢ f
          → (e + width c ≤ f) ⊎ (f + width d ≤ e))
Reach-Apart bss_end stack_top s r =
    let (fr, l, v) = Reach-Kept bss_end stack_top s r in
    let slot : (c e : ℕ) → c < 4 → s.used c e ≡ true → Slot s.kmem.mm fr c e =
      λ c e lt i. v.places c e lt (ground (arith, i)) in
    (l, v.linked, v.apart, λ c d e f lc ld i j ne. Slot-Apart (slot c e lc i) (slot d f ld j) ne)
