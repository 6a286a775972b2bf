-- ===== src/Kmem/Chunks.antt =====
-- `kmalloc` and `kfree` of src/alloc.c: the chunks that they hand out and take back.
use native.Mathlib.Nat.{one-le-pow, pow-le-pow_right}
use nycu_osdi.Prelude.{
  ℕ, ◌+◌, ◌-◌, ◌^◌, ◌≤◌, ◌<◌, ◌≡◌, ◌⊎◌, ◌∙◌, refl, ap, subst, Option, true, false, none, some, List,
  [], ◌∷◌, arith, ◌==◌, ◌>>=◌, ltb, has, update, ==_refl, Option-cases, inl, inr,
}
use nycu_osdi.Mm.{page_size, alloc_pages}
use nycu_osdi.Mm.Chain.{Chain}
use nycu_osdi.Mm.Lists.{Free}
use nycu_osdi.Kmem.{
  Kmem, kmem_freelist_pop, pop_head, refill, take_chunk, get_chunk_order, kmalloc, request_page,
}
use nycu_osdi.Kmem.Linking.{Pool}
use nycu_osdi.Kmem.Orders.{get_chunk_order-Least, get_chunk_order-lt}
use nycu_osdi.Kmem.Pages.{Filled, Cut}
use nycu_osdi.Kmem.Requests.{request_page-Requested}
use nycu_osdi.Kmem.Sound.{Slot, Used, Sound, held, pop-Sound, pop-mm}

-- What `kmalloc` grants: the bytes behind the entry of a chunk that was not in use, in the cache
-- for the size.
pub record Allotted (t : Kmem) (used : Used) (size p : ℕ) : Type 0 where
  pub cache : ℕ
  pub entry : ℕ
  pub at : p ≡ entry + 16
  pub for_size : cache ≡ get_chunk_order size - 4
  pub small : cache < 4
  pub enough : size ≤ 2 ^ (cache + 4)
  pub least : (d : ℕ) → d < cache → 2 ^ (d + 4) < size
  pub unused : used cache entry ≡ false
  pub free : Free
  pub pool : Pool
  pub slot : Slot t.mm free cache entry
  pub sound : Sound t free pool (held used entry cache)

take_chunk-none : (c : ℕ) (s : Kmem) → s.free_list c ≡ none → take_chunk c s ≡ some (0, s)
unfolding take_chunk
take_chunk-none c s e = rw (e, take_chunk) refl

kmem_freelist_pop-some :
    (c e : ℕ) (s : Kmem) → s.free_list c ≡ some e → kmem_freelist_pop c s ≡ some (pop_head e c s)
unfolding kmem_freelist_pop
kmem_freelist_pop-some c e s h = rw (h, kmem_freelist_pop) refl

pub take_chunk-some :
    (c e : ℕ) (s : Kmem) → s.free_list c ≡ some e → take_chunk c s ≡ some (e + 16, pop_head e c s)
unfolding take_chunk
take_chunk-some c e s h = (rw (h, take_chunk) refl) ∙ ap (λ r. r >>= λ t. some (e + 16, t)) popped
  where
    popped : kmem_freelist_pop c s ≡ some (pop_head e c s)
    popped = kmem_freelist_pop-some c e s h

-- The head of a list that is not empty is handed out.
take_chunk-Allotted :
    (c size : ℕ) {s : Kmem} {fr : Free} {used : Used}
    → c < 4
    → size ≤ 2 ^ (c + 4)
    → ((d : ℕ) → d < c → 2 ^ (d + 4) < size)
    → c ≡ get_chunk_order size - 4
    → Cut s fr used c
    → (p : ℕ) × (t : Kmem) × (take_chunk c s ≡ some (p, t)) × Allotted t used size p
take_chunk-Allotted c size {s} {fr} {used} lt enough least for_size (l, v, (e, xs, full)) =
    let chain : Chain s.next s.prev none (s.free_list c) (e ∷ xs) =
      subst (λ ys. Chain s.next s.prev none (s.free_list c) ys) full (v.linked.chains c lt) in
    let inside : has e (l c) ≡ true = (rw full (ground (arith, ==_refl e))) in
    (
      e + 16,
      pop_head e c s,
      take_chunk-some c e s chain.0,
      record {
        cache = c;
        entry = e;
        at = refl;
        for_size = for_size;
        small = lt;
        enough = enough;
        least = least;
        unused = ground (arith, v.apart c e lt, inside);
        free = fr;
        pool = update l c xs;
        slot = rw (pop-mm e c s) (v.places c e lt (ground (arith, inside)));
        sound = pop-Sound v e c xs lt full;
      },
    )

-- NULL: the list for the size is empty and `_alloc` has returned NULL for a page.
pub record Refused (s t : Kmem) (used : Used) (size : ℕ) : Type 0 where
  pub empty : s.free_list (get_chunk_order size - 4) ≡ none
  pub no_page : (alloc_pages page_size s.mm).0 ≡ 0
  pub free : Free
  pub pool : Pool
  pub sound : Sound t free pool used

abbrev pub Kmalloced : Kmem → Used → (size : ℕ) → Option (ℕ × Kmem) → Type 0
Kmalloced s used size r =
    (p : ℕ) × (t : Kmem) × (r ≡ some (p, t))
    × (((p ≡ 0) × Refused s t used size) ⊎ Allotted t used size p)

pow7 : (o : ℕ) → o < 8 → 2 ^ o ≤ 128
pow7 o lt = let le : o ≤ 7 = omega arith in pow-le-pow_right {n = 2} (omega arith) {j = 7} le

pub kmalloc_lem :
    (size : ℕ) (s : Kmem)
    → size ≤ 128
    → kmalloc size s ≡ take_chunk (get_chunk_order size - 4) (refill (get_chunk_order size - 4) s)
unfolding kmalloc
kmalloc_lem size s h = rw (not_null, not_large) refl
  where
    not_null : (2 ^ get_chunk_order size == 0) ≡ false
    not_null = ground (arith, one-le-pow (get_chunk_order size) 2)

    not_large : ltb 128 (2 ^ get_chunk_order size) ≡ false
    not_large = ground (arith, pow7 (get_chunk_order size) (get_chunk_order-lt size h))

head_of :
    {s : Kmem} {fr : Free} {l : Pool} {used : Used} {e : ℕ} (c : ℕ)
    → c < 4
    → Sound s fr l used
    → s.free_list c ≡ some e
    → Filled (l c)
head_of {s} {l = l} {e = e} c lt v h = from_chain (l c) (v.linked.chains c lt)
  where
    from_chain : (xs : List ℕ) → Chain s.next s.prev none (s.free_list c) xs → Filled xs
    from_chain [] chain = cc
    from_chain (x ∷ xs) chain = (x, xs, refl)

-- For at most 128 bytes `kmalloc` hands out a chunk of the least cache that holds them, which was
-- not in use, or returns NULL with an empty list and no page to be had.
pub kmalloc-Kmalloced :
    (size : ℕ) {s : Kmem} {fr : Free} {l : Pool} {used : Used}
    → size ≤ 128
    → Sound s fr l used
    → Kmalloced s used size (kmalloc size s)
unfolding refill
kmalloc-Kmalloced size {s} {fr} {l} {used} h v =
    rw (kmalloc_lem size s h) (elim (Option-cases (s.free_list c)) [
      | inr (e, found) ↦
          rw (found, refill)
            (let (p, t, r, a) =
                take_chunk-Allotted c size lt enough least refl (l, v, head_of c lt v found) in
              (p, t, r, inr a))
      | inl empty ↦
          rw (empty, refill)
            (let (fr', r) = request_page-Requested c lt v in
              elim r [
                | inl (l', v', same, no_page) ↦ (
                  0,
                  request_page c s,
                  take_chunk-none c (request_page c s) (ap (λ f. f c) same ∙ empty),
                  inl (
                    refl,
                    record { empty = empty; no_page = no_page; free = fr'; pool = l'; sound = v' },
                  ),
                )
                | inr cut ↦
                    (let (p, t, q, a) = take_chunk-Allotted c size lt enough least refl cut in
                      (p, t, q, inr a))
              ])
    ])
  where
    c : ℕ
    c = get_chunk_order size - 4

    lt : c < 4
    lt = omega (arith, get_chunk_order-lt size h)

    enough : size ≤ 2 ^ (c + 4)
    enough =
        let o = get_chunk_order-Least size (omega (arith, h)) in
        let e : c + 4 ≡ get_chunk_order size = omega (arith, o.from) in rw e o.enough

    least : (d : ℕ) → d < c → 2 ^ (d + 4) < size
    least d less =
        let o = get_chunk_order-Least size (omega (arith, h)) in
        o.least (d + 4) (omega arith) (omega (arith, less, o.from))
