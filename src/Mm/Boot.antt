-- ===== src/Mm/Boot.antt =====
-- The state that `mm_init` of src/mm.c leaves: the invariant, with every frame free.
use nycu_osdi.Prelude.{
  ℕ, zero, suc, ◌+◌, ◌*◌, ◌≤◌, ◌≡◌, refl, subst, Bool, none, [], ◌∷◌, arith, ◌==◌, leb, ltb, ◌&&◌,
  if◌then◌else◌, update,
}
use nycu_osdi.Prelude.Int.{negsuc}
use nycu_osdi.Mm.{Mm, page_num}
use nycu_osdi.Mm.Init.{mm_init, init_loop, zero_page}
use nycu_osdi.Mm.Books.{IsBlock, Books, Inv, not_listed}
use nycu_osdi.Mm.Put.{Put-Books, tag, tag-Put, listed_frame}
use nycu_osdi.Mm.Merge.{retag-Books}
use nycu_osdi.Mm.Cover.{covers, cover, cover_list, cover_below, cover-put, covers-le-one}
use nycu_osdi.Mm.Lists.{Free}

-- 1 if `p` is one of the `n` frames from `i` on, else 0.
abbrev pub within : ℕ → ℕ → ℕ → ℕ
within i n p = if leb i p && ltb p (i + n) then 1 else 0

-- A state with the free lists `free`, which cover `n` frames from `i` on more than `fr` does.
pub record Filled (t : Mm) (fr : Free) (i n : ℕ) : Type 0 where
  pub free : Free
  pub inv : Inv t free
  pub more : (p : ℕ) → cover free p ≡ cover fr p + within i n p

covers-within : (i p : ℕ) → covers i 13 p ≡ within i 8192 p
unfolding covers
covers-within i p = refl

top-IsBlock : (q n : ℕ) → (q + suc n) * 8192 ≤ page_num → IsBlock (q * 8192) 13
top-IsBlock q n fits = record { small = omega arith; aligned = (q, refl); fits = omega arith }

-- One round puts a block of the largest order on its list.
first-Inv :
    (q n : ℕ) {s : Mm} {fr : Free}
    → Inv s fr
    → (q + suc n) * 8192 ≤ page_num
    → ((p : ℕ) → q * 8192 ≤ p → cover fr p ≡ 0)
    → Inv (tag (q * 8192) 13 (listed_frame (q * 8192) 13 s)) (update fr 13 ((q * 8192) ∷ fr 13))
first-Inv q n {s} {fr} v fits z =
    let i = q * 8192 in
    let apart : (p : ℕ) → cover fr p + covers i 13 p ≤ 1 =
      λ p. ground (arith, v.once p, z p, covers-within i p, covers-le-one i 13 p) in
    let skipless : Books s fr (λ x. i == x) = record {
      linked = v.books.linked;
      tagged = v.books.tagged;
      blocks = v.books.blocks;
      listed = λ x e a r. v.books.listed x e refl r;
    } in
    record {
      books =
          Put-Books i 13 v.books (tag-Put i 13 s (omega arith)) (top-IsBlock q n fits)
            (not_listed i 13 skipless apart) (λ x ne a. a);
      once = λ p. omega (arith, cover-put 13 i p fr (omega arith), apart p);
    }

Filled-after :
    {t : Mm} {fr : Free} (q n : ℕ)
    → Filled t (update fr 13 ((q * 8192) ∷ fr 13)) ((q + 1) * 8192) (n * 8192)
    → Filled t fr (q * 8192) (suc n * 8192)
Filled-after {t} {fr} q n f = record {
  free = f.free;
  inv = f.inv;
  more = λ p. ground (arith, f.more p, cover-put 13 (q * 8192) p fr, covers-within (q * 8192) p);
}

no_cover : (n p : ℕ) → cover_below n (λ k. []) p ≡ 0
unfolding cover_below cover_list
no_cover zero p = refl
no_cover (suc n) p = omega (arith, no_cover n p)

init_loop-Filled :
    (n q : ℕ) {s : Mm} {fr : Free}
    → Inv s fr
    → (q + n) * 8192 ≤ page_num
    → ((p : ℕ) → q * 8192 ≤ p → cover fr p ≡ 0)
    → Filled (init_loop n (q * 8192) s) fr (q * 8192) (n * 8192)
unfolding init_loop
init_loop-Filled zero q {s} {fr} v fits z = record { free = fr; inv = v; more = λ p. ground arith }
init_loop-Filled (suc n) q {s} {fr} v fits z =
    let z' : (p : ℕ) → (q + 1) * 8192 ≤ p → cover (update fr 13 ((q * 8192) ∷ fr 13)) p ≡ 0 =
      λ p le. ground (arith, z p, cover-put 13 (q * 8192) p fr, covers-within (q * 8192) p) in
    let next : (q + 1) * 8192 ≡ q * 8192 + 8192 = omega arith in
    Filled-after q n (
      subst
        (λ i.
          Filled (init_loop n i (tag (q * 8192) 13 (listed_frame (q * 8192) 13 s)))
            (update fr 13 ((q * 8192) ∷ fr 13)) ((q + 1) * 8192) (n * 8192))
        next (init_loop-Filled n (q + 1) (first-Inv q n v fits z) (omega arith) z'))

abbrev pub blank : Mm
blank = record { free_list = λ k. none; pages = λ i. zero_page }

pub blank-Inv : Inv blank (λ k. [])
blank-Inv = record {
  books = record {
    linked = record { chains = λ k lt. refl; distinct = λ k. tt; apart = λ j k x i h. cc };
    tagged = λ k x i. cc;
    blocks = λ k x i. cc;
    listed = λ x e a r. cc;
  };
  once = λ p. omega (arith, no_cover 14 p);
}

-- The last loop writes no field that the invariant reads.
uncached : Mm → Mm
uncached s = record s {
  pages = λ i. if ltb i page_num then record (s.pages i) { cache_order = negsuc 0 } else s.pages i;
}

uncached-Books :
    {s : Mm} {fr : Free} {skip : ℕ → Bool} → Books s fr skip → Books (uncached s) fr skip
unfolding uncached
uncached-Books b =
    retag-Books b (record { heads = λ k. refl; next = λ y. ground arith; prev = λ y. ground arith })
      (λ k x i. record { idx = ground arith; order = ground arith; entry = ground arith })
      (λ x e q r. (q, ground arith))

-- After `mm_init` the invariant holds, and each of the frames of the memory is in one free block.
pub mm_init-Inv : (free : Free) × Inv mm_init free × ((p : ℕ) → cover free p ≡ within 0 page_num p)
unfolding mm_init uncached
mm_init-Inv =
    let f = init_loop-Filled 30 0 blank-Inv (omega arith) (λ p le. no_cover 14 p) in
    (
      f.free,
      record { books = uncached-Books f.inv.books; once = f.inv.once },
      λ p. omega (arith, f.more p, no_cover 14 p),
    )
