-- ===== src/Mm/System.antt =====
-- The page allocator of src/mm.c and its callers: any order of calls of `_alloc` and `_free`.
use nycu_osdi.Prelude.{
  ℕ, ◌+◌, ◌*◌, ◌/◌, ◌≤◌, ◌≡◌, ◌≢◌, ◌∙◌, inl, inr, sym, subst, none, some, List, [], ◌∷◌, ◌++◌,
  arith, ◌==◌, ◌||◌, ltb, if◌then◌else◌, Bool-cases,
}
use nycu_osdi.Prelude.Int.{pos}
use nycu_osdi.Mm.{Mm, page_size, max_alloc_size, alloc_pages, free_pages, get_order, round}
use nycu_osdi.Mm.Init.{mm_init}
use nycu_osdi.Mm.Alloc.{Granted, alloc_pages-by_order, alloc_pages-refuses}
use nycu_osdi.Mm.Boot.{mm_init-Inv}
use nycu_osdi.Mm.Books.{IsBlock, Inv, SameTag}
use nycu_osdi.Mm.Buddy.{Aligned}
use nycu_osdi.Mm.Cover.{covers, cover, covers_first}
use nycu_osdi.Mm.Lists.{Free}
use nycu_osdi.Mm.Release.{Owned, free_pages-GivenBack}

-- The allocator, and the blocks in the hands of its callers: first frame and order.
pub record System : Type 0 where
  pub mm : Mm
  pub live : List (ℕ × ℕ)

unfoldable pub cover_live : List (ℕ × ℕ) → ℕ → ℕ
cover_live [] p = 0
cover_live ((b, m) ∷ l) p = covers b m p + cover_live l p

-- How the callers see the result of `_alloc`: NULL is no block.
abbrev pub grown : ℕ → ℕ × Mm → List (ℕ × ℕ) → List (ℕ × ℕ)
grown size r live = if r.0 == 0 then live else (r.0 / page_size, get_order (round size)) ∷ live

-- The blocks in use are blocks of the memory, marked with their order and as taken.
abbrev pub Tags : Mm → List (ℕ × ℕ) → Type 0
Tags mm [] = Unit {0}
Tags mm ((b, m) ∷ l) =
    IsBlock b m × ((mm.pages b).order ≡ pos m) × ((mm.pages b).entry_in_list ≡ none) × Tags mm l

-- The allocator keeps the free frames in `fr`, and no frame is in two blocks, free or in use.
pub record Sound (mm : Mm) (live : List (ℕ × ℕ)) (fr : Free) : Type 0 where
  pub inv : Inv mm fr
  pub owned : Tags mm live
  pub once : (p : ℕ) → cover fr p + cover_live live p ≤ 1

cover_live-append :
    (xs ys : List (ℕ × ℕ)) (p : ℕ) → cover_live (xs ++ ys) p ≡ cover_live xs p + cover_live ys p
unfolding cover_live
cover_live-append [] ys p = omega arith
cover_live-append (x ∷ xs) ys p = omega (arith, cover_live-append xs ys p)

Tags-append : (mm : Mm) (xs ys : List (ℕ × ℕ)) → Tags mm xs → Tags mm ys → Tags mm (xs ++ ys)
Tags-append mm [] ys a b = b
Tags-append mm (x ∷ xs) ys a b = (a.0, a.1, a.2, Tags-append mm xs ys a.3 b)

Tags-split : (mm : Mm) (xs ys : List (ℕ × ℕ)) → Tags mm (xs ++ ys) → Tags mm xs × Tags mm ys
Tags-split mm [] ys a = (tt, a)
Tags-split mm (x ∷ xs) ys a = let (l, r) = Tags-split mm xs ys a.3 in ((a.0, a.1, a.2, l), r)

-- Tags survive a change that spares the first frames of the blocks.
Tags-same :
    {s t : Mm} (z : ℕ → ℕ) (l : List (ℕ × ℕ))
    → ((x : ℕ) → z x ≡ 0 → SameTag s t x)
    → ((p : ℕ) → z p + cover_live l p ≤ 1)
    → Tags s l
    → Tags t l
unfolding cover_live
Tags-same z [] same once a = a
Tags-same z ((b, m) ∷ l) same once a =
    let o = same b (omega (arith, once b, covers_first b m)) in
    (a.0, o.order ∙ a.1, o.entry ∙ a.2, Tags-same z l same (λ p. omega (arith, once p)) a.3)

-- The block of order 13 around the freed block has a frame that is in use elsewhere, so that the
-- merging stops below the largest order.
abbrev pub StopsBelowTop : Free → (b m : ℕ) → Type 0
StopsBelowTop fr b m =
    (top : ℕ)
    → Aligned top 13
    → covers top 13 b ≡ 1
    → (p : ℕ) × (covers top 13 p ≡ 1) × (cover fr p + covers b m p ≡ 0)

-- A call of a caller. `free` names a block in use, not the one at address 0, that `_free` does not
-- lose.
pub data Step (s t : System) : Type 0 where
  alloc :
      (size : ℕ)
      → t.mm ≡ (alloc_pages size s.mm).1
      → t.live ≡ grown size (alloc_pages size s.mm) s.live
      → Step s t
  free :
      (b m : ℕ) (xs ys : List (ℕ × ℕ))
      → b ≢ 0
      → ((fr : Free) → Inv s.mm fr → StopsBelowTop fr b m)
      → s.live ≡ xs ++ ((b, m) ∷ ys)
      → free_pages (b * page_size) s.mm ≡ some t.mm
      → t.live ≡ xs ++ ys
      → Step s t

pub data Reach : System → Type 0 where
  boot : {s : System} → s.mm ≡ mm_init → s.live ≡ [] → Reach s
  next : {s t : System} → Reach s → Step s t → Reach t

abbrev pub IsSound : System → Type 0
IsSound s = (fr : Free) × Sound s.mm s.live fr

some_inj : {a b : Mm} → some a ≡ some b → a ≡ b
some_inj e = cc

Granted-Sound :
    {mm mm' : Mm} {live : List (ℕ × ℕ)} {fr : Free} {m a : ℕ}
    → Sound mm live fr
    → Granted mm mm' fr m a
    → IsSound (record { mm = mm'; live = if a == 0 then live else (a / page_size, m) ∷ live })
unfolding cover_live
Granted-Sound {mm} {mm'} {live} {fr} {m} {a} v g =
    let kept = Tags-same {s = mm} {t = mm'} (λ p. cover fr p) live g.same v.once v.owned in
    elim (Bool-cases (a == 0)) [
      | inl null ↦ rw null (
        g.free,
        record { inv = g.inv; owned = kept; once = λ p. omega (arith, v.once p, g.conserved p) },
      )
      | inr ne ↦ rw ne (
          let at : a / page_size ≡ g.block = omega (arith, g.at) in
          subst (λ (q : ℕ). IsSound (record { mm = mm'; live = (q, m) ∷ live })) (sym at)
            (
              g.free,
              record {
                inv = g.inv;
                owned = (g.is_block, g.order_tag, g.entry_tag, kept);
                once = λ p. omega (arith, v.once p, g.conserved p);
              },
            ))
    ]

alloc-Sound :
    (size : ℕ) {mm : Mm} {live : List (ℕ × ℕ)} {fr : Free}
    → Sound mm live fr
    → IsSound
        (record { mm = (alloc_pages size mm).1; live = grown size (alloc_pages size mm) live })
alloc-Sound size {mm} {live} {fr} v = elim (Bool-cases (size == 0 || ltb max_alloc_size size)) [
  | inl bad ↦ rw (alloc_pages-refuses size mm (ground arith)) (fr, v)
  | inr good ↦ elim (alloc_pages-by_order size v.inv (ground arith) (ground arith)) [
    | inl (nothing, empty) ↦ rw nothing (fr, v)
    | inr g ↦ Granted-Sound v g
  ]
]

free-Sound :
    {mm mm' : Mm} (b m : ℕ) (xs ys : List (ℕ × ℕ)) {fr : Free}
    → Sound mm (xs ++ ((b, m) ∷ ys)) fr
    → b ≢ 0
    → StopsBelowTop fr b m
    → free_pages (b * page_size) mm ≡ some mm'
    → IsSound (record { mm = mm'; live = xs ++ ys })
unfolding cover_live
free-Sound {mm} {mm'} b m xs ys {fr} v ne busy e =
    let (before, after) = Tags-split mm xs ((b, m) ∷ ys) v.owned in
    let sum = λ (p : ℕ). cover_live-append xs ((b, m) ∷ ys) p in
    let sum' = λ (p : ℕ). cover_live-append xs ys p in
    let o : Owned mm fr b m = record {
      block = after.0;
      order = after.1;
      entry = after.2;
      once = λ p. omega (arith, v.once p, sum p);
    } in
    let (t, e', g) = free_pages-GivenBack v.inv o ne busy in
    let same : t ≡ mm' = some_inj (sym e' ∙ e) in
    let z : ℕ → ℕ = λ p. cover fr p + covers b m p in
    let tags =
      Tags-append t xs ys
        (Tags-same {s = mm} {t = t} z xs g.same (λ p. omega (arith, v.once p, sum p)) before)
        (Tags-same {s = mm} {t = t} z ys g.same (λ p. omega (arith, v.once p, sum p)) after.3) in
    subst (λ (q : Mm). IsSound (record { mm = q; live = xs ++ ys })) same
      (
        g.free,
        record {
          inv = g.inv;
          owned = tags;
          once = λ p. omega (arith, v.once p, g.conserved p, sum p, sum' p);
        },
      )

-- In every state that calls reach from boot, each frame is in at most one block, free or in use.
pub Reach-IsSound : (s : System) → Reach s → IsSound s
unfolding cover_live
Reach-IsSound s (boot e none_live) =
    let (fr, v, total) = mm_init-Inv in
    rw (e, none_live) (fr, record { inv = v; owned = tt; once = λ p. omega (arith, v.once p) })
Reach-IsSound t (next {s} r (Step.alloc size e live)) =
    let (fr, v) = Reach-IsSound s r in rw (e, live) (alloc-Sound size v)
Reach-IsSound t (next {s} r (Step.free b m xs ys ne busy held e live)) =
    let (fr, v) = Reach-IsSound s r in
    rw live (free-Sound b m xs ys (subst (λ l. Sound s.mm l fr) held v) ne (busy fr v.inv) e)
