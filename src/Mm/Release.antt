-- ===== src/Mm/Release.antt =====
-- `_free` of src/mm.c: what it gives back to the free lists, and the blocks that it loses.
pub mod Rounds
use native.Mathlib.Nat.{one-le-pow}
use nycu_osdi.Prelude.{
  ℕ, ◌+◌, ◌-◌, ◌*◌, ◌≤◌, ◌<◌, ◌≡◌, ◌≢◌, ◌∙◌, inl, inr, refl, ap, false, none, some, arith, ◌==◌,
  leb,
}
use nycu_osdi.Prelude.Int.{pos}
use nycu_osdi.Mm.{
  Mm, page_num, page_size, frame_of, get_buddy, free_loop, free_block, free_frame, free_pages,
}
use nycu_osdi.Mm.Buddy.{Aligned}
use nycu_osdi.Mm.Books.{IsBlock, Inv}
use nycu_osdi.Mm.Cover.{covers, cover, covers_first, covers-le-one}
use nycu_osdi.Mm.Lists.{Free}
use nycu_osdi.Mm.Merge.{Returning}
use nycu_osdi.Mm.Release.Rounds.{GivenBack, Freed, free_loop-Freed}

-- A block as its owner holds it: on no list, marked with its order, and apart from all free blocks.
pub record Owned (s : Mm) (fr : Free) (b m : ℕ) : Type 0 where
  pub block : IsBlock b m
  pub order : (s.pages b).order ≡ pos m
  pub entry : (s.pages b).entry_in_list ≡ none
  pub once : (p : ℕ) → cover fr p + covers b m p ≤ 1

Owned-Returning : {s : Mm} {fr : Free} {b m : ℕ} → Inv s fr → Owned s fr b m → Returning s fr b m
Owned-Returning {b} v o = record {
  books = record {
    linked = v.books.linked;
    tagged = v.books.tagged;
    blocks = v.books.blocks;
    listed = λ x e q r. v.books.listed x e refl r;
  };
  block = o.block;
  order = o.order;
  once = o.once;
}

pub frame_of-address : (b : ℕ) → b < page_num → frame_of (b * page_size) ≡ b
frame_of-address b h = omega arith

free_frame_lem :
    {s : Mm} {fr : Free} {b m : ℕ}
    → Owned s fr b m
    → b < page_num
    → free_frame b s ≡ some (free_loop (13 - m) m b (get_buddy b m) s)
unfolding free_frame free_block
free_frame_lem {s} {b} o inside =
    let in_range : leb page_num b ≡ false = ground arith in
    rw (in_range, o.entry, free_frame) (rw (o.order, free_block) refl)

pub Owned-inside : {s : Mm} {fr : Free} {b m : ℕ} → Owned s fr b m → b < page_num
Owned-inside {m} o = omega (arith, o.block.fits, one-le-pow m 2 (omega arith))

-- `_free` at the address of a block reaches the loop at the frame of the block.
pub free_pages_lem :
    {s : Mm} {fr : Free} {b m : ℕ}
    → Owned s fr b m
    → b ≢ 0
    → free_pages (b * page_size) s ≡ some (free_loop (13 - m) m b (get_buddy b m) s)
unfolding free_pages
free_pages_lem {s} {b} {m} o ne =
    let not_null : (b * page_size == 0) ≡ false = ground arith in
    rw not_null (
      ap (λ (i : ℕ). free_frame i s) (frame_of-address b (Owned-inside o))
      ∙ free_frame_lem o (Owned-inside o))

-- Freeing an owned block, other than the one at address 0, is defined, and either gives the block
-- back, merged with what was free beside it, or loses it with a whole block of the largest order.
pub free_pages-Freed :
    {s : Mm} {fr : Free} {b m : ℕ}
    → Inv s fr
    → Owned s fr b m
    → b ≢ 0
    → (t : Mm) × (free_pages (b * page_size) s ≡ some t) × Freed s t fr b m
free_pages-Freed {s} {b} {m} v o ne = (
  free_loop (13 - m) m b (get_buddy b m) s,
  free_pages_lem o ne,
  free_loop-Freed (13 - m) (omega (arith, o.block.small)) (Owned-Returning v o),
)

-- A frame of the block of order 13 around `b` that is neither free nor in the freed block keeps that
-- one from being lost: `_free` gives it back.
pub free_pages-GivenBack :
    {s : Mm} {fr : Free} {b m : ℕ}
    → Inv s fr
    → Owned s fr b m
    → b ≢ 0
    → ((top : ℕ)
        → Aligned top 13
        → covers top 13 b ≡ 1
        → (p : ℕ) × (covers top 13 p ≡ 1) × (cover fr p + covers b m p ≡ 0))
    → (t : Mm) × (free_pages (b * page_size) s ≡ some t) × GivenBack s t fr b m
free_pages-GivenBack {b = b} {m = m} v o ne busy =
    let (t, e, r) = free_pages-Freed v o ne in
    (
      t,
      e,
      elim r [
        | inl g ↦ g
        | inr l ↦
            let (p, c, z) =
              busy l.top l.returning.block.aligned
                (omega (arith, l.around b, covers_first b m, covers-le-one l.top 13 b)) in
            absurd (omega (arith, l.conserved p))
      ],
    )

-- A block of the largest order is never given back: `_free` returns with nothing changed.
pub free_pages-top :
    {s : Mm} {fr : Free} {b : ℕ} → Owned s fr b 13 → b ≢ 0 → free_pages (b * page_size) s ≡ some s
unfolding free_loop
free_pages-top {s} {b} o ne = free_pages_lem o ne ∙ loop
  where
    loop : some (free_loop 0 13 b (get_buddy b 13) s) ≡ some s
    loop = refl
