-- ===== src/Mm/Alloc.antt =====
-- `_alloc` of src/mm.c: what it takes from the free lists.
pub mod Mark
use native.Mathlib.Nat.{le_refl}
use nycu_osdi.Prelude.{
  ℕ, zero, suc, ◌+◌, ◌-◌, ◌*◌, ◌/◌, ◌^◌, ◌≤◌, ◌<◌, ◌≡◌, ◌≢◌, ◌⊎◌, ◌∙◌, refl, sym, subst, true,
  false, none, some, arith, ◌==◌, ◌||◌, ltb, has, erase, update, Bool-cases, Option-cases, inl, inr,
  ==_refl,
}
use nycu_osdi.Mm.Order.{Least, get_order-Least, round_lem}
use nycu_osdi.Prelude.Int.{pos}
use nycu_osdi.Mm.{
  Mm, page_size, max_alloc_size, rm_from_free_list, split_loop, take_block, alloc_loop, alloc_pages,
  get_order, round,
}
use nycu_osdi.Mm.Alloc.Mark.{mark-SameTag, mark-Inv, mark-order, mark-entry, take_block_lem}
use nycu_osdi.Mm.Books.{IsBlock, Inv, SameTag, rm-SameTag}
use nycu_osdi.Mm.Put.{Taken, take-Books, SameTag-trans}
use nycu_osdi.Mm.Chain.{head_in}
use nycu_osdi.Mm.Cover.{covers, cover, covers_first, cover-take}
use nycu_osdi.Mm.Lists.{Free, nexts, prevs}
use nycu_osdi.Mm.Halving.{Floating, Halved, split_loop-Halved}

-- What `_alloc` grants: a block of the order asked for, off the lists.
pub record Granted (s t : Mm) (fr : Free) (order address : ℕ) : Type 0 where
  pub block : ℕ
  pub at : address ≡ block * page_size
  pub is_block : IsBlock block order
  pub free : Free
  pub inv : Inv t free
  pub conserved : (p : ℕ) → cover free p + covers block order p ≡ cover fr p
  pub order_tag : (t.pages block).order ≡ pos order
  pub entry_tag : (t.pages block).entry_in_list ≡ none
  pub same : (x : ℕ) → cover fr x ≡ 0 → SameTag s t x

-- Taking the head of a list that is not empty.
module _ {s : Mm} {fr : Free} (v : Inv s fr) (i b : ℕ) (lt : i < 14)
    (head : s.free_list i ≡ some b) where
  on_list : has b (fr i) ≡ true
  on_list =
      head_in (nexts s) (prevs s) b none (s.free_list i) (fr i) (v.books.linked.chains i lt)
        (rw (head, ==_refl b))

  abbrev popped : Mm
  popped = rm_from_free_list (some b) (pos i) s

  popped-Taken : Taken s popped b i
  popped-Taken = record {
    links = record { heads = λ k. refl; next = λ y. refl; prev = λ y. refl };
    others = λ x ne. rm-SameTag b i s x;
  }

  popped-Floating : Floating popped (update fr i (erase b (fr i))) b i
  popped-Floating = record {
    books = take-Books b i v.books popped-Taken on_list (λ x q. (ground arith, refl));
    idx = (rm-SameTag b i s b).idx ∙ (v.books.tagged i b on_list).idx;
    block = v.books.blocks i b on_list;
    once = λ p. omega (arith, cover-take i b p fr lt on_list, v.once p);
  }

  halved :
      (m : ℕ)
      → m ≤ i
      → Halved popped (split_loop (i - m) m b popped) (update fr i (erase b (fr i))) b m i
  halved m le =
      let e : m + (i - m) ≡ i = omega arith in
      subst
        (λ v. Halved popped (split_loop (i - m) m b popped) (update fr i (erase b (fr i))) b m v) e
        (split_loop-Halved (i - m) b m
          (subst (Floating popped (update fr i (erase b (fr i))) b) (sym e) popped-Floating))

  -- `take_block` on such a list grants a block of order `m`.
  take_block-Granted :
      (m : ℕ) → m ≤ i → Granted s (take_block i m b s).1 fr m (take_block i m b s).0
  take_block-Granted m le =
      let h = halved m le in
      let done = split_loop (i - m) m b popped in
      subst (λ (r : ℕ × Mm). Granted s r.1 fr m r.0) (sym (take_block_lem i m b s h.floating.idx))
        (record {
          block = b;
          at = refl;
          is_block = h.floating.block;
          free = h.free;
          inv = mark-Inv b m h.floating;
          conserved = λ p. h.conserved p ∙ cover-take i b p fr lt on_list;
          order_tag = mark-order b m done;
          entry_tag = mark-entry b m done;
          same = λ x z.
              let apart : b ≢ x = not_covered x z in
              SameTag-trans x (rm-SameTag b i s x) (
                SameTag-trans x (h.same x (cover-take i b x fr lt on_list ∙ z))
                  (mark-SameTag b m done x apart));
        })
    where
      not_covered : (x : ℕ) → cover fr x ≡ 0 → b ≢ x
      not_covered x z e =
          absurd (omega (arith, cover-take i b b fr lt on_list, covers_first b i, rw (← e) at z))

-- No list from order `i` on has a block.
abbrev pub NoneFrom : ℕ → Mm → Type 0
NoneFrom i s = (k : ℕ) → i ≤ k → k < 14 → s.free_list k ≡ none

-- The two outcomes of `_alloc` for a request of order `m`.
abbrev pub Served : Mm → Free → (m : ℕ) → ℕ × Mm → Type 0
Served s fr m r = ((r ≡ (0, s)) × NoneFrom m s) ⊎ Granted s r.1 fr m r.0

NoneFrom-extend : (i : ℕ) (s : Mm) → s.free_list i ≡ none → NoneFrom (i + 1) s → NoneFrom i s
NoneFrom-extend i s e rest k le lt = elim (Bool-cases (i == k)) [
  | inl same ↦ (let q : i ≡ k = ground arith in rw (← q) e)
  | inr ne ↦ rest k (ground arith) lt
]

-- The search from order `i` on.
alloc_loop-Served :
    (n i m : ℕ) {s : Mm} {fr : Free}
    → Inv s fr
    → i + n ≡ 14
    → m ≤ i
    → ((alloc_loop n i m s ≡ (0, s)) × NoneFrom i s)
      ⊎ Granted s (alloc_loop n i m s).1 fr m (alloc_loop n i m s).0
unfolding alloc_loop
alloc_loop-Served zero i m v e le = inl (refl, λ k a b. absurd (omega arith))
alloc_loop-Served (suc n) i m {s} {fr} v e le = elim (Option-cases (s.free_list i)) [
  | inl empty ↦
      rw (empty, alloc_loop)
        (elim (alloc_loop-Served n (i + 1) m v (omega arith) (omega arith)) [
          | inl (done, rest) ↦ inl (done, NoneFrom-extend i s empty rest)
          | inr granted ↦ inr granted
        ])
  | inr (b, found) ↦
      rw (found, alloc_loop) (inr (take_block-Granted v i b (omega arith) found m le))
]

-- The outcome by the order that `get_order` gives.
pub alloc_pages-by_order :
    (size : ℕ) {s : Mm} {fr : Free}
    → Inv s fr
    → 0 < size
    → size ≤ max_alloc_size
    → Served s fr (get_order (round size)) (alloc_pages size s)
unfolding alloc_pages
alloc_pages-by_order size {s} {fr} v low high =
    rw guard
      (alloc_loop-Served (14 - m) m m v (omega (arith, (get_order-Least size high).1)) (le_refl m))
  where
    m : ℕ
    m = get_order (round size)

    guard : (size == 0 || ltb max_alloc_size size) ≡ false
    guard = ground arith

-- Blocks of this order are the least that hold so many bytes.
pub record Fits (size m : ℕ) : Type 0 where
  pub enough : size ≤ 2 ^ m * page_size
  pub least : (j : ℕ) → j < m → 2 ^ j * page_size < size

pages_of : (size m : ℕ) → Least (round size / page_size) 0 m → Fits size m
pages_of size m l = record {
  enough = omega (arith, l.enough, round_lem size);
  least = λ j lt. omega (arith, l.least j (omega arith) lt, round_lem size);
}

-- For a size from 1 to the largest block, `_alloc` either grants a block of the least order that
-- holds the size, or returns NULL, changes nothing, and no list has a block of that order or more.
pub alloc_pages-Served :
    (size : ℕ) {s : Mm} {fr : Free}
    → Inv s fr
    → 0 < size
    → size ≤ max_alloc_size
    → (m : ℕ) × Fits size m × Served s fr m (alloc_pages size s)
alloc_pages-Served size v low high = (
  get_order (round size),
  pages_of size (get_order (round size)) (get_order-Least size high).0,
  alloc_pages-by_order size v low high,
)

-- A size of 0, or above the largest block, is refused with NULL.
pub alloc_pages-refuses :
    (size : ℕ) (s : Mm) → (size ≡ 0) ⊎ (max_alloc_size < size) → alloc_pages size s ≡ (0, s)
unfolding alloc_pages
alloc_pages-refuses size s h = rw guard
  where
    guard : (size == 0 || ltb max_alloc_size size) ≡ true
    guard = ground arith
