-- ===== src/Mm/Merge.antt =====
-- One round of the loop of `_free` of src/mm.c: the block joins its buddy.
use Prim.Native.Nat.{min, max}
use mathlib.Core.Bool.{false≢true}
use nycu_osdi.Prelude.{
  ℕ, suc, ◌+◌, ◌^◌, ◌≤◌, ◌<◌, ◌≡◌, ◌≢◌, ◌⊎◌, ◌∙◌, refl, sym, ap, subst, Bool, true, false, none,
  some, arith, ◌==◌, ◌||◌, ==_of_ne, has, erase, update, inl, inr, pow-suc,
}
use native.Mathlib.Nat.{one-le-pow}
use nycu_osdi.Prelude.Int.{pos, negsuc, eq_ℤ, eq_ℤ_iff}
use nycu_osdi.Mm.{Mm, set_order, set_entry, rm_from_free_list, get_buddy}
use nycu_osdi.Mm.Buddy.{Aligned, get_buddy_lem}
use nycu_osdi.Mm.Books.{IsBlock, Books, SameTag, SameLinks, Linked-same, not_listed, rm-SameTag}
use nycu_osdi.Mm.Put.{take-Books, Tag-same, SameTag-trans}
use nycu_osdi.Mm.Cover.{covers, cover, covers_halves, covers_first, cover-take}
use nycu_osdi.Mm.Lists.{Free}

-- A block on its way back: on no list, and apart from all that are.
pub record Returning (s : Mm) (fr : Free) (b m : ℕ) : Type 0 where
  pub books : Books s fr (λ x. b == x)
  pub block : IsBlock b m
  pub order : (s.pages b).order ≡ pos m
  pub once : (p : ℕ) → cover fr p + covers b m p ≤ 1

-- Tags may change at frames that are on no list.
pub retag-Books :
    {s t : Mm} {fr : Free} {skip skip' : ℕ → Bool}
    → Books s fr skip
    → SameLinks s t
    → ((k x : ℕ) → has x (fr k) ≡ true → SameTag s t x)
    → ((x e : ℕ)
        → skip' x ≡ false
        → (t.pages x).entry_in_list ≡ some e
        → (skip x ≡ false) × ((s.pages x).entry_in_list ≡ some e))
    → Books t fr skip'
retag-Books b links same old = record {
  linked = Linked-same links b.linked;
  tagged = λ k x i. Tag-same (same k x i) (b.tagged k x i);
  blocks = b.blocks;
  listed = λ x e q r. let (q', r') = old x e q r in b.listed x e q' r';
}

none≢some : {x : ℕ} → none ≢ some x
none≢some e = cc

-- The writes of a round after the buddy has left its list.
abbrev pub join : (m small big : ℕ) → Mm → Mm
join m small big s = set_entry big none (set_order big (negsuc 0) (set_order small (pos (m + 1)) s))

module _ (m small big : ℕ) (s : Mm) where
  join-SameLinks : SameLinks s (join m small big s)
  join-SameLinks = record { heads = λ k. refl; next = λ y. ground arith; prev = λ y. ground arith }

  join-SameTag : (x : ℕ) → small ≢ x → big ≢ x → SameTag s (join m small big s) x
  join-SameTag x a b = record { idx = ground arith; order = ground arith; entry = ground arith }

  join-entry_big : ((join m small big s).pages big).entry_in_list ≡ none
  join-entry_big = ground arith

  join-order_small : small ≢ big → ((join m small big s).pages small).order ≡ pos (m + 1)
  join-order_small a = ground arith

pub buddy_apart : {s : Mm} {fr : Free} {b m : ℕ} → Returning s fr b m → b ≢ get_buddy b m
buddy_apart {b = b} {m = m} f q =
    absurd (omega (arith, (get_buddy_lem m b f.block.aligned).1, one-le-pow m 2 (omega arith)))

module _ {s : Mm} {fr : Free} {b m e : ℕ} (f : Returning s fr b m) (lt : m < 13)
    (free_buddy : (s.pages (get_buddy b m)).entry_in_list ≡ some e)
    (alike : eq_ℤ (s.pages (get_buddy b m)).order (s.pages b).order ≡ true) where
  abbrev pub buddy : ℕ
  buddy = get_buddy b m

  abbrev pub low : ℕ
  low = min b buddy

  abbrev pub high : ℕ
  high = max b buddy

  ne_buddy : b ≢ buddy
  ne_buddy = buddy_apart f

  -- The tests of the loop find the buddy on the list of the order of the block.
  buddy_listed : has buddy (fr m) ≡ true
  buddy_listed =
      let (k, i) = f.books.listed buddy e (==_of_ne b buddy ne_buddy) free_buddy in
      let tag = f.books.tagged k buddy i in
      let q : k ≡ m = same_order k (sym tag.order ∙ ((eq_ℤ_iff _ _).0 alike ∙ f.order)) in
      subst (λ j. has buddy (fr j) ≡ true) q i
    where
      same_order : (k : ℕ) → pos k ≡ pos m → k ≡ m
      same_order k q = cc

  pub entry_is_buddy : e ≡ buddy
  entry_is_buddy = same (sym free_buddy ∙ (f.books.tagged m buddy buddy_listed).entry)
    where
      same : some e ≡ some buddy → e ≡ buddy
      same q = cc

  abbrev pub unlinked : Mm
  unlinked = rm_from_free_list (some buddy) (pos m) s

  abbrev pub rest : Free
  rest = update fr m (erase buddy (fr m))

  unlinked-Books : Books unlinked rest (λ x. b == x || buddy == x)
  unlinked-Books =
      take-Books buddy m f.books
        (record {
          links = record { heads = λ k. refl; next = λ y. refl; prev = λ y. refl };
          others = λ x ne. rm-SameTag buddy m s x;
        })
        buddy_listed (λ x q. (ground arith, ground arith))

  -- The two blocks cover what the joined block covers.
  joined_covers : (p : ℕ) → covers low (suc m) p ≡ covers b m p + covers buddy m p
  joined_covers p = elim sides.2 [
    | inl q ↦ omega (
      arith,
      covers_halves b m p,
      ap (λ (v : ℕ). covers v (suc m) p) q,
      ap (λ (v : ℕ). covers v m p) (upper q),
    )
    | inr q ↦ omega (
      arith,
      covers_halves buddy m p,
      ap (λ (v : ℕ). covers v (suc m) p) (lower q),
      ap (λ (v : ℕ). covers v m p) (behind q),
    )
  ]
    where
      sides : Aligned low (suc m) × (high ≡ low + 2 ^ m) × ((low ≡ b) ⊎ (high ≡ b))
      sides = get_buddy_lem m b f.block.aligned

      upper : low ≡ b → buddy ≡ b + 2 ^ m
      upper q = omega (arith, sides.1)

      lower : high ≡ b → low ≡ buddy
      lower q = omega (arith, sides.1)

      behind : high ≡ b → b ≡ buddy + 2 ^ m
      behind q = omega (arith, sides.1)

  pub joined_once : (p : ℕ) → cover rest p + covers low (suc m) p ≡ cover fr p + covers b m p
  joined_once p = omega (arith, joined_covers p, cover-take m buddy p fr f.block.small buddy_listed)

  -- The freed block is a part of the joined one.
  pub low_holds : (p : ℕ) → covers b m p ≤ covers low (suc m) p
  low_holds p = omega (arith, joined_covers p)

  low-IsBlock : IsBlock low (suc m)
  low-IsBlock = record {
    small = omega arith;
    aligned = sides.0;
    fits = omega (arith, sides.1, f.block.fits, other.fits, pow-suc 2 m);
  }
    where
      sides : Aligned low (suc m) × (high ≡ low + 2 ^ m) × ((low ≡ b) ⊎ (high ≡ b))
      sides = get_buddy_lem m b f.block.aligned

      other : IsBlock buddy m
      other = f.books.blocks m buddy buddy_listed

  -- Neither frame is on a list any more.
  low_or_high : (x : ℕ) → b ≢ x → buddy ≢ x → (low ≢ x) × (high ≢ x)
  low_or_high x p q = (omega arith, omega arith)

  b_or_buddy : (x : ℕ) → low ≢ x → high ≢ x → (b ≢ x) × (buddy ≢ x)
  b_or_buddy x p q = (omega arith, omega arith)

  unfoldable pub joined : Mm
  joined = join m low high unlinked

  rest-keeps : (k x : ℕ) → has x (rest k) ≡ true → (b ≢ x) × (buddy ≢ x)
  rest-keeps k x i = (
    (λ q. false≢true (sym (not_listed b m unlinked-Books below k) ∙ (rw (← q) at i))),
    (λ q. false≢true (sym (not_listed buddy m unlinked-Books below' k) ∙ (rw (← q) at i))),
  )
    where
      below : (p : ℕ) → cover rest p + covers b m p ≤ 1
      below p = omega (arith, f.once p, cover-take m buddy p fr f.block.small buddy_listed)

      below' : (p : ℕ) → cover rest p + covers buddy m p ≤ 1
      below' p = omega (arith, f.once p, cover-take m buddy p fr f.block.small buddy_listed)

  joined-Books : Books joined rest (λ x. low == x)
  unfolding joined
  joined-Books =
      retag-Books unlinked-Books (join-SameLinks m low high unlinked)
        (λ k x i.
          let (p, q) = rest-keeps k x i in
          let (p', q') = low_or_high x p q in join-SameTag m low high unlinked x p' q')
        (λ x e q r.
          let not_low : low ≢ x = ground arith in
          let not_high : high ≢ x =
            λ w. none≢some (sym (join-entry_big m low high unlinked) ∙ (rw (← w) at r)) in
          let (p', q') = b_or_buddy x not_low not_high in
          (ground arith, sym (join-SameTag m low high unlinked x not_low not_high).entry ∙ r))

  pub joined-Returning : Returning joined rest low (suc m)
  unfolding joined
  joined-Returning = record {
    books = joined-Books;
    block = low-IsBlock;
    order = join-order_small m low high unlinked low_ne_high ∙ ap pos (omega arith);
    once = λ p. omega (arith, joined_once p, f.once p);
  }
    where
      low_ne_high : low ≢ high
      low_ne_high = omega (arith, ne_buddy)

  pub joined-same : (x : ℕ) → cover fr x + covers b m x ≡ 0 → SameTag s joined x
  unfolding joined
  joined-same x z =
      let (p, q) = low_or_high x away_b away_buddy in
      SameTag-trans x (rm-SameTag buddy m s x) (join-SameTag m low high unlinked x p q)
    where
      away_b : b ≢ x
      away_b q = absurd (omega (arith, covers_first b m, ap (λ (v : ℕ). covers b m v) q))

      away_buddy : buddy ≢ x
      away_buddy q = absurd (
          omega (
            arith,
            covers_first buddy m,
            ap (λ (v : ℕ). covers buddy m v) q,
            cover-take m buddy x fr f.block.small buddy_listed,
          ))
