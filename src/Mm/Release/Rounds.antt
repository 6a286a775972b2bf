-- ===== src/Mm/Release/Rounds.antt =====
-- The loop of `_free` of src/mm.c, which merges a block with its buddies.
use nycu_osdi.Prelude.{
  ℕ, zero, suc, ◌+◌, ◌≤◌, ◌<◌, ◌≡◌, ◌≢◌, ◌⊎◌, ◌∙◌, inl, inr, refl, sym, ap, subst, true, none, some,
  ◌∷◌, arith, ==_of_ne, ==_refl, has, false, update, Bool-cases, Option-cases, add-one,
}
use mathlib.Core.Bool.{false≢true}
use nycu_osdi.Prelude.Int.{pos, eq_ℤ}
use nycu_osdi.Mm.{Mm, get_buddy, merge, give_back, free_loop}
use nycu_osdi.Mm.Books.{Inv, SameTag, not_listed}
use nycu_osdi.Mm.Put.{Put-Books, tag'-Put, SameTag-trans}
use nycu_osdi.Mm.Cover.{covers, cover, covers_first, cover-put}
use nycu_osdi.Mm.Halving.{SameTag-refl}
use nycu_osdi.Mm.Lists.{Free}
use nycu_osdi.Mm.Merge.{
  Returning, rest, low, joined, joined-Returning, joined_once, joined-same, low_holds,
  entry_is_buddy, buddy_apart,
}

-- The block is free again, merged with what was free beside it: it is part of the free block `block` of
-- order `order`, whose buddy is no free block of that order.
pub record GivenBack (s t : Mm) (fr : Free) (b m : ℕ) : Type 0 where
  pub free : Free
  pub block : ℕ
  pub order : ℕ
  pub listed : (order < 13) × (has block (free order) ≡ true)
  pub around : (p : ℕ) → covers b m p ≤ covers block order p
  pub alone : has (get_buddy block order) (free order) ≡ false
  pub inv : Inv t free
  pub conserved : (p : ℕ) → cover free p ≡ cover fr p + covers b m p
  pub same : (x : ℕ) → cover fr x + covers b m x ≡ 0 → SameTag s t x

-- The block and what was free beside it make up a block of the largest order, `top`, which is on
-- no list afterwards.
pub record Lost (s t : Mm) (fr : Free) (b m : ℕ) : Type 0 where
  pub top : ℕ
  pub free : Free
  pub returning : Returning t free top 13
  pub around : (p : ℕ) → covers b m p ≤ covers top 13 p
  pub conserved : (p : ℕ) → cover free p + covers top 13 p ≡ cover fr p + covers b m p
  pub same : (x : ℕ) → cover fr x + covers b m x ≡ 0 → SameTag s t x

abbrev pub Freed : Mm → Mm → Free → (b m : ℕ) → Type 0
Freed s t fr b m = GivenBack s t fr b m ⊎ Lost s t fr b m

give_back-GivenBack :
    {s : Mm} {fr : Free} {b m : ℕ}
    → Returning s fr b m
    → m < 13
    → has (get_buddy b m) (fr m) ≡ false
    → GivenBack s (give_back m b s) fr b m
unfolding give_back
give_back-GivenBack {s} {fr} {b} {m} f lt alone =
    let put = tag'-Put b m s f.block.small in
    let new = not_listed b m f.books f.once in
    record {
      free = update fr m (b ∷ fr m);
      block = b;
      order = m;
      listed = (lt, ground (arith, ==_refl b));
      around = λ p. omega arith;
      alone = ground (arith, alone, ==_of_ne b (get_buddy b m) (buddy_apart f));
      inv = record {
        books = Put-Books b m f.books put f.block new (λ x ne q. ==_of_ne b x ne);
        once = λ p. omega (arith, cover-put m b p fr f.block.small, f.once p);
      };
      conserved = λ p. cover-put m b p fr f.block.small;
      same = λ x z. put.others x (away x z);
    }
  where
    away : (x : ℕ) → cover fr x + covers b m x ≡ 0 → b ≢ x
    away x z q = absurd (omega (arith, covers_first b m, ap (λ (v : ℕ). covers b m v) q))

-- The rounds after a merge.
Freed-after :
    {s t u : Mm} {fr free : Free} {b m c k : ℕ}
    → ((p : ℕ) → cover free p + covers c k p ≡ cover fr p + covers b m p)
    → ((x : ℕ) → cover fr x + covers b m x ≡ 0 → SameTag s t x)
    → ((p : ℕ) → covers b m p ≤ covers c k p)
    → Freed t u free c k
    → Freed s u fr b m
Freed-after sum same part (inl g) = inl (record {
  free = g.free;
  block = g.block;
  order = g.order;
  listed = g.listed;
  around = λ p. omega (arith, part p, g.around p);
  alone = g.alone;
  inv = g.inv;
  conserved = λ p. g.conserved p ∙ sum p;
  same = λ x z. SameTag-trans x (same x z) (g.same x (sum x ∙ z));
})
Freed-after sum same part (inr l) = inr (record {
  top = l.top;
  free = l.free;
  returning = l.returning;
  around = λ p. omega (arith, part p, l.around p);
  conserved = λ p. l.conserved p ∙ sum p;
  same = λ x z. SameTag-trans x (same x z) (l.same x (sum x ∙ z));
})

Lost-here : {s : Mm} {fr : Free} {b : ℕ} → Returning s fr b 13 → Freed s s fr b 13
Lost-here {s} {fr} {b} f = inr (record {
  top = b;
  free = fr;
  returning = f;
  around = λ p. omega arith;
  conserved = λ p. refl;
  same = λ x z. SameTag-refl s x;
})

merge-joined :
    {s : Mm} {fr : Free} {b m e : ℕ} (f : Returning s fr b m) (lt : m < 13)
    (found : (s.pages (get_buddy b m)).entry_in_list ≡ some e)
    (alike : eq_ℤ (s.pages (get_buddy b m)).order (s.pages b).order ≡ true)
    → merge m b (get_buddy b m) e s ≡ joined f lt found alike
unfolding merge joined
merge-joined {s} {b} {m} f lt found alike =
    ap (λ v. merge m b (get_buddy b m) v s) (entry_is_buddy f lt found alike)

none≢some : {x : ℕ} → none ≢ some x
none≢some e = cc

-- A buddy that no entry or another order marks is not on the list.
not_tagged :
    {s : Mm} {fr : Free} {b m : ℕ}
    → Returning s fr b m
    → ((s.pages (get_buddy b m)).entry_in_list ≡ none)
      ⊎ (eq_ℤ (s.pages (get_buddy b m)).order (s.pages b).order ≡ false)
    → has (get_buddy b m) (fr m) ≡ false
not_tagged {s} {fr} {b} {m} f other = elim (Bool-cases (has (get_buddy b m) (fr m))) [
  | inr away ↦ away
  | inl there ↦
      (let tag = f.books.tagged m (get_buddy b m) there in
        elim other [
          | inl free ↦ absurd (none≢some (sym free ∙ tag.entry))
          | inr differ ↦ absurd (
              false≢true (
                sym differ
                ∙ ap (λ o. eq_ℤ o (s.pages b).order) tag.order
                ∙ ap (λ o. eq_ℤ (pos m) o) f.order
                ∙ ==_refl m))
        ])
]

-- The loop, from order `m` with `n` rounds left.
pub free_loop-Freed :
    (n : ℕ) {s : Mm} {fr : Free} {b m : ℕ}
    → m + n ≡ 13
    → Returning s fr b m
    → Freed s (free_loop n m b (get_buddy b m) s) fr b m
unfolding free_loop
free_loop-Freed zero {s} {fr} {b} {m} e f =
    let q : m ≡ 13 = omega arith in
    subst (Freed s s fr b) (sym q) (Lost-here (subst (Returning s fr b) q f))
free_loop-Freed (suc n) {s} {fr} {b} {m} e f =
    elim (Option-cases (s.pages (get_buddy b m)).entry_in_list) [
      | inl free ↦
          rw (free, free_loop) (inl (give_back-GivenBack f (omega arith) (not_tagged f (inl free))))
      | inr (i, found) ↦
          elim (Bool-cases (eq_ℤ (s.pages (get_buddy b m)).order (s.pages b).order)) [
            | inl alike ↦
                let lt : m < 13 = omega arith in
                let j = joined f lt found alike in
                let next =
                  subst (Returning j (rest f lt found alike) (low f lt found alike))
                    (sym (add-one m)) (joined-Returning f lt found alike) in
                let sum = λ (p : ℕ).
                  subst
                    (λ k.
                      cover (rest f lt found alike) p + covers (low f lt found alike) k p
                      ≡ cover fr p + covers b m p)
                    (sym (add-one m)) (joined_once f lt found alike p) in
                let part = λ (p : ℕ).
                  subst (λ k. covers b m p ≤ covers (low f lt found alike) k p) (sym (add-one m))
                    (low_holds f lt found alike p) in
                rw (found, alike, free_loop, merge-joined f lt found alike)
                  (Freed-after sum (joined-same f lt found alike) part
                    (free_loop-Freed n {m = m + 1} (omega arith) next))
            | inr other ↦
                rw (found, other, free_loop)
                  (inl (give_back-GivenBack f (omega arith) (not_tagged f (inr other))))
          ]
    ]
