-- ===== src/Mm/Alloc/Mark.antt =====
-- `_alloc` of src/mm.c: the marks of a block that is taken.
use nycu_osdi.Prelude.{
  ℕ, ◌-◌, ◌*◌, ◌≡◌, ◌≢◌, ◌∙◌, refl, sym, ap, true, none, some, arith, has, ==_of_ne,
}
use mathlib.Core.Bool.{false≢true}
use nycu_osdi.Prelude.Int.{pos}
use nycu_osdi.Mm.{Mm, set_order, set_entry, page_size, rm_from_free_list, split_loop, take_block}
use nycu_osdi.Mm.Books.{Inv, SameTag, SameLinks, Linked-same, not_listed}
use nycu_osdi.Mm.Put.{Tag-same}
use nycu_osdi.Mm.Lists.{Free}
use nycu_osdi.Mm.Halving.{Floating}

-- The last writes of `_alloc`: the block is marked as taken.
abbrev mark : ℕ → ℕ → Mm → Mm
mark b order s = set_entry b none (set_order b (pos order) s)

pub mark-SameTag : (b m : ℕ) (s : Mm) (x : ℕ) → b ≢ x → SameTag s (mark b m s) x
mark-SameTag b m s x ne = record { idx = ground arith; order = ground arith; entry = ground arith }

mark-SameLinks : (b m : ℕ) (s : Mm) → SameLinks s (mark b m s)
mark-SameLinks b m s = record {
  heads = λ k. refl;
  next = λ y. ground arith;
  prev = λ y. ground arith;
}

none≢some : {x : ℕ} → none ≢ some x
none≢some e = cc

pub mark-entry : (b m : ℕ) (s : Mm) → ((mark b m s).pages b).entry_in_list ≡ none
mark-entry b m s = ground arith

pub mark-Inv : {s : Mm} {fr : Free} (b m : ℕ) → Floating s fr b m → Inv (mark b m s) fr
mark-Inv {s} {fr} b m f = record {
  books = record {
    linked = Linked-same (mark-SameLinks b m s) f.books.linked;
    tagged = λ k x i. Tag-same (mark-SameTag b m s x (unlisted k x i)) (f.books.tagged k x i);
    blocks = f.books.blocks;
    listed = λ x e q r.
        let ne : b ≢ x = λ same. none≢some (sym (mark-entry b m s) ∙ (rw (← same) at r)) in
        f.books.listed x e (==_of_ne b x ne) (sym (mark-SameTag b m s x ne).entry ∙ r);
  };
  once = λ p. omega (arith, f.once p);
}
  where
    unlisted : (k x : ℕ) → has x (fr k) ≡ true → b ≢ x
    unlisted k x i e = false≢true (sym (not_listed b m f.books f.once k) ∙ (rw (← e) at i))

pub mark-order : (b m : ℕ) (s : Mm) → ((mark b m s).pages b).order ≡ pos m
mark-order b m s = ground arith

-- The last writes, made through the number that the frame holds.
abbrev finish : ℕ → ℕ → Mm → ℕ × Mm
finish b m a =
    let s₃ = set_order (a.pages b).idx (pos m) a in
    let s₄ = set_entry (s₃.pages b).idx none s₃ in ((s₄.pages b).idx * page_size, s₄)

finish_lem : (b m : ℕ) (a : Mm) → (a.pages b).idx ≡ b → finish b m a ≡ (b * page_size, mark b m a)
finish_lem b m a e =
    ap
      (λ i.
        let s₃ = set_order i (pos m) a in
        let s₄ = set_entry (s₃.pages b).idx none s₃ in ((s₄.pages b).idx * page_size, s₄))
      e
    ∙ (ap
          (λ i.
            let s₄ = set_entry i none (set_order b (pos m) a) in ((s₄.pages b).idx * page_size, s₄))
          ordered
        ∙ ap (λ (i : ℕ). (i * page_size, mark b m a)) marked)
  where
    ordered : ((set_order b (pos m) a).pages b).idx ≡ b
    ordered = ground arith

    marked : ((mark b m a).pages b).idx ≡ b
    marked = ground arith

pub take_block_lem :
    (i m b : ℕ) (s : Mm)
    → ((split_loop (i - m) m b (rm_from_free_list (some b) (pos i) s)).pages b).idx ≡ b
    → take_block i m b s
      ≡ (b * page_size, mark b m (split_loop (i - m) m b (rm_from_free_list (some b) (pos i) s)))
unfolding take_block
take_block_lem i m b s e =
    finish_lem b m (split_loop (i - m) m b (rm_from_free_list (some b) (pos i) s)) e
