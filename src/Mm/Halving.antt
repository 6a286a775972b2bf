-- ===== src/Mm/Halving.antt =====
-- The splitting loop of `_alloc` of src/mm.c: a block is halved, and its rest goes to the lists.
use native.Mathlib.Nat.{one-le-pow}
use nycu_osdi.Prelude.{
  ℕ, zero, suc, ◌+◌, ◌*◌, ◌^◌, ◌≤◌, ◌≡◌, ◌≢◌, ◌∙◌, refl, sym, ap, subst, some, ◌∷◌, arith, ◌==◌,
  update, pow-suc, add-zero, add-suc,
}
use nycu_osdi.Prelude.Int.{pos}
use nycu_osdi.Mm.{Mm, set_idx, set_order, set_entry, add_to_free_list, split_step, split_loop}
use nycu_osdi.Mm.Books.{IsBlock, Books, SameTag, not_listed}
use nycu_osdi.Mm.Put.{
  Put-Books, SameTag-trans, listed_frame, idx-listed_frame, tag, tag-Put, tag_through_idx,
}
use nycu_osdi.Mm.Cover.{covers, cover, covers_halves, covers_first, cover-put}
use nycu_osdi.Mm.Lists.{Free}

-- A block in the hands of the allocator: on no list, and apart from all that are.
pub record Floating (s : Mm) (fr : Free) (b m : ℕ) : Type 0 where
  pub books : Books s fr (λ x. b == x)
  pub idx : (s.pages b).idx ≡ b
  pub block : IsBlock b m
  pub once : (p : ℕ) → cover fr p + covers b m p ≤ 1

half-IsBlock : {b i : ℕ} → IsBlock b (suc i) → IsBlock b i × IsBlock (b + 2 ^ i) i
half-IsBlock {b} {i} h =
    let (q, e) = h.aligned in
    let twice : q * 2 ^ suc i ≡ q * 2 * 2 ^ i =
      omega (arith, ap (λ (t : ℕ). q * t) (pow-suc 2 i)) in
    (
      record {
        small = omega (arith, h.small);
        aligned = (q * 2, e ∙ twice);
        fits = omega (arith, h.fits, pow-suc 2 i);
      },
      record {
        small = omega (arith, h.small);
        aligned = (q * 2 + 1, omega (arith, e ∙ twice));
        fits = omega (arith, h.fits, pow-suc 2 i);
      },
    )

-- One round of the loop puts the upper half on its list.
split_step_lem :
    (i b : ℕ) (s : Mm)
    → (s.pages b).idx ≡ b
    → split_step i b s ≡ tag (b + 2 ^ i) i (listed_frame (b + 2 ^ i) i s)
unfolding split_step
split_step_lem i b s own =
    ap
      (λ v.
        let n = b + 2 ^ i in
        let s₂ = add_to_free_list (some n) (pos i) (set_idx n (v + 2 ^ i) s) in
        let s₃ = set_order (s₂.pages n).idx (pos i) s₂ in set_entry (s₃.pages n).idx (some n) s₃)
      own
    ∙ tag_through_idx (b + 2 ^ i) i (listed_frame (b + 2 ^ i) i s)
        (idx-listed_frame (b + 2 ^ i) i s)

-- What a run of the loop leaves: the block, halved down to order `m`, and its rest on the lists.
pub record Halved (s t : Mm) (fr : Free) (b m top : ℕ) : Type 0 where
  pub free : Free
  pub floating : Floating t free b m
  pub conserved : (p : ℕ) → cover free p + covers b m p ≡ cover fr p + covers b top p
  pub same : (x : ℕ) → cover fr x + covers b top x ≡ 0 → SameTag s t x

zero_at :
    (fr : Free) (b m x n : ℕ)
    → cover fr x + covers b m x ≡ 0
    → n ≡ x
    → cover fr n + covers b m n ≡ 0
zero_at fr b m x n z e = rw e z

pub SameTag-refl : (s : Mm) (x : ℕ) → SameTag s s x
SameTag-refl s x = record { idx = refl; order = refl; entry = refl }

pub split_step-Halved :
    {s : Mm} {fr : Free} (b i : ℕ)
    → Floating s fr b (suc i)
    → Halved s (split_step i b s) fr b i (suc i)
split_step-Halved {s} {fr} b i f =
    let n = b + 2 ^ i in
    let (lower, upper) = half-IsBlock f.block in
    let put = tag-Put n i s upper.small in
    let part = (λ (p : ℕ). covers_halves b i p) in
    let new = not_listed n i f.books (λ p. omega (arith, f.once p, part p)) in
    let apart : b ≢ n = (λ e. absurd (omega (arith, one-le-pow i 2 (omega arith)))) in
    let away : (x : ℕ) → cover fr x + covers b (suc i) x ≡ 0 → n ≢ x =
      λ x z e. absurd (omega (arith, part n, covers_first n i, zero_at fr b (suc i) x n z e)) in
    rw (split_step_lem i b s f.idx) (record {
      free = update fr i (n ∷ fr i);
      floating = record {
        books = Put-Books n i f.books put upper new (λ x ne q. q);
        idx = (put.others b (λ e. apart (sym e))).idx ∙ f.idx;
        block = lower;
        once = λ p. omega (arith, cover-put i n p fr upper.small, part p, f.once p);
      };
      conserved = λ p. omega (arith, cover-put i n p fr upper.small, part p);
      same = λ x z. put.others x (away x z);
    })

Halved-trans :
    {s t u : Mm} {fr : Free} {b m mid top : ℕ} (one : Halved s t fr b mid top)
    → Halved t u one.free b m mid
    → Halved s u fr b m top
Halved-trans one rest = record {
  free = rest.free;
  floating = rest.floating;
  conserved = λ p. rest.conserved p ∙ one.conserved p;
  same = λ x z. SameTag-trans x (one.same x z) (rest.same x (one.conserved x ∙ z));
}

-- The loop, from order `m + rounds` down to `m`.
pub split_loop-Halved :
    (rounds : ℕ) {s : Mm} {fr : Free} (b m : ℕ)
    → Floating s fr b (m + rounds)
    → Halved s (split_loop rounds m b s) fr b m (m + rounds)
unfolding split_loop
split_loop-Halved zero {s} {fr} b m f =
    subst (λ v. Halved s s fr b m v) (sym (add-zero m))
      (record {
        free = fr;
        floating = subst (Floating s fr b) (add-zero m) f;
        conserved = λ p. refl;
        same = λ x z. SameTag-refl s x;
      })
split_loop-Halved (suc n) {s} {fr} b m f =
    let one = split_step-Halved b (m + n) (subst (Floating s fr b) (add-suc m n) f) in
    subst (λ v. Halved s (split_loop n m b (split_step (m + n) b s)) fr b m v) (sym (add-suc m n))
      (Halved-trans one (split_loop-Halved n b m one.floating))
