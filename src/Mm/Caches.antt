-- ===== src/Mm/Caches.antt =====
-- `cache_order` of src/mm.c: `_alloc` and `_free` leave it to src/alloc.c.
use Prim.Native.Nat.{min, max}
use nycu_osdi.Prelude.{
  ℕ, zero, suc, ◌+◌, ◌-◌, ◌≡◌, ◌∙◌, refl, none, some, arith, ◌==◌, ◌||◌, ltb, update, Option, ◌^◌,
  Bool-cases, Option-cases, inl, inr,
}
use nycu_osdi.Prelude.Int.{ℤ, pos, negsuc, eq_ℤ}
use nycu_osdi.Mm.{
  Mm, max_order, max_alloc_size, get_buddy, get_order, round, set_idx, set_order, set_entry,
  add_to_free_list, rm_from_free_list, split_step, split_loop, take_block, alloc_loop, alloc_pages,
  give_back, merge, free_loop,
}
use nycu_osdi.Mm.Books.{Inv}
use nycu_osdi.Mm.Merge.{retag-Books}
use nycu_osdi.Mm.Lists.{Free}

-- Every page has the same `cache_order` in both states.
abbrev pub SameCaches : Mm → Mm → Type 0
SameCaches s t = (x : ℕ) → (t.pages x).cache_order ≡ (s.pages x).cache_order

add-SameCaches : (e k : ℕ) (s : Mm) → SameCaches s (add_to_free_list (some e) (pos k) s)
unfolding add_to_free_list
add-SameCaches e k s x = ground arith

rm-SameCaches : (e k : ℕ) (s : Mm) → SameCaches s (rm_from_free_list (some e) (pos k) s)
unfolding rm_from_free_list
rm-SameCaches e k s x = ground arith

idx-SameCaches : (i v : ℕ) (s : Mm) → SameCaches s (set_idx i v s)
idx-SameCaches i v s x = ground arith

order-SameCaches : (i : ℕ) (v : ℤ) (s : Mm) → SameCaches s (set_order i v s)
order-SameCaches i v s x = ground arith

entry-SameCaches : (i : ℕ) (v : Option ℕ) (s : Mm) → SameCaches s (set_entry i v s)
entry-SameCaches i v s x = ground arith

split_step-SameCaches : (i b : ℕ) (s : Mm) → SameCaches s (split_step i b s)
unfolding split_step
split_step-SameCaches i b s x =
    let s₁ = set_idx (b + 2 ^ i) ((s.pages b).idx + 2 ^ i) s in
    let s₂ = add_to_free_list (some (b + 2 ^ i)) (pos i) s₁ in
    let s₃ = set_order (s₂.pages (b + 2 ^ i)).idx (pos i) s₂ in
    entry-SameCaches (s₃.pages (b + 2 ^ i)).idx (some (b + 2 ^ i)) s₃ x
    ∙ (order-SameCaches (s₂.pages (b + 2 ^ i)).idx (pos i) s₂ x
        ∙ (add-SameCaches (b + 2 ^ i) i s₁ x ∙ idx-SameCaches (b + 2 ^ i) _ s x))

split_loop-SameCaches : (n m b : ℕ) (s : Mm) → SameCaches s (split_loop n m b s)
unfolding split_loop
split_loop-SameCaches zero m b s x = refl
split_loop-SameCaches (suc n) m b s x =
    split_loop-SameCaches n m b (split_step (m + n) b s) x ∙ split_step-SameCaches (m + n) b s x

take_block-SameCaches : (i m b : ℕ) (s : Mm) → SameCaches s (take_block i m b s).1
unfolding take_block
take_block-SameCaches i m b s x =
    let s₁ = rm_from_free_list (some b) (pos i) s in
    let s₂ = split_loop (i - m) m b s₁ in
    let s₃ = set_order (s₂.pages b).idx (pos m) s₂ in
    entry-SameCaches (s₃.pages b).idx none s₃ x
    ∙ (order-SameCaches (s₂.pages b).idx (pos m) s₂ x
        ∙ (split_loop-SameCaches (i - m) m b s₁ x ∙ rm-SameCaches b i s x))

alloc_loop-SameCaches : (n i m : ℕ) (s : Mm) → SameCaches s (alloc_loop n i m s).1
unfolding alloc_loop
alloc_loop-SameCaches zero i m s x = refl
alloc_loop-SameCaches (suc n) i m s x = elim (Option-cases (s.free_list i)) [
  | inl empty ↦ rw (empty, alloc_loop) (alloc_loop-SameCaches n (i + 1) m s x)
  | inr (b, found) ↦ rw (found, alloc_loop) (take_block-SameCaches i m b s x)
]

pub alloc_pages-SameCaches : (size : ℕ) (s : Mm) → SameCaches s (alloc_pages size s).1
unfolding alloc_pages
alloc_pages-SameCaches size s x = elim (Bool-cases (size == 0 || ltb max_alloc_size size)) [
  | inl bad ↦ rw bad refl
  | inr good ↦ rw good (
      alloc_loop-SameCaches (max_order - get_order (round size)) (get_order (round size))
        (get_order (round size)) s x)
]

give_back-SameCaches : (m b : ℕ) (s : Mm) → SameCaches s (give_back m b s)
unfolding give_back
give_back-SameCaches m b s x =
    let s₀ = set_idx b b s in
    let s₁ = add_to_free_list (some b) (pos m) s₀ in
    let s₂ = set_entry b (some b) s₁ in
    order-SameCaches b (pos m) s₂ x
    ∙ (entry-SameCaches b (some b) s₁ x ∙ (add-SameCaches b m s₀ x ∙ idx-SameCaches b b s x))

merge-SameCaches : (m b u e : ℕ) (s : Mm) → SameCaches s (merge m b u e s)
unfolding merge
merge-SameCaches m b u e s x =
    let s₁ = rm_from_free_list (some e) (pos m) s in
    let s₂ = set_order (min b u) (pos (m + 1)) s₁ in
    let s₃ = set_order (max b u) (negsuc 0) s₂ in
    entry-SameCaches (max b u) none s₃ x
    ∙ (order-SameCaches (max b u) (negsuc 0) s₂ x
        ∙ (order-SameCaches (min b u) (pos (m + 1)) s₁ x ∙ rm-SameCaches e m s x))

pub free_loop-SameCaches : (n m b u : ℕ) (s : Mm) → SameCaches s (free_loop n m b u s)
unfolding free_loop
free_loop-SameCaches zero m b u s x = refl
free_loop-SameCaches (suc n) m b u s x = elim (Option-cases (s.pages u).entry_in_list) [
  | inl none_there ↦ rw (none_there, free_loop) (give_back-SameCaches m b s x)
  | inr (e, listed) ↦ elim (Bool-cases (eq_ℤ (s.pages u).order (s.pages b).order)) [
    | inl same ↦
        rw (listed, same, free_loop)
          (free_loop-SameCaches n (m + 1) (min b u) (get_buddy (min b u) (m + 1)) (merge m b u e s)
              x
            ∙ merge-SameCaches m b u e s x)
    | inr other ↦ rw (listed, other, free_loop) (give_back-SameCaches m b s x)
  ]
]

-- The field `cache_order` is no part of the invariant.
pub set_cache_order-Inv :
    (i : ℕ) (v : ℤ) {s : Mm} {fr : Free}
    → Inv s fr
    → Inv (record s { pages = update s.pages i (record (s.pages i) { cache_order = v }) }) fr
set_cache_order-Inv i v {s} q = record {
  books =
      retag-Books q.books
        (record { heads = λ k. refl; next = λ y. ground arith; prev = λ y. ground arith })
        (λ k x j. record { idx = ground arith; order = ground arith; entry = ground arith })
        (λ x e a r. (a, ground arith));
  once = q.once;
}
