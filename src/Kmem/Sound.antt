-- ===== src/Kmem/Sound.antt =====
-- The invariant of the caches of src/alloc.c: where the chunks lie, free or in use.
use nycu_osdi.Prelude.{
  ℕ, ◌+◌, ◌*◌, ◌^◌, ◌≤◌, ◌<◌, ◌≡◌, ◌≢◌, ◌⊎◌, ◌∙◌, refl, sym, ap, subst, Bool, true, false, List,
  ◌∷◌, arith, ◌==◌, ◌||◌, ◌&&◌, ltb, Option, none, some, has, update, Bool-cases, ==_iff, inl, inr,
}
use native.Mathlib.Nat.{mul-le-mul_right}
use nycu_osdi.Prelude.Int.{pos}
use nycu_osdi.Mm.{Mm, page_num}
use nycu_osdi.Mm.Books.{Inv}
use nycu_osdi.Mm.Cover.{cover}
use nycu_osdi.Mm.Chain.{Distinct}
use nycu_osdi.Mm.Lists.{Free}
use nycu_osdi.Kmem.{Kmem, kmem_freelist_push, set_entry_prev, pop_head}
use nycu_osdi.Kmem.Linking.{Pool, Linked, push-Linked, pop-Linked}

-- The bytes of a chunk of a cache, with its entry.
abbrev pub width : ℕ → ℕ
width c = 2 ^ (c + 4) + 16

-- `e` is the address of a chunk of cache `c`: the chunk lies in a page of the cache, on the grid
-- of its chunks, and the page allocator does not count the page as free.
pub record Slot (m : Mm) (fr : Free) (c e : ℕ) : Type 0 where
  pub page : ℕ
  pub nth : ℕ
  pub at : e ≡ page * 4096 + nth * width c
  pub inside : nth * width c + width c ≤ 4096
  pub in_memory : page < page_num
  pub labelled : (m.pages page).cache_order ≡ pos (c + 4)
  pub taken : cover fr page ≡ 0

-- The chunks in the hands of the callers, by cache and address.
abbrev pub Used : Type 0
Used = ℕ → ℕ → Bool

-- The free lists are `l`; every chunk, free or in use, has its place, and none is both.
pub record Sound (s : Kmem) (fr : Free) (l : Pool) (used : Used) : Type 0 where
  pub inv : Inv s.mm fr
  pub sizes : (c : ℕ) → c < 4 → s.cache_size c ≡ 2 ^ (c + 4)
  pub linked : Linked s l
  pub places : (c e : ℕ) → c < 4 → (has e (l c) || used c e) ≡ true → Slot s.mm fr c e
  pub apart : (c e : ℕ) → c < 4 → used c e ≡ true → has e (l c) ≡ false

pos_inj : {a b : ℕ} → pos a ≡ pos b → a ≡ b
pos_inj e = cc

-- The cache of a chunk is the one of its page.
pub Slot-cache : {m : Mm} {fr : Free} {c d e : ℕ} → Slot m fr c e → Slot m fr d e → c ≡ d
Slot-cache {m} {c = c} {d = d} a b =
    let q : a.page ≡ b.page = omega (arith, a.at, b.at, a.inside, b.inside) in
    let same = pos_inj (sym a.labelled ∙ (ap (λ p. (m.pages p).cache_order) q ∙ b.labelled)) in
    omega (arith, same)

grid : (i j w : ℕ) → i < j → i * w + w ≤ j * w
grid i j w lt = let le = mul-le-mul_right w lt in omega (arith, le)

-- Two chunks are one, or they do not overlap.
pub Slot-Apart :
    {m : Mm} {fr : Free} {c d e f : ℕ}
    → Slot m fr c e
    → Slot m fr d f
    → e ≢ f
    → (e + width c ≤ f) ⊎ (f + width d ≤ e)
Slot-Apart {m} {c = c} {d = d} {e = e} {f = f} a b ne = elim (Bool-cases (a.page == b.page)) [
  | inr other ↦ ground (arith, a.at, b.at, a.inside, b.inside)
  | inl same ↦
      (let q : a.page ≡ b.page = (==_iff a.page b.page).0 same in
        let labels =
          pos_inj (sym a.labelled ∙ (ap (λ p. (m.pages p).cache_order) q ∙ b.labelled)) in
        let cd : c ≡ d = omega (arith, labels) in
        let b' = subst (λ k. f ≡ b.page * 4096 + b.nth * width k) (sym cd) b.at in
        subst (λ k. (e + width c ≤ f) ⊎ (f + width k ≤ e)) cd (beside q b'))
]
  where
    beside :
        a.page ≡ b.page
        → f ≡ b.page * 4096 + b.nth * width c
        → (e + width c ≤ f) ⊎ (f + width c ≤ e)
    beside q b' = elim (Bool-cases (ltb a.nth b.nth)) [
      | inl lt ↦ ground (arith, a.at, b', grid a.nth b.nth (width c), q)
      | inr ge ↦ elim (Bool-cases (ltb b.nth a.nth)) [
        | inl lt ↦ ground (arith, a.at, b', grid b.nth a.nth (width c), q)
        | inr ge' ↦
            (let n : a.nth ≡ b.nth = ground arith in absurd (ne (a.at ∙ (rw (q, n) (sym b')))))
      ]
    ]

-- The writes of the lists spare the rest of the state.
set_entry_prev-mm : (p q : Option ℕ) (s : Kmem) → (set_entry_prev p q s).mm ≡ s.mm
set_entry_prev-mm none q s = refl
set_entry_prev-mm (some e) q s = refl

set_entry_prev-size : (p q : Option ℕ) (s : Kmem) → (set_entry_prev p q s).cache_size ≡ s.cache_size
set_entry_prev-size none q s = refl
set_entry_prev-size (some e) q s = refl

pub push-mm : (e c : ℕ) (s : Kmem) → (kmem_freelist_push e c s).mm ≡ s.mm
unfolding kmem_freelist_push
push-mm e c s = set_entry_prev-mm (s.free_list c) (some e) _

pub push-size : (e c : ℕ) (s : Kmem) → (kmem_freelist_push e c s).cache_size ≡ s.cache_size
unfolding kmem_freelist_push
push-size e c s = set_entry_prev-size (s.free_list c) (some e) _

pub pop-mm : (e c : ℕ) (s : Kmem) → (pop_head e c s).mm ≡ s.mm
unfolding pop_head
pop-mm e c s = set_entry_prev-mm (update s.free_list c (s.next e) c) none _

pub pop-size : (e c : ℕ) (s : Kmem) → (pop_head e c s).cache_size ≡ s.cache_size
unfolding pop_head
pop-size e c s = set_entry_prev-size (update s.free_list c (s.next e) c) none _

-- A head in use from now on.
abbrev pub held : Used → (e c : ℕ) → Used
held used e c d x = ((c == d) && (e == x)) || used d x

both : (c d x e : ℕ) → ((c == d) && (x == e)) ≡ true → (c ≡ d) × (x ≡ e)
both c d x e h = (ground arith, ground arith)

module _ {s : Kmem} {fr : Free} {l : Pool} {used : Used} (v : Sound s fr l used) where
  pushed_old :
      (e c d x : ℕ) (used' : Used)
      → (has x (update l c (e ∷ l c) d) || used' d x) ≡ true
      → ((c == d) && (x == e)) ≡ false
      → (used' d x ≡ true → used d x ≡ true)
      → (has x (l d) || used d x) ≡ true
  pushed_old e c d x used' i other fewer = elim (Bool-cases (c == d)) [
    | inl q ↦ (let cd : c ≡ d = (==_iff c d).0 q in let lists : l c ≡ l d = ap l cd in ground arith)
    | inr q ↦ ground arith
  ]

  not_pushed :
      (e c d x : ℕ) → (c ≡ d → e ≢ x) → has x (l d) ≡ false → has x (update l c (e ∷ l c) d) ≡ false
  not_pushed e c d x ne h = elim (Bool-cases (c == d)) [
    | inl q ↦
        (let cd : c ≡ d = (==_iff c d).0 q in
          let lists : l c ≡ l d = ap l cd in let n = ne cd in ground arith)
    | inr q ↦ ground arith
  ]

  -- A new entry in a list; `used'` are the chunks in use afterwards.
  pub push-Sound :
      (e c : ℕ) (used' : Used)
      → c < 4
      → Slot s.mm fr c e
      → ((j : ℕ) → j < 4 → has e (l j) ≡ false)
      → ((d x : ℕ) → d < 4 → used' d x ≡ true → (used d x ≡ true) × (c ≡ d → e ≢ x))
      → Sound (kmem_freelist_push e c s) fr (update l c (e ∷ l c)) used'
  push-Sound e c used' lt slot new fewer = record {
    inv = rw (push-mm e c s) v.inv;
    sizes = rw (push-size e c s) v.sizes;
    linked = push-Linked e c s l lt v.linked new;
    places = λ d x small i. rw (push-mm e c s) (elim (Bool-cases ((c == d) && (x == e))) [
      | inl same ↦ (let (q, r) = both c d x e same in rw (← q, r) slot)
      | inr other ↦
          v.places d x small (pushed_old e c d x used' i other (λ j. (fewer d x small j).0))
    ]);
    apart = λ d x small i.
        let (old, ne) = fewer d x small i in not_pushed e c d x ne (v.apart d x small old);
  }

  popped_old :
      (e c d x : ℕ) (xs : List ℕ)
      → l c ≡ e ∷ xs
      → (has x (update l c xs d) || held used e c d x) ≡ true
      → (has x (l d) || used d x) ≡ true
  popped_old e c d x xs full i = elim (Bool-cases (c == d)) [
    | inl q ↦
        (let lists : l d ≡ e ∷ xs = ap l (sym ((==_iff c d).0 q)) ∙ full in rw lists (ground arith))
    | inr q ↦ ground arith
  ]

  held_apart :
      (e c d x : ℕ) (xs : List ℕ)
      → d < 4
      → l c ≡ e ∷ xs
      → held used e c d x ≡ true
      → has x (update l c xs d) ≡ false
  held_apart e c d x xs small full i = elim (Bool-cases (c == d)) [
    | inl q ↦
        (let lists : l d ≡ e ∷ xs = ap l (sym ((==_iff c d).0 q)) ∙ full in
          let unlike : Distinct (e ∷ xs) = subst Distinct lists (v.linked.distinct d small) in
          let old : used d x ≡ true → has x (e ∷ xs) ≡ false =
            λ u. rw lists at (v.apart d x small u) in
          ground (arith, unlike.0, old))
    | inr q ↦ ground (arith, v.apart d x small)
  ]

  -- The head of a list goes into use.
  pub pop-Sound :
      (e c : ℕ) (xs : List ℕ)
      → c < 4
      → l c ≡ e ∷ xs
      → Sound (pop_head e c s) fr (update l c xs) (held used e c)
  pop-Sound e c xs lt full = record {
    inv = rw (pop-mm e c s) v.inv;
    sizes = rw (pop-size e c s) v.sizes;
    linked = pop-Linked e c s l xs lt v.linked full;
    places = λ d x small i. rw (pop-mm e c s) (v.places d x small (popped_old e c d x xs full i));
    apart = λ d x small i. held_apart e c d x xs small full i;
  }
