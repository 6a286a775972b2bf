-- ===== src/Mm/Put.antt =====
-- Putting a frame on a free list of src/mm.c and taking one off: what becomes of the invariant.
use nycu_osdi.Prelude.{
  ℕ, ◌<◌, ◌≡◌, ◌≢◌, ◌∙◌, refl, sym, ap, Bool, true, false, some, ◌∷◌, arith, ◌==◌, has, has-erase,
  erase, update, Bool-cases, inl, inr,
}
use mathlib.Core.Bool.{false≢true}
use mathlib.Core.Logic.{◌⊎◌}
use nycu_osdi.Prelude.Int.{pos}
use nycu_osdi.Mm.{Mm, set_idx, set_order, set_entry, add_to_free_list, rm_from_free_list}
use nycu_osdi.Mm.Chain.{has-erase_self, has-erase_ne}
use nycu_osdi.Mm.Lists.{Free, Linked, add-heads, add-nexts, add-prevs, add-Linked, rm-Linked}
use nycu_osdi.Mm.Books.{IsBlock, Tag, Books, SameTag, SameLinks, add-SameTag, Linked-same}

-- `t` is `s` with frame `n` put on the list of order `k` and tagged so.
pub record Put (s t : Mm) (n k : ℕ) : Type 0 where
  pub links : SameLinks (add_to_free_list (some n) (pos k) s) t
  pub tag : Tag t n k
  pub others : (x : ℕ) → n ≢ x → SameTag s t x

-- Who is on the lists after a block is put on one, and after one is taken off.
has-put :
    (fr : Free) (n k j x : ℕ)
    → has x (update fr k (n ∷ fr k) j) ≡ true
    → ((n ≡ x) × (k ≡ j)) ⊎ (has x (fr j) ≡ true)
has-put fr n k j x i = elim (Bool-cases (k == j)) [
  | inl e ↦ elim (Bool-cases (x == n)) [
    | inl q ↦ inl (ground arith, ground arith)
    | inr q ↦ inr (ground arith)
  ]
  | inr e ↦ inr (ground arith)
]

put-has : (fr : Free) (n k j x : ℕ) → has x (fr j) ≡ true → has x (update fr k (n ∷ fr k) j) ≡ true
put-has fr n k j x i = ground arith

pub Tag-same : {s t : Mm} {x k : ℕ} → SameTag s t x → Tag s x k → Tag t x k
Tag-same o q = record { idx = o.idx ∙ q.idx; order = o.order ∙ q.order; entry = o.entry ∙ q.entry }

put-tagged :
    {s t : Mm} {fr : Free} {skip : ℕ → Bool} (n k : ℕ)
    → Books s fr skip
    → Put s t n k
    → ((j : ℕ) → has n (fr j) ≡ false)
    → (j x : ℕ) → has x (update fr k (n ∷ fr k) j) ≡ true
    → Tag t x j
put-tagged {fr} n k b p new j x i = elim (has-put fr n k j x i) [
  | inl (e, q) ↦ rw (← e, ← q) p.tag
  | inr m ↦ Tag-same (p.others x (λ e. false≢true (sym (new j) ∙ rw (← e) at m))) (b.tagged j x m)
]

-- The links do not depend on the tags.
SameLinks-set_idx :
    (n k : ℕ) (s : Mm)
    → k < 14
    → SameLinks
        (add_to_free_list (some n) (pos k) s)
        (add_to_free_list (some n) (pos k) (set_idx n n s))
SameLinks-set_idx n k s lt = record {
  heads = λ j. add-heads n k (set_idx n n s) lt j ∙ sym (add-heads n k s lt j);
  next = λ y. ground (arith, add-nexts n k (set_idx n n s) lt y, add-nexts n k s lt y);
  prev = λ y. ground (arith, add-prevs n k (set_idx n n s) lt y, add-prevs n k s lt y);
}

-- Both writes of the tag, in either order.
abbrev pub tag : ℕ → ℕ → Mm → Mm
tag n k s = set_entry n (some n) (set_order n (pos k) s)

abbrev pub tag' : ℕ → ℕ → Mm → Mm
tag' n k s = set_order n (pos k) (set_entry n (some n) s)

SameLinks-trans : {s t u : Mm} → SameLinks s t → SameLinks t u → SameLinks s u
SameLinks-trans a b = record {
  heads = λ k. b.heads k ∙ a.heads k;
  next = λ y. b.next y ∙ a.next y;
  prev = λ y. b.prev y ∙ a.prev y;
}

pub SameTag-trans : {s t u : Mm} (x : ℕ) → SameTag s t x → SameTag t u x → SameTag s u x
SameTag-trans x a b = record {
  idx = b.idx ∙ a.idx;
  order = b.order ∙ a.order;
  entry = b.entry ∙ a.entry;
}

module _ (n k : ℕ) (a : Mm) where
  SameLinks-tag : SameLinks a (tag n k a)
  SameLinks-tag = record { heads = λ j. refl; next = λ y. ground arith; prev = λ y. ground arith }

  SameLinks-tag' : SameLinks a (tag' n k a)
  SameLinks-tag' = record { heads = λ j. refl; next = λ y. ground arith; prev = λ y. ground arith }

  Tag-tag : (a.pages n).idx ≡ n → Tag (tag n k a) n k
  Tag-tag e = record { idx = ground arith; order = ground arith; entry = ground arith }

  Tag-tag' : (a.pages n).idx ≡ n → Tag (tag' n k a) n k
  Tag-tag' e = record { idx = ground arith; order = ground arith; entry = ground arith }

  SameTag-tag : (x : ℕ) → n ≢ x → SameTag a (tag n k a) x
  SameTag-tag x ne = record { idx = ground arith; order = ground arith; entry = ground arith }

  SameTag-tag' : (x : ℕ) → n ≢ x → SameTag a (tag' n k a) x
  SameTag-tag' x ne = record { idx = ground arith; order = ground arith; entry = ground arith }

SameTag-set_idx : (n : ℕ) (s : Mm) (x : ℕ) → n ≢ x → SameTag s (set_idx n n s) x
SameTag-set_idx n s x ne = record { idx = ground arith; order = ground arith; entry = ground arith }

-- A frame as the code gives it to a list: number, list, tag.
module _ (n k : ℕ) (s : Mm) where
  abbrev pub listed_frame : Mm
  listed_frame = add_to_free_list (some n) (pos k) (set_idx n n s)

  pub idx-listed_frame : (listed_frame.pages n).idx ≡ n
  idx-listed_frame = (add-SameTag n k (set_idx n n s) n).idx ∙ ground arith

  others-listed_frame : (x : ℕ) → n ≢ x → SameTag s listed_frame x
  others-listed_frame x ne =
      SameTag-trans x (SameTag-set_idx n s x ne) (add-SameTag n k (set_idx n n s) x)

  pub tag-Put : k < 14 → Put s (tag n k listed_frame) n k
  tag-Put lt = record {
    links = SameLinks-trans (SameLinks-set_idx n k s lt) (SameLinks-tag n k listed_frame);
    tag = Tag-tag n k listed_frame idx-listed_frame;
    others = λ x ne. SameTag-trans x (others-listed_frame x ne) (SameTag-tag n k listed_frame x ne);
  }

  pub tag'-Put : k < 14 → Put s (tag' n k listed_frame) n k
  tag'-Put lt = record {
    links = SameLinks-trans (SameLinks-set_idx n k s lt) (SameLinks-tag' n k listed_frame);
    tag = Tag-tag' n k listed_frame idx-listed_frame;
    others =
        λ x ne. SameTag-trans x (others-listed_frame x ne) (SameTag-tag' n k listed_frame x ne);
  }

-- The writes of the tag as `_alloc` makes them, through the number that the frame holds.
pub tag_through_idx :
    (n k : ℕ) (a : Mm)
    → (a.pages n).idx ≡ n
    → (let s = set_order (a.pages n).idx (pos k) a in set_entry (s.pages n).idx (some n) s)
      ≡ tag n k a
tag_through_idx n k a e =
    ap (λ m. let s = set_order m (pos k) a in set_entry (s.pages n).idx (some n) s) e
    ∙ ap (λ j. set_entry j (some n) (set_order n (pos k) a)) own
  where
    own : ((set_order n (pos k) a).pages n).idx ≡ n
    own = ground arith

pub Put-Books :
    {s t : Mm} {fr : Free} {skip skip' : ℕ → Bool} (n k : ℕ)
    → Books s fr skip
    → Put s t n k
    → IsBlock n k
    → ((j : ℕ) → has n (fr j) ≡ false)
    → ((x : ℕ) → n ≢ x → skip' x ≡ false → skip x ≡ false)
    → Books t (update fr k (n ∷ fr k)) skip'
Put-Books {s} {t} {fr} {skip'} n k b p is new weaker = record {
  linked = Linked-same p.links (add-Linked n k s fr is.small b.linked new);
  tagged = put-tagged n k b p new;
  blocks = λ j x i. elim (has-put fr n k j x i) [
    | inl (e, q) ↦ rw (← e, ← q) is
    | inr m ↦ b.blocks j x m
  ];
  listed = λ x e q r. elim (Bool-cases (n == x)) [
    | inl eq ↦ (k, ground arith)
    | inr ne ↦
        (let o = p.others x (ground arith) in
          let (j, m) = b.listed x e (weaker x (ground arith) q) (sym o.entry ∙ r) in
          (j, put-has fr n k j x m))
  ];
}

-- `t` is `s` with frame `n` taken off the list of order `k`.
pub record Taken (s t : Mm) (n k : ℕ) : Type 0 where
  pub links : SameLinks (rm_from_free_list (some n) (pos k) s) t
  pub others : (x : ℕ) → n ≢ x → SameTag s t x

has-take :
    (fr : Free) (n k j x : ℕ) → has x (update fr k (erase n (fr k)) j) ≡ true → has x (fr j) ≡ true
has-take fr n k j x i = ground (arith, has-erase n x (fr k))

take-has :
    (fr : Free) (n k j x : ℕ)
    → n ≢ x
    → has x (fr j) ≡ true
    → has x (update fr k (erase n (fr k)) j) ≡ true
take-has fr n k j x e i = ground (arith, has-erase_ne n x (fr k) e)

take-none :
    {s : Mm} (fr : Free) (n k j : ℕ)
    → Linked s fr
    → has n (fr k) ≡ true
    → has n (update fr k (erase n (fr k)) j) ≡ false
take-none fr n k j l i = ground (arith, has-erase_self n (fr k) (l.distinct k), l.apart k j n i)

-- A frame taken off its list is skipped from then on.
pub take-Books :
    {s t : Mm} {fr : Free} {skip skip' : ℕ → Bool} (n k : ℕ)
    → Books s fr skip
    → Taken s t n k
    → has n (fr k) ≡ true
    → ((x : ℕ) → skip' x ≡ false → (n ≢ x) × (skip x ≡ false))
    → Books t (update fr k (erase n (fr k))) skip'
take-Books {s} {t} {fr} n k b p inside weaker = record {
  linked = Linked-same p.links (rm-Linked n k s fr (b.blocks k n inside).small b.linked inside);
  tagged = λ j x i.
      Tag-same
        (p.others x (λ e. false≢true (sym (take-none fr n k j b.linked inside) ∙ rw (← e) at i)))
        (b.tagged j x (has-take fr n k j x i));
  blocks = λ j x i. b.blocks j x (has-take fr n k j x i);
  listed = λ x e q r.
      let (ne, old) = weaker x q in
      let o = p.others x ne in
      let (j, m) = b.listed x e old (sym o.entry ∙ r) in (j, take-has fr n k j x ne m);
}
