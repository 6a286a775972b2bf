-- ===== src/Mm/Books.antt =====
-- What `page_list` and `free_list` of src/mm.c say together: the invariant of the page allocator.
use nycu_osdi.Prelude.{
  ℕ, ◌+◌, ◌^◌, ◌≤◌, ◌<◌, ◌≡◌, Bool, true, false, none, some, arith, has, Bool-cases, inl, inr,
}
use nycu_osdi.Prelude.Int.{pos}
use nycu_osdi.Mm.{Mm, page_num, add_to_free_list, rm_from_free_list}
use nycu_osdi.Mm.Buddy.{Aligned}
use nycu_osdi.Mm.Chain.{frame}
use nycu_osdi.Mm.Cover.{covers, cover, covers_first, covers-le-cover}
use nycu_osdi.Mm.Lists.{Free, Linked, nexts, prevs}

-- The frames from `x` on are a block of order `k` inside the memory.
pub record IsBlock (x k : ℕ) : Type 0 where
  pub small : k < 14
  pub aligned : Aligned x k
  pub fits : x + 2 ^ k ≤ page_num

-- The frame says that it begins a free block of order `k`.
pub record Tag (s : Mm) (x k : ℕ) : Type 0 where
  pub idx : (s.pages x).idx ≡ x
  pub order : (s.pages x).order ≡ pos k
  pub entry : (s.pages x).entry_in_list ≡ some x

-- The free lists are `fr`; every frame on them is tagged, and every tagged frame that is not
-- skipped is on the list of its order.
pub record Books (s : Mm) (fr : Free) (skip : ℕ → Bool) : Type 0 where
  pub linked : Linked s fr
  pub tagged : (k x : ℕ) → has x (fr k) ≡ true → Tag s x k
  pub blocks : (k x : ℕ) → has x (fr k) ≡ true → IsBlock x k
  pub listed :
      (x e : ℕ)
      → skip x ≡ false
      → (s.pages x).entry_in_list ≡ some e
      → (k : ℕ) × (has x (fr k) ≡ true)

-- The invariant between calls: besides, no frame is in two free blocks.
pub record Inv (s : Mm) (fr : Free) : Type 0 where
  pub books : Books s fr (λ x. false)
  pub once : (p : ℕ) → cover fr p ≤ 1

-- The two states agree on what the frame says of its block.
pub record SameTag (s t : Mm) (x : ℕ) : Type 0 where
  pub idx : (t.pages x).idx ≡ (s.pages x).idx
  pub order : (t.pages x).order ≡ (s.pages x).order
  pub entry : (t.pages x).entry_in_list ≡ (s.pages x).entry_in_list

-- The list operations write no tag.
pub add-SameTag : (e k : ℕ) (s : Mm) (x : ℕ) → SameTag s (add_to_free_list (some e) (pos k) s) x
unfolding add_to_free_list
add-SameTag e k s x = ground arith

pub rm-SameTag : (e k : ℕ) (s : Mm) (x : ℕ) → SameTag s (rm_from_free_list (some e) (pos k) s) x
unfolding rm_from_free_list
rm-SameTag e k s x = ground arith

-- `Linked` reads only the heads and the pointers.
pub record SameLinks (s t : Mm) : Type 0 where
  pub heads : (k : ℕ) → t.free_list k ≡ s.free_list k
  pub next : (y : ℕ) → nexts t y ≡ nexts s y
  pub prev : (y : ℕ) → prevs t y ≡ prevs s y

pub Linked-same : {s t : Mm} {fr : Free} → SameLinks s t → Linked s fr → Linked t fr
Linked-same {s} {t} {fr} same l = record {
  chains = λ k lt. rw (same.heads k) (
      frame (nexts s) (prevs s) (nexts t) (prevs t) none (s.free_list k) (fr k) (l.chains k lt)
        λ y i. (same.next y, same.prev y));
  distinct = l.distinct;
  apart = l.apart;
}

-- A block whose frames are not all covered is on no list.
pub not_listed :
    {s : Mm} {fr : Free} {skip : ℕ → Bool} (x m : ℕ)
    → Books s fr skip
    → ((p : ℕ) → cover fr p + covers x m p ≤ 1)
    → (j : ℕ) → has x (fr j) ≡ false
not_listed {fr} x m b once j = elim (Bool-cases (has x (fr j))) [
  | inl i ↦ absurd (
      omega (
        arith,
        once x,
        covers_first x m,
        covers_first x j,
        covers-le-cover j x x fr ((b.blocks j x i).small) i,
      ))
  | inr o ↦ o
]
