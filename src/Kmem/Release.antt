-- ===== src/Kmem/Release.antt =====
-- `kfree` of src/alloc.c: what it takes back, and `kmalloc` after it.
use native.Mathlib.Nat.{one-le-pow}
use nycu_osdi.Prelude.{
  ℕ, ◌+◌, ◌-◌, ◌≤◌, ◌<◌, ◌≡◌, ◌≢◌, ◌∙◌, subst, refl, ap, true, false, some, ◌∷◌, arith, ◌==◌, ◌&&◌,
  not, ltb, leb, has, update, update_self, Bool-cases, inl, inr,
}
use mathlib.Core.Path.{fun_ext}
use nycu_osdi.Prelude.Int.{pos}
use nycu_osdi.Mm.{page_num, frame_of}
use nycu_osdi.Mm.Lists.{Free}
use nycu_osdi.Kmem.Linking.{Pool}
use nycu_osdi.Kmem.{
  Kmem, kmem_freelist_push, pop_head, refill, take_chunk, get_chunk_order, kmalloc, kfree,
  kfree_order, out_of_bounds, entry_of,
}
use nycu_osdi.Kmem.Linking.{Linked, push-heads, push-nexts, pop-heads, pop-nexts}
use nycu_osdi.Kmem.Chunks.{take_chunk-some, kmalloc_lem}
use nycu_osdi.Kmem.Sound.{Slot, Slot-cache, Used, Sound, push-Sound, pop-Sound}

-- A chunk that is given back.
abbrev pub released : Used → (e c : ℕ) → Used
released used e c d x = used d x && not ((c == d) && (e == x))

kfree_order-push :
    (ptr e c : ℕ) (s : Kmem)
    → c < 4
    → entry_of ptr ≡ e
    → kfree_order ptr (pos (c + 4)) s ≡ kmem_freelist_push e c s
unfolding kfree_order
kfree_order-push ptr e c s lt entry =
    let cache : c + 4 - 4 ≡ c = omega arith in
    let low : ltb (c + 4) 4 ≡ false = ground arith in
    let high : ltb 7 (c + 4) ≡ false = ground arith in
    rw (low, high)
      (ap (λ x. kmem_freelist_push x (c + 4 - 4) s) entry
        ∙ ap (λ x. kmem_freelist_push e x s) cache)

kfree-push :
    (bss_end stack_top : ℕ) (s : Kmem) {fr : Free} {c e : ℕ}
    → c < 4
    → Slot s.mm fr c e
    → out_of_bounds bss_end stack_top (e + 16) ≡ false
    → kfree bss_end stack_top (e + 16) s ≡ some (kmem_freelist_push e c s)
unfolding kfree
kfree-push bss_end stack_top s {c = c} {e = e} lt slot inside =
    let page : frame_of (e + 16) ≡ slot.page =
      omega (arith, slot.at, slot.inside, slot.in_memory, one-le-pow (c + 4) 2) in
    let order : (s.mm.pages (frame_of (e + 16))).cache_order ≡ pos (c + 4) =
      ap (λ p. (s.mm.pages p).cache_order) page ∙ slot.labelled in
    let known : leb page_num (frame_of (e + 16)) ≡ false = ground (arith, page, slot.in_memory) in
    let entry : entry_of (e + 16) ≡ e = omega (arith, slot.at, slot.inside, slot.in_memory) in
    let not_null : (e + 16 == 0) ≡ false = ground arith in
    rw (not_null, inside, known)
      (ap some
        (ap (λ o. kfree_order (e + 16) o s) order ∙ kfree_order-push (e + 16) e c s lt entry))

-- A chunk in use that is pushed leads its list afterwards, and is not in use.
pushed-Sound :
    (c e : ℕ) {s : Kmem} {fr : Free} {l : Pool} {used : Used}
    → Sound s fr l used
    → c < 4
    → used c e ≡ true
    → Sound (kmem_freelist_push e c s) fr (update l c (e ∷ l c)) (released used e c)
pushed-Sound c e {s} {fr} {l} {used} v lt i =
    let slot = v.places c e lt (ground (arith, i)) in
    push-Sound v e c (released used e c) lt slot (new slot) (λ d x small u. ground arith)
  where
    new : Slot s.mm fr c e → (j : ℕ) → j < 4 → has e (l j) ≡ false
    new slot j small = elim (Bool-cases (has e (l j))) [
      | inr away ↦ away
      | inl there ↦
          (let q : c ≡ j = Slot-cache slot (v.places j e small (ground (arith, there))) in
            absurd (ground (arith, rw (← q) at there, v.apart c e lt i)))
    ]

-- The same through `kfree`.
pub kfree-Sound :
    (bss_end stack_top : ℕ) (c e : ℕ) {s : Kmem} {fr : Free} {l : Pool} {used : Used}
    → Sound s fr l used
    → c < 4
    → used c e ≡ true
    → out_of_bounds bss_end stack_top (e + 16) ≡ false
    → (t : Kmem) × (kfree bss_end stack_top (e + 16) s ≡ some t)
      × Sound t fr (update l c (e ∷ l c)) (released used e c)
kfree-Sound bss_end stack_top c e {s} v lt i inside = (
  kmem_freelist_push e c s,
  kfree-push bss_end stack_top s lt (v.places c e lt (ground (arith, i))) inside,
  pushed-Sound c e v lt i,
)

restored : (l : Pool) (c e : ℕ) (k : ℕ) → update (update l c (e ∷ l c)) c (l c) k ≡ l k
restored l c e k = ground arith

refill-some : (c e : ℕ) (s : Kmem) → s.free_list c ≡ some e → refill c s ≡ s
unfolding refill
refill-some c e s h = rw (h, refill) refl

-- A list that is not empty serves from its head.
pub kmalloc-head :
    (size c e : ℕ) (s : Kmem)
    → size ≤ 128
    → get_chunk_order size - 4 ≡ c
    → s.free_list c ≡ some e
    → kmalloc size s ≡ some (e + 16, pop_head e c s)
kmalloc-head size c e s h q head =
    kmalloc_lem size s h
    ∙ (ap (λ k. take_chunk k (refill k s)) q
        ∙ (ap (take_chunk c) (refill-some c e s head) ∙ take_chunk-some c e s head))

-- After `kfree` of a chunk in use that does not lie where the kernel itself does, `kmalloc` for a size of
-- its cache hands out the same chunk, and leaves all free lists, with their links, as they were.
pub kmalloc-kfree :
    (bss_end stack_top : ℕ) (size c e : ℕ) {s : Kmem} {fr : Free} {l : Pool} {used : Used}
    → Sound s fr l used
    → c < 4
    → used c e ≡ true
    → out_of_bounds bss_end stack_top (e + 16) ≡ false
    → size ≤ 128
    → get_chunk_order size ≡ c + 4
    → (t u : Kmem) × (kfree bss_end stack_top (e + 16) s ≡ some t)
      × (kmalloc size t ≡ some (e + 16, u))
      × ((k : ℕ) → u.free_list k ≡ s.free_list k)
      × ((x : ℕ) → e ≢ x → u.next x ≡ s.next x)
      × Linked u l
kmalloc-kfree bss_end stack_top size c e {s} {fr} {l} {used} v lt i inside h order =
    let slot = v.places c e lt (ground (arith, i)) in
    let w = pushed-Sound c e v lt i in
    let t = kmem_freelist_push e c s in
    let q : get_chunk_order size - 4 ≡ c = omega (arith, order) in
    let head : t.free_list c ≡ some e = push-heads e c s c ∙ update_self s.free_list c (some e) in
    (
      t,
      pop_head e c t,
      kfree-push bss_end stack_top s lt slot inside,
      kmalloc-head size c e t h q head,
      λ k. ground (arith, pop-heads e c t k, push-heads e c s k, push-nexts e c s e),
      λ x ne. ground (arith, ne, pop-nexts e c t x, push-nexts e c s x),
      subst (λ m. Linked (pop_head e c t) m) (fun_ext (restored l c e))
          (pop-Sound w e c (l c) lt (update_self l c (e ∷ l c))).linked,
    )
