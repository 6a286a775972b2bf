-- ===== src/Kmem/Linking.antt =====
-- `kmem_freelist_push` and `kmem_freelist_pop` of src/alloc.c against lists of entries.
use nycu_osdi.Prelude.{
  ℕ, ◌<◌, ◌≡◌, ◌≢◌, ◌∙◌, subst, true, false, none, some, List, ◌∷◌, arith, ◌==◌, ==_refl, ==_of_ne,
  ==_iff, if◌then◌else◌, has, points_to, update, update_self, Bool-cases, inl, inr,
}
use nycu_osdi.Mm.Chain.{Chain, Distinct, frame, repoint, head_in}
use nycu_osdi.Kmem.{Kmem, kmem_freelist_push, pop_head}

-- The entries in the free lists, by cache.
abbrev pub Pool : Type 0
Pool = ℕ → List ℕ

-- The free lists of the caches are exactly these lists, and no entry is in two of them.
pub record Linked (s : Kmem) (l : Pool) : Type 0 where
  pub chains : (c : ℕ) → c < 4 → Chain s.next s.prev none (s.free_list c) (l c)
  pub distinct : (c : ℕ) → c < 4 → Distinct (l c)
  pub apart : (c d e : ℕ) → c < 4 → d < 4 → has e (l c) ≡ true → has e (l d) ≡ true → c ≡ d

module _ (e k : ℕ) (s : Kmem) where
  pub push-heads :
      (j : ℕ) → (kmem_freelist_push e k s).free_list j ≡ update s.free_list k (some e) j
  unfolding kmem_freelist_push
  push-heads j = ground arith

  pub push-nexts :
      (y : ℕ) → (kmem_freelist_push e k s).next y ≡ (if e == y then s.free_list k else s.next y)
  unfolding kmem_freelist_push
  push-nexts y = ground arith

  push-prevs :
      (y : ℕ)
      → (kmem_freelist_push e k s).prev y
        ≡ (if e == y then none else if points_to (s.free_list k) y then some e else s.prev y)
  unfolding kmem_freelist_push
  push-prevs y = ground arith

  pub pop-heads : (j : ℕ) → (pop_head e k s).free_list j ≡ update s.free_list k (s.next e) j
  unfolding pop_head
  pop-heads j = ground arith

  pub pop-nexts : (y : ℕ) → (pop_head e k s).next y ≡ (if e == y then none else s.next y)
  unfolding pop_head
  pop-nexts y = ground arith

  pop-prevs :
      (y : ℕ)
      → (pop_head e k s).prev y
        ≡ (if e == y then none else if points_to (s.next e) y then none else s.prev y)
  unfolding pop_head
  pop-prevs y = ground arith

-- An entry that is in no list goes to the front of one.
module _ (e k : ℕ) (s : Kmem) (l : Pool) (small : k < 4) (linked : Linked s l)
    (new : (j : ℕ) → j < 4 → has e (l j) ≡ false) where
  abbrev pushed : Kmem
  pushed = kmem_freelist_push e k s

  push-Chain_self : Chain pushed.next pushed.prev none (pushed.free_list k) (e ∷ l k)
  push-Chain_self = (
    push-heads e k s k ∙ update_self s.free_list k (some e),
    ground (arith, push-prevs e k s e),
    rw (push-nexts e k s e, ==_refl e)
        (repoint s.next s.prev pushed.next pushed.prev none (some e) (s.free_list k) (l k)
          (linked.chains k small) (linked.distinct k small)
          (λ y i. ground (arith, push-nexts e k s y, new k))
          (λ y i. ground (arith, push-prevs e k s y, new k))),
  )

  push-Chain_ne :
      (j : ℕ) → j < 4 → k ≢ j → Chain pushed.next pushed.prev none (pushed.free_list j) (l j)
  push-Chain_ne j lt n =
      rw (push-heads e k s j, ==_of_ne k j n)
        (frame s.next s.prev pushed.next pushed.prev none (s.free_list j) (l j) (linked.chains j lt)
          λ y i. (
            ground (arith, push-nexts e k s y, new j),
            ground (
              arith,
              push-prevs e k s y,
              new j,
              head_in s.next s.prev y none (s.free_list k) (l k) (linked.chains k small),
              linked.apart j k y,
            ),
          ))

  pub push-Linked : Linked pushed (update l k (e ∷ l k))
  push-Linked = record {
    chains = λ j lt. elim (Bool-cases (k == j)) [
      | inl q ↦
          subst
            (λ m. Chain pushed.next pushed.prev none (pushed.free_list m) (update l k (e ∷ l k) m))
            ((==_iff k j).0 q) (rw (update_self l k (e ∷ l k)) push-Chain_self)
      | inr q ↦ rw q (push-Chain_ne j lt (ground arith))
    ];
    distinct = λ j lt. ground (arith, linked.distinct j lt, new j, linked.distinct k, new k);
    apart = λ i j x a b p q.
        ground
          (arith, linked.apart i j x, linked.apart k j x, linked.apart i k x, new i, new j, new k);
  }

-- The head leaves its list.
module _ (e k : ℕ) (s : Kmem) (l : Pool) (xs : List ℕ) (small : k < 4) (linked : Linked s l)
    (full : l k ≡ e ∷ xs) where
  abbrev popped : Kmem
  popped = pop_head e k s

  whole : Chain s.next s.prev none (s.free_list k) (e ∷ xs)
  whole = subst (λ v. Chain s.next s.prev none (s.free_list k) v) full (linked.chains k small)

  unlike : Distinct (e ∷ xs)
  unlike = subst (λ v. Distinct v) full (linked.distinct k small)

  in_rest : (x : ℕ) → has x xs ≡ true → has x (l k) ≡ true
  in_rest x i = rw full (ground arith)

  is_in : has e (l k) ≡ true
  is_in = rw full (ground (arith, ==_refl e))

  pop-Chain_self : Chain popped.next popped.prev none (popped.free_list k) xs
  pop-Chain_self = rw (pop-heads e k s k ∙ update_self s.free_list k (s.next e)) (
      repoint s.next s.prev popped.next popped.prev (some e) none (s.next e) xs whole.2 unlike.1
        (λ y i. ground (arith, pop-nexts e k s y, unlike.0))
        (λ y i. ground (arith, pop-prevs e k s y, unlike.0)))

  pop-Chain_ne :
      (j : ℕ) → j < 4 → k ≢ j → Chain popped.next popped.prev none (popped.free_list j) (l j)
  pop-Chain_ne j lt n =
      rw (pop-heads e k s j, ==_of_ne k j n)
        (frame s.next s.prev popped.next popped.prev none (s.free_list j) (l j) (linked.chains j lt)
          λ y i. (
            ground (arith, pop-nexts e k s y, linked.apart j k y lt small, is_in),
            ground (
              arith,
              pop-prevs e k s y,
              head_in s.next s.prev y (some e) (s.next e) xs whole.2,
              in_rest y,
              linked.apart j k y lt small,
              is_in,
            ),
          ))

  pub pop-Linked : Linked popped (update l k xs)
  pop-Linked = record {
    chains = λ j lt. elim (Bool-cases (k == j)) [
      | inl q ↦
          subst (λ m. Chain popped.next popped.prev none (popped.free_list m) (update l k xs m))
            ((==_iff k j).0 q) (rw (update_self l k xs) pop-Chain_self)
      | inr q ↦ rw q (pop-Chain_ne j lt (ground arith))
    ];
    distinct = λ j lt. ground (arith, linked.distinct j lt, unlike.1);
    apart = λ i j x a b p q.
        ground (arith, linked.apart i j x, linked.apart k j x, linked.apart i k x, in_rest x);
  }
