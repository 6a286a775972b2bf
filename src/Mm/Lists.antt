-- ===== src/Mm/Lists.antt =====
-- `add_to_free_list` and `rm_from_free_list` of src/mm.c against lists of frames.
use nycu_osdi.Prelude.{
  ℕ, ◌<◌, ◌≡◌, ◌≢◌, ◌∙◌, refl, subst, true, false, Option, none, some, List, ◌∷◌, arith, ◌==◌,
  ==_refl, if◌then◌else◌, has, erase, points_to, has-erase, update, update_self, ==_of_ne, ==_iff,
  Bool-cases, inl, inr,
}
use nycu_osdi.Prelude.Int.{pos}
use nycu_osdi.Mm.{Mm, add_to_free_list, rm_from_free_list}
use nycu_osdi.Mm.Chain.{
  Chain, Distinct, Distinct-erase, head_in, prev_of_front, not_own_prev, prev_in, next_in, frame,
  repoint, unlink,
}

abbrev pub nexts : Mm → ℕ → Option ℕ
nexts s i = (s.pages i).next

abbrev pub prevs : Mm → ℕ → Option ℕ
prevs s i = (s.pages i).prev

-- The free frames, by order.
abbrev pub Free : Type 0
Free = ℕ → List ℕ

-- The free lists of the state are exactly these lists, and no frame is in two of them.
pub record Linked (s : Mm) (fr : Free) : Type 0 where
  pub chains : (k : ℕ) → k < 14 → Chain (nexts s) (prevs s) none (s.free_list k) (fr k)
  pub distinct : (k : ℕ) → Distinct (fr k)
  pub apart : (j k x : ℕ) → has x (fr j) ≡ true → has x (fr k) ≡ true → j ≡ k

module _ (e k : ℕ) (s : Mm) (small : k < 14) where
  pub add-heads :
      (j : ℕ) → (add_to_free_list (some e) (pos k) s).free_list j ≡ update s.free_list k (some e) j
  unfolding add_to_free_list
  add-heads j = ground arith

  pub add-nexts :
      (y : ℕ)
      → nexts (add_to_free_list (some e) (pos k) s) y
        ≡ (if e == y then s.free_list k else nexts s y)
  unfolding add_to_free_list
  add-nexts y = ground arith

  pub add-prevs :
      (y : ℕ)
      → prevs (add_to_free_list (some e) (pos k) s) y
        ≡ (if e == y then none else if points_to (s.free_list k) y then some e else prevs s y)
  unfolding add_to_free_list
  add-prevs y = ground arith

  rm-heads :
      (j : ℕ)
      → (rm_from_free_list (some e) (pos k) s).free_list j
        ≡ update s.free_list k (if points_to (s.free_list k) e then nexts s e else s.free_list k) j
  unfolding rm_from_free_list
  rm-heads j = ground arith

  -- The pointers after an unlink, at the frames other than the one unlinked.
  rm-nexts :
      (y : ℕ)
      → e ≢ y
      → (points_to (s.free_list k) e ≡ true → prevs s e ≡ none)
      → nexts (rm_from_free_list (some e) (pos k) s) y
        ≡ (if points_to (prevs s e) y then nexts s e else nexts s y)
  unfolding rm_from_free_list
  rm-nexts y n front = ground arith

  rm-prevs :
      (y : ℕ)
      → e ≢ y
      → prevs s e ≢ some e
      → (points_to (s.free_list k) e ≡ true → prevs s e ≡ none)
      → prevs (rm_from_free_list (some e) (pos k) s) y
        ≡ (if points_to (nexts s e) y then prevs s e else prevs s y)
  unfolding rm_from_free_list
  rm-prevs y n loop front = ground arith

-- A frame that is in no list goes to the front of one.
module _ (e k : ℕ) (s : Mm) (fr : Free) (small : k < 14) (l : Linked s fr)
    (new : (j : ℕ) → has e (fr j) ≡ false) where
  abbrev added : Mm
  added = add_to_free_list (some e) (pos k) s

  add-Chain_self : Chain (nexts added) (prevs added) none (added.free_list k) (e ∷ fr k)
  add-Chain_self = (
    add-heads e k s small k ∙ update_self s.free_list k (some e),
    ground (arith, add-prevs e k s small e),
    rw (add-nexts e k s small e, ==_refl e)
        (repoint (nexts s) (prevs s) (nexts added) (prevs added) none (some e) (s.free_list k)
          (fr k) (l.chains k small) (l.distinct k)
          (λ y i. ground (arith, add-nexts e k s small y, new k))
          (λ y i. ground (arith, add-prevs e k s small y, new k))),
  )

  add-Chain_ne :
      (j : ℕ) → j < 14 → k ≢ j → Chain (nexts added) (prevs added) none (added.free_list j) (fr j)
  add-Chain_ne j lt n =
      rw (add-heads e k s small j, ==_of_ne k j n)
        (frame (nexts s) (prevs s) (nexts added) (prevs added) none (s.free_list j) (fr j)
          (l.chains j lt)
          λ y i. (
            ground (arith, add-nexts e k s small y, new j),
            ground (
              arith,
              add-prevs e k s small y,
              new j,
              head_in (nexts s) (prevs s) y none (s.free_list k) (fr k) (l.chains k small),
              l.apart j k y,
            ),
          ))

  add-Chain :
      (j : ℕ)
      → j < 14
      → Chain (nexts added) (prevs added) none (added.free_list j) (update fr k (e ∷ fr k) j)
  add-Chain j lt = elim (Bool-cases (k == j)) [
    | inl q ↦
        subst
          (λ m.
            Chain (nexts added) (prevs added) none (added.free_list m) (update fr k (e ∷ fr k) m))
          ((==_iff k j).0 q) (rw (update_self fr k (e ∷ fr k)) add-Chain_self)
    | inr q ↦ rw q (add-Chain_ne j lt (ground arith))
  ]

  pub add-Linked : Linked added (update fr k (e ∷ fr k))
  add-Linked = record {
    chains = add-Chain;
    distinct = λ j. ground (arith, l.distinct j, new j, l.distinct k, new k);
    apart = λ i j x p q.
        ground (arith, l.apart i j x, l.apart k j x, l.apart i k x, new i, new j, new k);
  }

-- A frame leaves the list that it is in.
module _ (e k : ℕ) (s : Mm) (fr : Free) (small : k < 14) (l : Linked s fr)
    (inside : has e (fr k) ≡ true) where
  abbrev removed : Mm
  removed = rm_from_free_list (some e) (pos k) s

  front : points_to (s.free_list k) e ≡ true → prevs s e ≡ none
  front = prev_of_front (nexts s) (prevs s) e none (s.free_list k) (fr k) (l.chains k small)

  loopless : prevs s e ≢ some e
  loopless =
      not_own_prev (nexts s) (prevs s) e none (s.free_list k) (fr k) (l.chains k small) inside refl

  rm-Chain_self : Chain (nexts removed) (prevs removed) none (removed.free_list k) (erase e (fr k))
  rm-Chain_self = rw (rm-heads e k s small k ∙ update_self s.free_list k _) (
      unlink (nexts s) (prevs s) (nexts removed) (prevs removed) e none (s.free_list k) (fr k)
        (l.chains k small) (l.distinct k) inside (λ y i. cc) (λ y n. rm-nexts e k s small y n front)
        (λ y n. rm-prevs e k s small y n loopless front))

  -- The neighbours of the frame are in its list.
  prev_inside : (y : ℕ) → points_to (prevs s e) y ≡ true → has y (fr k) ≡ true
  prev_inside y q =
      elim (prev_in (nexts s) (prevs s) e none (s.free_list k) (fr k) (l.chains k small) inside) [
        | inl a ↦ ground arith
        | inr (u, a, b) ↦ ground arith
      ]

  next_inside : (y : ℕ) → points_to (nexts s e) y ≡ true → has y (fr k) ≡ true
  next_inside y q =
      next_in (nexts s) (prevs s) e y none (s.free_list k) (fr k) (l.chains k small) inside
        (ground arith)

  rm-Chain_ne :
      (j : ℕ)
      → j < 14
      → k ≢ j
      → Chain (nexts removed) (prevs removed) none (removed.free_list j) (fr j)
  rm-Chain_ne j lt n =
      rw (rm-heads e k s small j, ==_of_ne k j n)
        (frame (nexts s) (prevs s) (nexts removed) (prevs removed) none (s.free_list j) (fr j)
          (l.chains j lt)
          λ y i.
            let other : e ≢ y = λ q. n (l.apart k j e inside (rw q i)) in
            let not_k : has y (fr k) ≢ true = λ q. n (l.apart k j y q i) in
            (
              ground (arith, rm-nexts e k s small y other front, prev_inside y),
              ground (arith, rm-prevs e k s small y other loopless front, next_inside y),
            ))

  rm-Chain :
      (j : ℕ)
      → j < 14
      → Chain
          (nexts removed)
          (prevs removed)
          none
          (removed.free_list j)
          (update fr k (erase e (fr k)) j)
  rm-Chain j lt = elim (Bool-cases (k == j)) [
    | inl q ↦
        subst
          (λ m.
            Chain (nexts removed) (prevs removed) none (removed.free_list m)
              (update fr k (erase e (fr k)) m))
          ((==_iff k j).0 q) (rw (update_self fr k (erase e (fr k))) rm-Chain_self)
    | inr q ↦ rw q (rm-Chain_ne j lt (ground arith))
  ]

  pub rm-Linked : Linked removed (update fr k (erase e (fr k)))
  rm-Linked = record {
    chains = rm-Chain;
    distinct = λ j. ground (arith, l.distinct j, Distinct-erase e (fr k) (l.distinct k));
    apart = λ i j x p q.
        ground (arith, l.apart i j x, l.apart k j x, l.apart i k x, has-erase e x (fr k));
  }
