-- ===== src/Timers/Insert.antt =====
-- src/timer.c and src/tasks.c: the sorted insertion.
use nycu_osdi.Prelude.{
  ℕ, zero, suc, ◌≤◌, ◌<◌, ◌≡◌, ◌≢◌, ◌∙◌, refl, sym, ap, subst, Bool, true, false, Option, none,
  some, List, [], ◌∷◌, arith, ◌==◌, leb, ltb, if◌then◌else◌, length, count, update, Bool-cases, inl,
  inr,
}
use nycu_osdi.Prelude.Chains.{Chained, Chained-frame}
use nycu_osdi.Timers.{
  Sorted, place_loop, set_prev_of, alone, in_front, link_behind, insert_by, insert,
}

-- The keys do not decrease.
abbrev pub Ascending : (ℕ → ℕ) → List ℕ → Type 0
Ascending key [] = Unit {0}
Ascending key (x ∷ xs) = ((y : ℕ) → 0 < count y xs → key x ≤ key y) × Ascending key xs

-- The list with the new element in front of the first that has no smaller key.
abbrev pub placed : (ℕ → ℕ) → ℕ → List ℕ → List ℕ
placed key new [] = new ∷ []
placed key new (x ∷ xs) = if leb (key new) (key x) then new ∷ x ∷ xs else x ∷ placed key new xs

count-placed :
    (key : ℕ → ℕ) (new p : ℕ) (xs : List ℕ) → count p (placed key new xs) ≡ count p (new ∷ xs)
count-placed key new p [] = refl
count-placed key new p (x ∷ xs) = ground (arith, count-placed key new p xs)

at_most :
    (key : ℕ → ℕ) (new x y : ℕ) (xs : List ℕ)
    → key x ≤ key new
    → ((z : ℕ) → 0 < count z xs → key x ≤ key z)
    → 0 < count y (placed key new xs)
    → key x ≤ key y
at_most key new x y xs le all h = elim (Bool-cases (new == y)) [
  | inl same ↦ (let q : new ≡ y = ground arith in subst (λ (z : ℕ). key x ≤ key z) q le)
  | inr other ↦ all y (ground (arith, h, count-placed key new y xs))
]

pub placed-Ascending :
    (key : ℕ → ℕ) (new : ℕ) (xs : List ℕ) → Ascending key xs → Ascending key (placed key new xs)
placed-Ascending key new [] a = (λ y h. absurd (omega (arith, h)), tt)
placed-Ascending key new (x ∷ xs) a = elim (Bool-cases (leb (key new) (key x))) [
  | inl before ↦ rw before (
    λ y h. elim (Bool-cases (x == y)) [
      | inl same ↦
          (let q : x ≡ y = ground arith in subst (λ (z : ℕ). key new ≤ key z) q (ground arith))
      | inr other ↦ ground (arith, a.0 y)
    ],
    a,
  )
  | inr behind ↦
      (let rest = placed-Ascending key new xs a.1 in
        rw behind (λ y h. at_most key new x y xs (ground arith) a.0 h, rest))
]

-- The writes of `next` behind `curr`.
abbrev spliced : (ℕ → Option ℕ) → (curr new : ℕ) → ℕ → Option ℕ
spliced next curr new = update (update next new (next curr)) curr (some new)

place_loop_lem :
    (n : ℕ) (s : Sorted) (new c : ℕ) (xs : List ℕ)
    → length xs < n
    → Chained s.next (s.next c) xs
    → ((p : ℕ) → count p (c ∷ xs) ≤ 1)
    → count new (c ∷ xs) ≡ 0
    → (curr : ℕ) × (place_loop n c (s.key new) s ≡ some curr)
      × (0 < count curr (c ∷ xs))
      × Chained (spliced s.next curr new) (spliced s.next curr new c) (placed s.key new xs)
unfolding place_loop
place_loop_lem zero s new c xs lt ch once fresh = absurd (omega arith)
place_loop_lem (suc n) s new c [] lt ch once fresh =
    (c, rw (ch, place_loop) refl, ground arith, (ground arith, ground (arith, fresh, ch)))
place_loop_lem (suc n) s new c (d ∷ xs) lt ch once fresh =
    elim (Bool-cases (leb (s.key new) (s.key d))) [
      | inl before ↦
          (let stop : ltb (s.key d) (s.key new) ≡ false = ground arith in
            let next_of_new : spliced s.next c new new ≡ s.next c = ground (arith, fresh) in
            let moved =
              Chained-frame s.next (spliced s.next c new) (s.next c) (d ∷ xs)
                (λ y h. ground (arith, once y, h, fresh)) ch in
            rw before (
              c,
              rw (ch.0, place_loop) (rw stop refl),
              ground arith,
              (
                ground arith,
                subst (λ v. Chained (spliced s.next c new) v (d ∷ xs)) (sym next_of_new) moved,
              ),
            ))
      | inr behind ↦
          (let go : ltb (s.key d) (s.key new) ≡ true = ground arith in
            let (curr, found, is_in, chained) =
              place_loop_lem n s new d xs (omega arith) ch.1 (λ p. omega (arith, once p))
                (omega (arith, fresh)) in
            let apart : c ≢ curr = ground (arith, once c) in
            let ne : new ≢ c = ground (arith, fresh) in
            rw behind (
              curr,
              rw (ch.0, place_loop) (rw go found),
              ground arith,
              (ground arith ∙ ch.0, chained),
            ))
    ]

set_prev_of_next : (o : Option ℕ) (new : ℕ) (s : Sorted) → (set_prev_of o new s).next ≡ s.next
set_prev_of_next none new s = refl
set_prev_of_next (some i) new s = refl

set_prev_of_head : (o : Option ℕ) (new : ℕ) (s : Sorted) → (set_prev_of o new s).head ≡ s.head
set_prev_of_head none new s = refl
set_prev_of_head (some i) new s = refl

set_prev_of_key : (o : Option ℕ) (new : ℕ) (s : Sorted) → (set_prev_of o new s).key ≡ s.key
set_prev_of_key none new s = refl
set_prev_of_key (some i) new s = refl

-- The list after an insertion: the chain, and the keys, which stay.
pub record Inserted (s t : Sorted) (new : ℕ) (xs : List ℕ) : Type 0 where
  pub chained : Chained t.next t.head (placed s.key new xs)
  pub key : t.key ≡ s.key

-- With more rounds than elements, the insertion into a list in order ends, puts the new element in
-- front of the first that has no smaller key, and leaves the list in order.
pub insert-Inserted :
    (n new : ℕ) (s : Sorted) (xs : List ℕ)
    → length xs < n
    → Chained s.next s.head xs
    → ((p : ℕ) → count p xs ≤ 1)
    → count new xs ≡ 0
    → Ascending s.key xs
    → (first : Bool) × (t : Sorted) × (insert n new s ≡ some (first, t))
      × Inserted s t new xs
      × Ascending t.key (placed s.key new xs)
unfolding insert insert_by link_behind
insert-Inserted n new s [] lt ch once fresh a = (
  true,
  alone new s,
  ap (λ h. insert_by n new h s) ch,
  record { chained = (refl, ground arith); key = refl },
  placed-Ascending s.key new [] a,
)
insert-Inserted n new s (x ∷ xs) lt ch once fresh a =
    let sorted = placed-Ascending s.key new (x ∷ xs) a in
    elim (Bool-cases (leb (s.key new) (s.key x))) [
      | inl before ↦
          (let moved =
              Chained-frame s.next (update s.next new (some x)) (some x) (x ∷ xs)
                (λ y h. ground (arith, once y, h, fresh)) (refl, ch.1) in
            let next_of_new : update s.next new (some x) new ≡ some x = ground arith in
            (
              true,
              in_front x new s,
              ap (λ h. insert_by n new h s) ch.0 ∙ (rw before refl),
              record {
                chained = rw before (
                  refl,
                  subst (λ v. Chained (update s.next new (some x)) v (x ∷ xs)) (sym next_of_new)
                      moved,
                );
                key = refl;
              },
              sorted,
            ))
      | inr behind ↦
          (let (curr, found, is_in, chained) =
              place_loop_lem n s new x xs (omega arith) ch.1 once fresh in
            let links = record s {
              next = spliced s.next curr new;
              prev = update s.prev new (some curr);
            } in
            let o = spliced s.next curr new curr in
            let chain : Chained (spliced s.next curr new) s.head (placed s.key new (x ∷ xs)) =
              rw behind (ch.0, chained) in
            (
              false,
              link_behind curr new s,
              ap (λ h. insert_by n new h s) ch.0 ∙ (rw behind (rw found refl)),
              record {
                chained =
                    subst
                      (λ f. Chained f (set_prev_of o new links).head (placed s.key new (x ∷ xs)))
                      (sym (set_prev_of_next o new links))
                      (subst (λ h. Chained (spliced s.next curr new) h (placed s.key new (x ∷ xs)))
                        (sym (set_prev_of_head o new links)) chain);
                key = set_prev_of_key o new links;
              },
              subst (λ k. Ascending k (placed s.key new (x ∷ xs)))
                  (sym (set_prev_of_key o new links)) sorted,
            ))
    ]

-- Behind the head, the new element is its own `prev`: the code sets `curr->next->prev` after
-- `curr->next` has become the new element.
pub link_behind_prev : (curr new : ℕ) (s : Sorted) → (link_behind curr new s).prev new ≡ some new
unfolding link_behind
link_behind_prev curr new s =
    let o : spliced s.next curr new curr ≡ some new = ground arith in rw o (ground arith)
