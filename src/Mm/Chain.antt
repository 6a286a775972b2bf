-- ===== src/Mm/Chain.antt =====
-- Doubly linked lists through a `next` and a `prev` field: the shape of the free lists of src/mm.c.
use nycu_osdi.Prelude.{
  ℕ, ◌≡◌, ◌≢◌, ◌⊎◌, ◌∙◌, ap, sym, ==_refl, ==_of_ne, inl, inr, refl, true, false, Option, none,
  some, List, [], ◌∷◌, arith, ◌==◌, if◌then◌else◌, has, erase, points_to, has-erase, Bool-cases,
}

-- From `h` the `next` fields lead through the nodes of the list to NULL, and each `prev` field
-- leads back; `p` is what stands before the first node.
abbrev pub Chain : (nx pv : ℕ → Option ℕ) (p h : Option ℕ) → List ℕ → Type 0
Chain nx pv p h [] = h ≡ none
Chain nx pv p h (x ∷ xs) = (h ≡ some x) × (pv x ≡ p) × Chain nx pv (some x) (nx x) xs

abbrev pub Distinct : List ℕ → Type 0
Distinct [] = Unit {0}
Distinct (x ∷ xs) = (has x xs ≡ false) × Distinct xs

pub Distinct-erase : (x : ℕ) (xs : List ℕ) → Distinct xs → Distinct (erase x xs)
Distinct-erase x [] d = d
Distinct-erase x (y ∷ ys) d = elim (Bool-cases (x == y)) [
  | inl e ↦ rw e d.1
  | inr e ↦ rw e (ground (arith, has-erase x y ys, d.0), Distinct-erase x ys d.1)
]

pub has-erase_self : (x : ℕ) (xs : List ℕ) → Distinct xs → has x (erase x xs) ≡ false
has-erase_self x [] d = refl
has-erase_self x (y ∷ ys) d = ground (arith, has-erase_self x ys d.1, d.0)

pub has-erase_ne : (x y : ℕ) (xs : List ℕ) → x ≢ y → has y (erase x xs) ≡ has y xs
has-erase_ne x y [] n = refl
has-erase_ne x y (z ∷ zs) n = ground (arith, has-erase_ne x y zs n)

module _ (nx pv : ℕ → Option ℕ) where
  pub next_in :
      (x y : ℕ) (p h : Option ℕ) (xs : List ℕ)
      → Chain nx pv p h xs
      → has x xs ≡ true
      → nx x ≡ some y
      → has y xs ≡ true
  next_in x y p h [] c i e = cc
  next_in x y p h (z ∷ []) c i e = ground arith
  next_in x y p h (z ∷ w ∷ ws) c i e = ground (arith, next_in x y (some z) (nx z) (w ∷ ws) c.2)

  pub prev_in :
      (x : ℕ) (p h : Option ℕ) (xs : List ℕ)
      → Chain nx pv p h xs
      → has x xs ≡ true
      → ((pv x ≡ p) × (h ≡ some x)) ⊎ ((u : ℕ) × (pv x ≡ some u) × (has u xs ≡ true))
  prev_in x p h [] c i = cc
  prev_in x p h (z ∷ zs) c i = elim (Bool-cases (x == z)) [
    | inl e ↦ inl (ground arith, ground arith)
    | inr e ↦ elim (prev_in x (some z) (nx z) zs c.2 (ground arith)) [
      | inl q ↦ inr (z, q.0, ground arith)
      | inr (u, q, j) ↦ inr (u, q, ground arith)
    ]
  ]

  -- A node is behind `z` exactly if it heads what is behind `z`.
  prev_of_head :
      (x z : ℕ) (h : Option ℕ) (xs : List ℕ)
      → Chain nx pv (some z) h xs
      → has x xs ≡ true
      → has z xs ≡ false
      → Distinct xs
      → points_to (pv x) z ≡ points_to h x
  prev_of_head x z h [] c i o d = cc
  prev_of_head x z h (w ∷ ws) c i o d = elim (Bool-cases (x == w)) [
    | inl e ↦ ground arith
    | inr e ↦ elim (prev_in x (some w) (nx w) ws c.2 (ground arith)) [
      | inl q ↦ ground arith
      | inr (u, q, j) ↦ ground arith
    ]
  ]

  -- What stands before a node that heads the chain, and before no node stands the node itself.
  pub prev_of_front :
      (x : ℕ) (p h : Option ℕ) (xs : List ℕ) → Chain nx pv p h xs → points_to h x ≡ true → pv x ≡ p
  prev_of_front x p h [] c f = ground arith
  prev_of_front x p h (z ∷ zs) c f = ground arith

  pub head_in :
      (x : ℕ) (p h : Option ℕ) (xs : List ℕ)
      → Chain nx pv p h xs
      → points_to h x ≡ true
      → has x xs ≡ true
  head_in x p h [] c f = ground arith
  head_in x p h (z ∷ zs) c f = ground arith

  pub not_own_prev :
      (x : ℕ) (p h : Option ℕ) (xs : List ℕ)
      → Chain nx pv p h xs
      → has x xs ≡ true
      → points_to p x ≡ false
      → pv x ≢ some x
  not_own_prev x p h [] c i o = cc
  not_own_prev x p h (z ∷ zs) c i o = elim (Bool-cases (x == z)) [
    | inl e ↦ ground arith
    | inr e ↦ not_own_prev x (some z) (nx z) zs c.2 (ground arith) (ground arith)
  ]

module _ (nx pv nx' pv' : ℕ → Option ℕ) where
  -- A chain survives any change that spares its own nodes.
  pub frame :
      (p h : Option ℕ) (xs : List ℕ)
      → Chain nx pv p h xs
      → ((y : ℕ) → has y xs ≡ true → (nx' y ≡ nx y) × (pv' y ≡ pv y))
      → Chain nx' pv' p h xs
  frame p h [] c same = c
  frame p h (x ∷ xs) c same =
      let e = same x (ground arith) in
      (c.0, e.1 ∙ c.1, rw e.0 (frame (some x) (nx x) xs c.2 λ y i. same y (ground arith)))

  -- The first node gets another node before it.
  pub repoint :
      (p p' h : Option ℕ) (xs : List ℕ)
      → Chain nx pv p h xs
      → Distinct xs
      → ((y : ℕ) → has y xs ≡ true → nx' y ≡ nx y)
      → ((y : ℕ) → has y xs ≡ true → pv' y ≡ (if points_to h y then p' else pv y))
      → Chain nx' pv' p' h xs
  repoint p p' h [] c d same back = c
  repoint p p' h (x ∷ xs) c d same back = (
    c.0,
    ground (arith, back x),
    rw (same x (ground arith))
        (frame (some x) (nx x) xs c.2 λ y i. (ground (arith, same y), ground (arith, back y))),
  )

module _ (nx pv nx' pv' : ℕ → Option ℕ) (x : ℕ) where
  unlink_front :
      (p : Option ℕ) (zs : List ℕ)
      → Chain nx pv (some x) (nx x) zs
      → Distinct (x ∷ zs)
      → pv x ≡ p
      → ((y : ℕ) → points_to p y ≡ true → has y zs ≡ false)
      → ((y : ℕ) → x ≢ y → nx' y ≡ (if points_to (pv x) y then nx x else nx y))
      → ((y : ℕ) → x ≢ y → pv' y ≡ (if points_to (nx x) y then pv x else pv y))
      → Chain nx' pv' p (nx x) zs
  unlink_front p zs c d b o en ep =
      repoint nx pv nx' pv' (some x) p (nx x) zs c d.1 (λ y i. ground (arith, en y, o y, d.0))
        (λ y i. ground (arith, ep y, d.0))

  -- Taking `x` out: the node before it and the node behind it are joined.
  pub unlink :
      (p h : Option ℕ) (xs : List ℕ)
      → Chain nx pv p h xs
      → Distinct xs
      → has x xs ≡ true
      → ((y : ℕ) → points_to p y ≡ true → has y xs ≡ false)
      → ((y : ℕ) → x ≢ y → nx' y ≡ (if points_to (pv x) y then nx x else nx y))
      → ((y : ℕ) → x ≢ y → pv' y ≡ (if points_to (nx x) y then pv x else pv y))
      → Chain nx' pv' p (if points_to h x then nx x else h) (erase x xs)
  unlink p h [] c d i o en ep = cc
  unlink p h (z ∷ zs) c d i o en ep = elim (Bool-cases (x == z)) [
    | inl e ↦
        (let q : z ≡ x = ground arith in
          let h' : h ≡ some x = c.0 ∙ ap some q in
          let new =
            unlink_front p zs (rw q at (c.2)) (rw q at d) (rw q at (c.1))
              (λ y t. ground (arith, o y)) en ep in
          rw (e, h', ==_refl x) new)
    | inr e ↦
        (let inside : has x zs ≡ true = ground arith in
          let rest = unlink (some z) (nx z) zs c.2 d.1 inside (λ y t. ground (arith, d.0)) en ep in
          let heads = prev_of_head nx pv x z (nx z) zs c.2 inside d.0 d.1 in
          let n : x ≢ z = ground arith in
          let h' : h ≡ some z = c.0 in
          rw (e, h')
            (rw (==_of_ne z x (λ q. n (sym q))) (
              refl,
              ground (arith, ep z n, next_in nx pv x z (some z) (nx z) zs c.2 inside),
              rw (en z n, heads) rest,
            )))
  ]
