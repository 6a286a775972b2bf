-- ===== src/Mm/Cover.antt =====
-- How often the blocks of the free lists cover a frame.
use nycu_osdi.Prelude.{
  ℕ, zero, suc, ◌+◌, ◌^◌, ◌≤◌, ◌<◌, ◌≡◌, refl, true, List, [], ◌∷◌, arith, ltb, leb, ◌==◌, ◌&&◌,
  if◌then◌else◌, pow-suc, has, erase, update, Bool-cases, inl, inr,
}
use native.Mathlib.Nat.{one-le-pow}
use nycu_osdi.Mm.Lists.{Free}

-- 1 if frame `p` is one of the 2 ^ k frames from `i` on, else 0.
unfoldable pub covers : ℕ → ℕ → ℕ → ℕ
covers i k p = if leb i p && ltb p (i + 2 ^ k) then 1 else 0

unfoldable pub cover_list : ℕ → List ℕ → ℕ → ℕ
cover_list k [] p = 0
cover_list k (x ∷ xs) p = covers x k p + cover_list k xs p

-- Over the lists of the orders below `n`.
unfoldable pub cover_below : ℕ → Free → ℕ → ℕ
cover_below zero fr p = 0
cover_below (suc n) fr p = cover_below n fr p + cover_list n (fr n) p

abbrev pub cover : Free → ℕ → ℕ
cover fr p = cover_below 14 fr p

-- A block of order k + 1 is the two blocks of order k in it.
pub covers_halves : (i k p : ℕ) → covers i (suc k) p ≡ covers i k p + covers (i + 2 ^ k) k p
unfolding covers
covers_halves i k p = ground (arith, pow-suc 2 k, one-le-pow k 2)

pub covers_first : (i k : ℕ) → covers i k i ≡ 1
unfolding covers
covers_first i k = ground (arith, one-le-pow k 2)

pub covers-le-one : (i k p : ℕ) → covers i k p ≤ 1
unfolding covers
covers-le-one i k p = ground arith

pub cover_list-erase :
    (k x p : ℕ) (xs : List ℕ)
    → has x xs ≡ true
    → cover_list k (erase x xs) p + covers x k p ≡ cover_list k xs p
unfolding cover_list
cover_list-erase k x p [] h = absurd (ground arith)
cover_list-erase k x p (y ∷ ys) h = ground (arith, cover_list-erase k x p ys)

cover_below-update_ge :
    (n k p : ℕ) (fr : Free) (l : List ℕ)
    → n ≤ k
    → cover_below n (update fr k l) p ≡ cover_below n fr p
unfolding cover_below
cover_below-update_ge zero k p fr l h = refl
cover_below-update_ge (suc n) k p fr l h = ground (arith, cover_below-update_ge n k p fr l)

pub cover_below-update :
    (n k p : ℕ) (fr : Free) (l : List ℕ)
    → k < n
    → cover_below n (update fr k l) p + cover_list k (fr k) p
      ≡ cover_below n fr p + cover_list k l p
unfolding cover_below
cover_below-update zero k p fr l h = absurd (omega arith)
cover_below-update (suc n) k p fr l h = elim (Bool-cases (k == n)) [
  | inl e ↦ ground (arith, cover_below-update_ge n k p fr l)
  | inr e ↦ ground (arith, cover_below-update n k p fr l)
]

cover_list-le : (n k p : ℕ) (fr : Free) → k < n → cover_list k (fr k) p ≤ cover_below n fr p
unfolding cover_below
cover_list-le zero k p fr h = absurd (omega arith)
cover_list-le (suc n) k p fr h = elim (Bool-cases (k == n)) [
  | inl e ↦ ground arith
  | inr e ↦ ground (arith, cover_list-le n k p fr)
]

-- A block of a free list covers its frames.
pub covers-le-cover :
    (k x p : ℕ) (fr : Free) → k < 14 → has x (fr k) ≡ true → covers x k p ≤ cover fr p
covers-le-cover k x p fr h i =
    omega (arith, cover_list-erase k x p (fr k) i, cover_list-le 14 k p fr h)

-- Putting a block on a list, and taking it off.
pub cover-put :
    (k x p : ℕ) (fr : Free) → k < 14 → cover (update fr k (x ∷ fr k)) p ≡ cover fr p + covers x k p
unfolding cover_list
cover-put k x p fr h = omega (arith, cover_below-update 14 k p fr (x ∷ fr k) h)

pub cover-take :
    (k x p : ℕ) (fr : Free)
    → k < 14
    → has x (fr k) ≡ true
    → cover (update fr k (erase x (fr k))) p + covers x k p ≡ cover fr p
cover-take k x p fr h i =
    omega (arith, cover_below-update 14 k p fr (erase x (fr k)) h, cover_list-erase k x p (fr k) i)
