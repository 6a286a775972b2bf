-- ===== src/Prelude/Chains.antt =====
-- Linked lists through a field of numbered objects: the chain of a head pointer.
use nycu_osdi.Prelude.{ℕ, ◌<◌, ◌≡◌, Option, none, some, List, [], ◌∷◌, arith, count}

-- The chain from `p` on is `xs`.
abbrev pub Chained : (ℕ → Option ℕ) → Option ℕ → List ℕ → Type 0
Chained next p [] = p ≡ none
Chained next p (x ∷ xs) = (p ≡ some x) × Chained next (next x) xs

-- A chain survives writes to the others.
pub Chained-frame :
    (next next' : ℕ → Option ℕ) (p : Option ℕ) (xs : List ℕ)
    → ((y : ℕ) → 0 < count y xs → next' y ≡ next y)
    → Chained next p xs
    → Chained next' p xs
Chained-frame next next' p [] same c = c
Chained-frame next next' p (x ∷ xs) same c = (
  c.0,
  rw (same x (ground arith))
      (Chained-frame next next' (next x) xs (λ y h. same y (ground arith)) c.1),
)
