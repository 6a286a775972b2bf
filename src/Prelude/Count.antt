-- ===== src/Prelude/Count.antt =====
-- How often a number is in a list.
use Prim.Native.Nat.{ℕ, ◌+◌, ◌≤◌}
use mathlib.Core.Path.{◌≡◌, refl, ap}
use mathlib.Core.Logic.{◌≢◌}
use mathlib.Core.Bool.{false}
use mathlib.Core.List.{List, [], ◌∷◌, ◌++◌}
use native.Mathlib.Omega.{arith}
use nycu_osdi.Prelude.Tests.{◌==◌, if◌then◌else◌}
use nycu_osdi.Prelude.Lists.{erase}

abbrev pub count : ℕ → List ℕ → ℕ
count p [] = 0
count p (x ∷ xs) = (if x == p then 1 else 0) + count p xs

pub count-append : (p : ℕ) (xs ys : List ℕ) → count p (xs ++ ys) ≡ count p xs + count p ys
count-append p [] ys = omega arith
count-append p (x ∷ xs) ys = omega (arith, count-append p xs ys)

pub count-erase : (t p : ℕ) (xs : List ℕ) → t ≢ p → count p (erase t xs) ≡ count p xs
count-erase t p [] ne = refl
count-erase t p (x ∷ xs) ne = ground (arith, count-erase t p xs ne)

pub count-erase_self : (t : ℕ) (xs : List ℕ) → count t xs ≤ 1 → count t (erase t xs) ≡ 0
count-erase_self t [] h = refl
count-erase_self t (x ∷ xs) h = ground (arith, count-erase_self t xs)

pub erase_absent : (t : ℕ) (xs : List ℕ) → count t xs ≡ 0 → erase t xs ≡ xs
erase_absent t [] h = refl
erase_absent t (x ∷ xs) h =
    let ne : (t == x) ≡ false = ground arith in
    rw ne (ap (λ l. x ∷ l) (erase_absent t xs (omega (arith, h))))
