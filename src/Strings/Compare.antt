-- ===== src/Strings/Compare.antt =====
-- src/string.c: `strcmp`.
use nycu_osdi.Prelude.{
  ℕ, ◌≡◌, ◌≢◌, ◌↔◌, refl, true, List, [], ◌∷◌, arith, ◌==◌, Bool-cases, inl, inr,
}
use nycu_osdi.Prelude.Int.{pos, sub_ℕ}
use nycu_osdi.Strings.{strcmp}

-- No character is the null byte.
abbrev pub IsString : List ℕ → Type 0
IsString [] = Unit {0}
IsString (c ∷ s) = (c ≢ 0) × IsString s

pub strcmp_self : (s : List ℕ) → strcmp s s ≡ pos 0
unfolding strcmp
strcmp_self [] = refl
strcmp_self (a ∷ s) = let same : (a == a) ≡ true = ground arith in rw same (strcmp_self s)

sub_ℕ-zero : (a b : ℕ) → sub_ℕ a b ≡ pos 0 → a ≡ b
sub_ℕ-zero a b e = ground (arith, e)

-- `strcmp` returns 0 for equal strings only.
pub strcmp-zero : (s t : List ℕ) → IsString s → IsString t → strcmp s t ≡ pos 0 → s ≡ t
unfolding strcmp
strcmp-zero [] [] p q e = refl
strcmp-zero [] (b ∷ t) p q e = absurd (ground (arith, e, q.0))
strcmp-zero (a ∷ s) [] p q e = absurd (ground (arith, e, p.0))
strcmp-zero (a ∷ s) (b ∷ t) p q e = elim (Bool-cases (a == b)) [
  | inl same ↦
      (let at : a ≡ b = ground arith in let rest = strcmp-zero s t p.1 q.1 (rw same at e) in cc)
  | inr other ↦
      (let differ : sub_ℕ a b ≡ pos 0 = (rw other at e) in
        absurd (ground (arith, sub_ℕ-zero a b differ)))
]

-- `strcmp` returns 0 exactly if the strings are equal.
pub strcmp-zero_iff : (s t : List ℕ) → IsString s → IsString t → (strcmp s t ≡ pos 0) ↔ (s ≡ t)
strcmp-zero_iff s t p q = (strcmp-zero s t p q, λ e. rw e (strcmp_self t))
