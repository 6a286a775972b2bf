-- ===== src/Strings.antt =====
-- src/string.c: strings as the lists of their characters up to the null byte. A char is its code,
-- from 1 to 255: `char` is unsigned on the machine of the kernel.
pub mod Compare
mod Tests
pub mod Tokens
use nycu_osdi.Prelude.{
  ℕ, zero, suc, true, false, Option, none, some, List, [], ◌∷◌, ◌==◌, if◌then◌else◌, length,
}
use nycu_osdi.Prelude.Int.{ℤ, pos, sub_ℕ}

unfoldable pub strcmp : List ℕ → List ℕ → ℤ
strcmp [] [] = pos 0
strcmp [] (b ∷ t) = sub_ℕ 0 b
strcmp (a ∷ s) [] = sub_ℕ a 0
strcmp (a ∷ s) (b ∷ t) = let rest = strcmp s t in if a == b then rest else sub_ℕ a b

abbrev pub strlen : List ℕ → ℕ
strlen s = length s

-- `while (*p != delim && *p != '\0') p++`: what it passes, and what is left.
unfoldable pub scan : ℕ → List ℕ → List ℕ × List ℕ
scan delim [] = ([], [])
scan delim (c ∷ p) =
    let rest = scan delim p in if c == delim then ([], c ∷ p) else (c ∷ rest.0, rest.1)

-- `if (*p == delim) { *p = '\0'; p++; }`
abbrev pub step_over : ℕ → List ℕ → List ℕ
step_over delim [] = []
step_over delim (c ∷ p) = if c == delim then p else c ∷ p

-- `strtok` after its first line, by the static pointer: the token and the new pointer.
unfoldable pub strtok_from : ℕ → Option (List ℕ) → Option (List ℕ) × Option (List ℕ)
strtok_from delim none = (none, none)
strtok_from delim (some []) = (none, some [])
strtok_from delim (some (c ∷ p)) =
    let s = scan delim (c ∷ p) in (some s.0, some (step_over delim s.1))

unfoldable pub strtok : Option (List ℕ) → ℕ → Option (List ℕ) → Option (List ℕ) × Option (List ℕ)
strtok none delim p = strtok_from delim p
strtok (some str) delim p = strtok_from delim (some str)
