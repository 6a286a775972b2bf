-- ===== src/Strings/Tests.antt =====
-- Concrete strings for src/string.c.
use nycu_osdi.Prelude.{ℕ, ◌≡◌, ◌↔◌, refl, none, some, List, [], ◌∷◌, arith}
use nycu_osdi.Prelude.Int.{pos}
use nycu_osdi.Strings.{strcmp, strtok}
use nycu_osdi.Strings.Compare.{strcmp-zero_iff}
use nycu_osdi.Strings.Tokens.{joined, strtok_lem}

abbrev ab : List ℕ
ab = 97 ∷ 98 ∷ []

strcmp-zero_iff_example : (strcmp ab (97 ∷ []) ≡ pos 0) ↔ (ab ≡ (97 ∷ []))
strcmp-zero_iff_example =
    strcmp-zero_iff ab (97 ∷ []) (ground arith, (ground arith, tt)) (ground arith, tt)

-- "ab/a" at '/'.
strtok_lem_example :
    (strtok (some (joined ab 47 (some (97 ∷ [])))) 47 none ≡ (some ab, some (97 ∷ [])))
    × (strtok none 47 (some (joined ab 47 (some (97 ∷ [])))) ≡ (some ab, some (97 ∷ [])))
strtok_lem_example = strtok_lem 47 ab (some (97 ∷ [])) none refl (λ e. cc)
