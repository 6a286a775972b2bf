-- ===== src/Strings/Tokens.antt =====
-- src/string.c: `strtok`.
use nycu_osdi.Prelude.{
  ℕ, ◌≡◌, ◌≢◌, refl, true, false, Option, none, some, List, [], ◌∷◌, ◌++◌, arith, ◌==◌, has,
}
use nycu_osdi.Strings.{scan, step_over, strtok_from, strtok}

-- The scan stops at the first delimiter.
scan-found :
    (delim : ℕ) (token rest : List ℕ)
    → has delim token ≡ false
    → scan delim (token ++ (delim ∷ rest)) ≡ (token, delim ∷ rest)
unfolding scan
scan-found delim [] rest free = (let at : (delim == delim) ≡ true = ground arith in rw at refl)
scan-found delim (c ∷ token) rest free =
    let other : (c == delim) ≡ false = ground arith in
    rw (other, scan-found delim token rest (ground arith)) refl

scan-end : (delim : ℕ) (token : List ℕ) → has delim token ≡ false → scan delim token ≡ (token, [])
unfolding scan
scan-end delim [] free = refl
scan-end delim (c ∷ token) free =
    let other : (c == delim) ≡ false = ground arith in
    rw (other, scan-end delim token (ground arith)) refl

-- The rest of the string behind a token, and the string for a token and such a rest.
abbrev pub joined : List ℕ → ℕ → Option (List ℕ) → List ℕ
joined token delim none = token
joined token delim (some rest) = token ++ (delim ∷ rest)

abbrev pub rest_of : Option (List ℕ) → List ℕ
rest_of none = []
rest_of (some rest) = rest

strtok_from-cons :
    (delim : ℕ) (s : List ℕ)
    → s ≢ []
    → strtok_from delim (some s) ≡ (some (scan delim s).0, some (step_over delim (scan delim s).1))
unfolding strtok_from
strtok_from-cons delim [] ne = absurd (ne refl)
strtok_from-cons delim (c ∷ s) ne = refl

-- On a string that is not empty, `strtok` returns the part up to the first delimiter, or all of it
-- if there is none, and the next call goes on behind the delimiter. It does so for a string that
-- it is given and for the rest that it kept.
pub strtok_lem :
    (delim : ℕ) (token : List ℕ) (rest kept : Option (List ℕ))
    → has delim token ≡ false
    → joined token delim rest ≢ []
    → (strtok (some (joined token delim rest)) delim kept ≡ (some token, some (rest_of rest)))
      × (strtok none delim (some (joined token delim rest)) ≡ (some token, some (rest_of rest)))
unfolding strtok
strtok_lem delim token none kept free ne =
    let e = strtok_from-cons delim token ne in rw e (rw (scan-end delim token free) (refl, refl))
strtok_lem delim token (some rest) kept free ne =
    let e = strtok_from-cons delim (token ++ (delim ∷ rest)) ne in
    let at : (delim == delim) ≡ true = ground arith in
    rw e (rw (scan-found delim token rest free) (rw at (refl, refl)))

-- At the end of the string, and before any string was given, `strtok` returns NULL.
pub strtok-done :
    (delim : ℕ)
    → (strtok none delim (some []) ≡ (none, some [])) × (strtok none delim none ≡ (none, none))
unfolding strtok strtok_from
strtok-done delim = (refl, refl)
