-- ===== src/Vfs/Paths.antt =====
-- src/fs_vfs.c: what `vfs_lookup` makes of a path.
use mathlib.Core.Bool.{false≢true}
use nycu_osdi.Prelude.{
  ℕ, zero, suc, ◌+◌, ◌≤◌, ◌<◌, ◌≡◌, ◌≢◌, ◌⊎◌, ◌∙◌, refl, sym, ap, Bool, true, false, Option, none,
  some, List, [], ◌∷◌, ◌++◌, arith, ◌==◌, if◌then◌else◌, length, append_nil, append_assoc,
  Bool-cases, inl, inr,
}
use nycu_osdi.Prelude.Int.{ℤ, pos, eq_ℤ, eq_ℤ_iff}
use nycu_osdi.Strings.{strcmp, scan, step_over}
use nycu_osdi.Strings.Compare.{IsString, strcmp-zero}
use nycu_osdi.Vfs.{
  Vfs, Place, at, failed, einterr, skip_slashes, split_component, get_next_component,
  step_component, walk, lookup_from, lookup_relative, starts_with_slash, vfs_lookup,
}

-- A part between slashes, if it is not empty.
abbrev pub part : List ℕ → List (List ℕ)
part [] = []
part (c ∷ w) = (c ∷ w) ∷ []

-- The parts of a path, by one pass; `w` is the part so far.
abbrev pub parts_from : List ℕ → List ℕ → List (List ℕ)
parts_from w [] = part w
parts_from w (c ∷ path) =
    if c == 47 then part w ++ parts_from [] path else parts_from (w ++ (c ∷ [])) path

abbrev pub parts : List ℕ → List (List ℕ)
parts path = parts_from [] path

-- The walk along the parts, one after the other, up to the first that fails.
abbrev pub along : List (List ℕ) → Place → Vfs → Place
along [] p v = p
along (name ∷ names) (failed e) v = failed e
along (name ∷ names) (at current) v = along names (step_component name current v) v

parts_from-scan :
    (w path : List ℕ)
    → parts_from w path ≡ part (w ++ (scan 47 path).0) ++ parts (step_over 47 (scan 47 path).1)
unfolding scan
parts_from-scan w [] = rw (append_nil w) (sym (append_nil (part w)))
parts_from-scan w (c ∷ path) = elim (Bool-cases (c == 47)) [
  | inl is_slash ↦ rw is_slash (rw is_slash (ap (λ x. part x ++ parts path) (sym (append_nil w))))
  | inr other ↦ rw other (
      parts_from-scan (w ++ (c ∷ [])) path
      ∙ ap (λ x. part x ++ parts (step_over 47 (scan 47 path).1))
          (append_assoc w (c ∷ []) (scan 47 path).0))
]

parts-skip : (path : List ℕ) → parts (skip_slashes path) ≡ parts path
unfolding skip_slashes
parts-skip [] = refl
parts-skip (c ∷ path) = elim (Bool-cases (c == 47)) [
  | inl is_slash ↦ rw is_slash (parts-skip path)
  | inr other ↦ rw other (rw other refl)
]

length-step_over : (path : List ℕ) → length (step_over 47 path) ≤ length path
length-step_over [] = omega arith
length-step_over (c ∷ path) = ground arith

length-scan : (path : List ℕ) → length (scan 47 path).1 ≤ length path
unfolding scan
length-scan [] = omega arith
length-scan (c ∷ path) = ground (arith, length-scan path)

-- What is left after the slashes: nothing, or a path that begins with another character.
skip_slashes_lem :
    (path : List ℕ)
    → (skip_slashes path ≡ [])
      ⊎ ((c : ℕ) × (p : List ℕ) × (skip_slashes path ≡ c ∷ p)
          × ((c == 47) ≡ false)
          × (length p < length path))
unfolding skip_slashes
skip_slashes_lem [] = inl refl
skip_slashes_lem (c ∷ path) = elim (Bool-cases (c == 47)) [
  | inl is_slash ↦ rw is_slash (elim (skip_slashes_lem path) [
    | inl done ↦ inl done
    | inr (d, p, e, other, lt) ↦ inr (d, p, e, other, omega (arith, lt))
  ])
  | inr other ↦ rw other (inr (c, path, refl, other, omega arith))
]

-- `get_next_component` gives the first part, and leaves a shorter path for the others.
get_next_component_lem :
    (path : List ℕ)
    → ((get_next_component path ≡ none) × (parts path ≡ []))
      ⊎ ((name : List ℕ) × (rest : List ℕ) × (get_next_component path ≡ some (name, rest))
          × (parts path ≡ name ∷ parts rest)
          × (length rest < length path))
unfolding get_next_component scan
get_next_component_lem path = elim (skip_slashes_lem path) [
  | inl done ↦ inl (ap split_component done, sym (parts-skip path) ∙ ap (λ p. parts p) done)
  | inr (c, p, e, other, lt) ↦
      let first : scan 47 (c ∷ p) ≡ (c ∷ (scan 47 p).0, (scan 47 p).1) = rw other refl in
      inr (
        c ∷ (scan 47 p).0,
        step_over 47 (scan 47 p).1,
        ap split_component e ∙ ap (λ s. some (s.0, step_over 47 s.1)) first,
        sym (parts-skip path)
            ∙ ap (λ q. parts q) e
            ∙ parts_from-scan [] (c ∷ p)
            ∙ ap (λ s. part s.0 ++ parts (step_over 47 s.1)) first,
        omega (arith, lt, length-scan p, length-step_over (scan 47 p).1),
      )
]

along-failed : (e : ℤ) (l : List (List ℕ)) (v : Vfs) → along l (failed e) v ≡ failed e
along-failed e [] v = refl
along-failed e (x ∷ l) v = refl

-- With more rounds than characters, the loop ends, and walks along the parts.
pub walk_lem :
    (n : ℕ) (path : List ℕ) (current : ℕ) (v : Vfs)
    → length path < n
    → walk n path current v ≡ some (along (parts path) (at current) v)
unfolding walk
walk_lem zero path current v lt = absurd (omega arith)
walk_lem (suc n) path current v lt = elim (get_next_component_lem path) [
  | inl (done, no_parts) ↦ rw (done, walk) (ap (λ l. some (along l (at current) v)) (sym no_parts))
  | inr (name, rest, e, more, shorter) ↦
      rw (e, walk)
        (go (step_component name current v) n rest (λ next. walk_lem n rest next v (omega arith))
          ∙ ap (λ l. some (along l (at current) v)) (sym more))
]
  where
    go :
        (p : Place) (n : ℕ) (rest : List ℕ)
        → ((next : ℕ) → walk n rest next v ≡ some (along (parts rest) (at next) v))
        → elim p [ failed e ↦ some (failed e) | at next ↦ walk n rest next v ]
          ≡ some (along (parts rest) p v)
    go (failed e) n rest on = ap (λ p. some p) (sym (along-failed e (parts rest) v))
    go (at next) n rest on = on next

dot_stays : (current : ℕ) (v : Vfs) → step_component (46 ∷ []) current v ≡ at current
unfolding step_component strcmp
dot_stays current v = refl

one-IsString : (c : ℕ) → c ≢ 0 → IsString (c ∷ [])
one-IsString c ne = (ne, tt)

lookup_from_lem :
    (path : List ℕ) (current : ℕ) (v : Vfs)
    → IsString path
    → (starts_with_slash path ≡ true → current ≡ v.root)
    → lookup_from path current v ≡ some (along (parts path) (at current) v)
unfolding lookup_from
lookup_from_lem path current v s rooted = elim (Bool-cases (eq_ℤ (strcmp path (47 ∷ [])) (pos 0))) [
  | inl is_root ↦
      (let e : path ≡ 47 ∷ [] =
          strcmp-zero path (47 ∷ []) s (one-IsString 47 (ground arith))
            ((eq_ℤ_iff (strcmp path (47 ∷ [])) (pos 0)).0 is_root) in
        let root : current ≡ v.root = rooted (ap starts_with_slash e) in
        rw is_root (
          ap (λ c. some (at c)) (sym root)
          ∙ ap (λ p. some (along (parts p) (at current) v)) (sym e)))
  | inr not_root ↦ elim (Bool-cases (length path == 0)) [
    | inl empty ↦ rw (not_root, empty) (nothing path empty)
    | inr more ↦ elim (Bool-cases (eq_ℤ (strcmp path (46 ∷ [])) (pos 0))) [
      | inl is_dot ↦
          (let e : path ≡ 46 ∷ [] =
              strcmp-zero path (46 ∷ []) s (one-IsString 46 (ground arith))
                ((eq_ℤ_iff (strcmp path (46 ∷ [])) (pos 0)).0 is_dot) in
            rw (not_root, more, is_dot)
              (ap (λ p. some p) (sym (dot_stays current v))
                ∙ ap (λ p. some (along (parts p) (at current) v)) (sym e)))
      | inr other ↦
          rw (not_root, more, other) (walk_lem (length path + 1) path current v (omega arith))
    ]
  ]
]
  where
    nothing :
        (p : List ℕ)
        → (length p == 0) ≡ true
        → some (at current) ≡ some (along (parts p) (at current) v)
    nothing [] e = refl
    nothing (x ∷ p) e = absurd (ground (arith, e))

-- Where the walk begins: at the root for a path that starts with a slash, else at the working
-- directory; without one the lookup fails.
abbrev pub begins : Bool → Vfs → Place
begins true v = at v.root
begins false v = elim v.cwd [ none ↦ failed einterr | some cwd ↦ at cwd ]

-- `vfs_lookup`, with memory for its copy, always ends, and walks along the parts of the path, its
-- special cases included; slashes that follow each other or end the path make no part.
pub vfs_lookup_lem :
    (path : List ℕ) (v : Vfs)
    → IsString path
    → vfs_lookup true path v ≡ some (along (parts path) (begins (starts_with_slash path) v) v)
unfolding vfs_lookup
vfs_lookup_lem path v s = elim (Bool-cases (starts_with_slash path)) [
  | inl absolute ↦ rw absolute (lookup_from_lem path v.root v s (λ e. refl))
  | inr relative ↦ rw relative (by v.cwd relative)
]
  where
    by :
        (o : Option ℕ)
        → starts_with_slash path ≡ false
        → lookup_relative path o v
          ≡ some (along (parts path) (elim o [ none ↦ failed einterr | some cwd ↦ at cwd ]) v)
    by none e = ap (λ p. some p) (sym (along-failed einterr (parts path) v))
    by (some cwd) e = lookup_from_lem path cwd v s (λ q. absurd (false≢true (sym e ∙ q)))
