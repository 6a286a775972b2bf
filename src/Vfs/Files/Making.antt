-- ===== src/Vfs/Files/Making.antt =====
-- src/fs_vfs.c: in which directory `vfs_mkdir` makes which name.
use nycu_osdi.Prelude.{
  ℕ, ◌≡◌, ◌∙◌, ap, true, false, Option, some, List, [], ◌∷◌, ◌++◌, ◌>>=◌, arith, has, length,
}
use nycu_osdi.Strings.Compare.{IsString}
use nycu_osdi.Vfs.{Vfs, Place, starts_with_slash, vfs_lookup}
use nycu_osdi.Vfs.Paths.{parts, along, begins, vfs_lookup_lem}
use nycu_osdi.Vfs.Files.{
  Ops, Copies, last_slash, basename, find_parent, cwd_or_error, make_in, vfs_mkdir,
}
use nycu_osdi.Vfs.Files.Splitting.{last_slash_lem, last_slash-none, basename-append, take-append}

-- Every copy of a path gets memory.
abbrev pub with_memory : Copies
with_memory = record { first = true; own = true; parent = true }

-- Where a walk along the parts of `dir` leads, from the root if the path begins with a slash.
abbrev pub parent_place : (dir name : List ℕ) → Vfs → Place
parent_place dir name v = along (parts dir) (begins (starts_with_slash (dir ++ (47 ∷ name))) v) v

IsString-left : (xs ys : List ℕ) → IsString (xs ++ ys) → IsString xs
IsString-left [] ys s = tt
IsString-left (x ∷ xs) ys s = (s.0, IsString-left xs ys s.1)

pub find_parent_lem :
    (bare : Place) (dir name : List ℕ) (v : Vfs)
    → IsString (dir ++ (47 ∷ name))
    → find_parent true bare (some (length dir)) (dir ++ (47 ∷ name)) v
      ≡ some (parent_place dir name v)
unfolding find_parent
find_parent_lem bare [] name v s = vfs_lookup_lem (47 ∷ []) v (ground arith, tt)
find_parent_lem bare (c ∷ dir) name v s =
    ap (λ p. vfs_lookup true p v) (take-append (c ∷ dir) (47 ∷ name))
    ∙ vfs_lookup_lem (c ∷ dir) v (IsString-left (c ∷ dir) (47 ∷ name) s)

-- What `vfs_open` and `vfs_mkdir` do after the split of a path.
pub find_parent-split :
    {B : Type 0} (bare : Place) (dir name : List ℕ) (v : Vfs)
    → IsString (dir ++ (47 ∷ name))
    → has 47 name ≡ false
    → (rest : List ℕ → Place → Option B)
    → (let path = dir ++ (47 ∷ name) in
        find_parent true bare (last_slash (length path) path) path v >>= λ p.
        rest (basename (last_slash (length path) path) path) p)
      ≡ rest name (parent_place dir name v)
find_parent-split bare dir name v str h rest =
    let path = dir ++ (47 ∷ name) in
    ap (λ o. find_parent true bare o path v >>= λ p. rest (basename o path) p)
      (last_slash_lem dir name h)
    ∙ (ap (λ n. find_parent true bare (some (length dir)) path v >>= λ p. rest n p)
          (basename-append dir name)
        ∙ ap (λ r. r >>= λ p. rest name p) (find_parent_lem bare dir name v str))

module _ {σ : Type 0} (ops : Ops σ) where
  -- With memory for its copies, `vfs_mkdir` of a path with a slash ends: it makes the part behind
  -- the last slash in the directory that the walk along the parts before it leads to.
  pub vfs_mkdir_lem :
      (dir name : List ℕ) (s : σ)
      → IsString (dir ++ (47 ∷ name))
      → has 47 name ≡ false
      → vfs_mkdir ops with_memory (some (dir ++ (47 ∷ name))) s
        ≡ some (make_in ops name (parent_place dir name (ops.view s)) s)
  unfolding vfs_mkdir
  vfs_mkdir_lem dir name s str h =
      find_parent-split (cwd_or_error (ops.view s)) dir name (ops.view s) str h
        (λ n p. some (make_in ops n p s))

  -- A path without a slash is made in the working directory; without one that is an error.
  pub vfs_mkdir-bare :
      (name : List ℕ) (s : σ)
      → has 47 name ≡ false
      → vfs_mkdir ops with_memory (some name) s
        ≡ some (make_in ops name (cwd_or_error (ops.view s)) s)
  unfolding vfs_mkdir find_parent
  vfs_mkdir-bare name s h =
      ap
        (λ o. find_parent true (cwd_or_error (ops.view s)) o name (ops.view s) >>= λ p.
          some (make_in ops (basename o name) p s))
        (last_slash-none (length name) name h)
