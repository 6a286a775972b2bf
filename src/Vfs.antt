-- ===== src/Vfs.antt =====
-- src/fs_vfs.c: `register_filesystem` and the lookup of paths.
--
-- A vnode is a number. The operations of the file systems are reached through the function
-- `lookup`, none where `v_ops` or its field is NULL; its results are those of a call in the present
-- state. A path is the list of its characters.
pub mod Files
pub mod Paths
mod Tests
use nycu_osdi.Prelude.{
  ℕ, zero, suc, ◌+◌, Bool, true, false, Option, none, some, List, [], ◌∷◌, ◌++◌, ◌==◌, ltb,
  if◌then◌else◌, length, points_to,
}
use nycu_osdi.Prelude.Int.{ℤ, pos, negsuc, eq_ℤ}
use nycu_osdi.Strings.{strcmp, strlen, scan, step_over}

abbrev pub max_filesystems : ℕ
max_filesystems = 10

-- ENOSYS_VFS and EINTERR_VFS; ENOMEM_VFS, EINVAL_VFS, EEXIST_VFS
abbrev pub enosys : ℤ
enosys = negsuc 4

abbrev pub einterr : ℤ
einterr = negsuc 7

abbrev pub enomem : ℤ
enomem = negsuc 2

abbrev pub einval : ℤ
einval = negsuc 3

abbrev pub eexist : ℤ
eexist = negsuc 6

-- The loop of `register_filesystem`: is one of the names the new one?
unfoldable pub is_registered : List (List ℕ) → List ℕ → Bool
is_registered [] name = false
is_registered (other ∷ names) name =
    let rest = is_registered names name in if eq_ℤ (strcmp other name) (pos 0) then true else rest

-- `filesystems` by the names of its entries. The name is none if the file system or its name is
-- NULL; registered ones have names.
unfoldable pub register_filesystem : Option (List ℕ) → List (List ℕ) → ℤ × List (List ℕ)
register_filesystem none names = (einval, names)
register_filesystem (some name) names =
    if ltb (length names) max_filesystems
    then (if is_registered names name then (eexist, names) else (pos 0, names ++ (name ∷ [])))
    else (enomem, names)

-- The vnodes as `vfs_lookup` reads them, `rootfs->root`, and `get_current()->cwd`.
pub record Vfs : Type 0 where
  pub mount : ℕ → Option ℕ
  pub mount_root : ℕ → ℕ
  pub parent : ℕ → Option ℕ
  pub lookup : ℕ → Option (List ℕ → ℤ × Option ℕ)
  pub root : ℕ
  pub cwd : Option ℕ

abbrev pub slash : ℕ
slash = 47

abbrev pub dot : ℕ
dot = 46

-- `while (*component == '/') component++`
unfoldable pub skip_slashes : List ℕ → List ℕ
skip_slashes [] = []
skip_slashes (c ∷ path) = let rest = skip_slashes path in if c == slash then rest else c ∷ path

-- The rest of `get_next_component`, from the first character that is no slash.
abbrev pub split_component : List ℕ → Option (List ℕ × List ℕ)
split_component [] = none
split_component (c ∷ path) = let s = scan slash (c ∷ path) in some (s.0, step_over slash s.1)

-- The component and the path behind it, none for NULL.
unfoldable pub get_next_component : List ℕ → Option (List ℕ × List ℕ)
get_next_component path = split_component (skip_slashes path)

-- Where the walk is, or the error that it returns.
pub data Place : Type 0 where
  at : ℕ → Place
  failed : ℤ → Place

-- `vnode->mount->root` if the vnode is a mount point.
abbrev pub enter : ℕ → Option ℕ → Vfs → ℕ
enter vnode none v = vnode
enter vnode (some m) v = v.mount_root m

abbrev pub up_to : Option ℕ → Place
up_to none = failed einterr
up_to (some vnode) = at vnode

-- `vfs_p->mount != NULL && vfs_p->mount->root == current_vnode`
abbrev pub is_mounted_at : Option ℕ → ℕ → Vfs → Bool
is_mounted_at none current v = false
is_mounted_at (some m) current v = v.mount_root m == current

-- The branch for "..", by `current_vnode->parent`.
unfoldable pub go_up : Option ℕ → ℕ → Vfs → Place
go_up none current v = failed einterr
go_up (some vfs_p) current v =
    if is_mounted_at (v.mount vfs_p) current v
    then (if vfs_p == v.root then at v.root else up_to (v.parent vfs_p))
    else at vfs_p

-- The results of a call of `lookup`. On success the code enters the vnode without a test for NULL;
-- no file system returns 0 with NULL.
abbrev pub arrived : ℤ × Option ℕ → Vfs → Place
arrived (pos zero, some vnode) v = at (enter vnode (v.mount vnode) v)
arrived (e, vnode) v = failed e

abbrev pub look_in : Option (List ℕ → ℤ × Option ℕ) → List ℕ → Vfs → Place
look_in none name v = failed enosys
look_in (some lookup) name v = arrived (lookup name) v

-- One round of the loop of `vfs_lookup`.
unfoldable pub step_component : List ℕ → ℕ → Vfs → Place
step_component name current v =
    if eq_ℤ (strcmp name (dot ∷ [])) (pos 0)
    then at current
    else if eq_ℤ (strcmp name (dot ∷ dot ∷ [])) (pos 0)
    then (if current == v.root then at current else go_up (v.parent current) current v)
    else look_in (v.lookup (enter current (v.mount current) v)) name v

-- The loop; none if the rounds do not suffice.
unfoldable pub walk : ℕ → List ℕ → ℕ → Vfs → Option Place
walk zero path current v = none
walk (suc n) path current v = elim (get_next_component path) [
  | none ↦ some (at current)
  | some r ↦ elim (step_component r.0 current v) [
    | failed e ↦ some (failed e)
    | at next ↦ walk n r.1 next v
  ]
]

-- `vfs_lookup` from the vnode where it begins. Every round but the last takes a character.
unfoldable pub lookup_from : List ℕ → ℕ → Vfs → Option Place
lookup_from pathname current v =
    if eq_ℤ (strcmp pathname (slash ∷ [])) (pos 0)
    then some (at v.root)
    else if strlen pathname == 0
    then some (at current)
    else if eq_ℤ (strcmp pathname (dot ∷ [])) (pos 0)
    then some (at current)
    else walk (length pathname + 1) pathname current v

abbrev pub lookup_relative : List ℕ → Option ℕ → Vfs → Option Place
lookup_relative pathname none v = some (failed einterr)
lookup_relative pathname (some cwd) v = lookup_from pathname cwd v

abbrev pub starts_with_slash : List ℕ → Bool
starts_with_slash [] = false
starts_with_slash (c ∷ path) = c == slash

-- `copied` is whether `strdup` gets memory.
unfoldable pub vfs_lookup : (copied : Bool) → List ℕ → Vfs → Option Place
vfs_lookup false pathname v = some (failed enomem)
vfs_lookup true pathname v =
    if starts_with_slash pathname
    then lookup_from pathname v.root v
    else lookup_relative pathname v.cwd v
