-- ===== src/Vfs/Files/Mounting.antt =====
-- src/fs_vfs.c: `vfs_mount`, over the operations of the file systems.
use nycu_osdi.Prelude.{
  ℕ, zero, ◌+◌, Bool, true, false, Option, none, some, List, [], ◌∷◌, ◌||◌, if◌then◌else◌, ◌>>=◌,
}
use nycu_osdi.Prelude.Int.{ℤ, pos, eq_ℤ}
use nycu_osdi.Strings.{strcmp}
use nycu_osdi.Vfs.{Place, at, failed, vfs_lookup, enosys, enomem, einval}
use nycu_osdi.Vfs.Files.{Ops, enodev, ebusy}

module _ {σ : Type 0} (ops : Ops σ) where
  -- The results of `setup_mount`: a failure takes the mount back.
  unfoldable pub mounted_by : (target : ℕ) → (ℤ × ℕ) × σ → ℤ × σ
  mounted_by target ((pos zero, root), s) = (pos 0, ops.set_parent root target s)
  mounted_by target ((e, root), s) = (e, ops.set_mount target none s)

  -- The mount at a vnode that is free for it, in the new structure.
  unfoldable pub mount_on : (fs target mount : ℕ) → σ → ℤ × σ
  mount_on fs target mount s =
      let s' = ops.set_mount target (some mount) s in
      elim (ops.setup_mount s' fs) [ none ↦ (enosys, s') | some f ↦ mounted_by target (f mount) ]

  -- `vnode->mount != NULL || vnode->parent_is_mount`
  abbrev pub is_busy : ℕ → σ → Bool
  is_busy target s =
      (elim ((ops.view s).mount target) [ none ↦ false | some m ↦ true ])
      || ops.parent_is_mount s target

  abbrev pub mount_free : (mount : Option ℕ) → (fs target : ℕ) → σ → ℤ × σ
  mount_free none fs target s = (enomem, s)
  mount_free (some m) fs target s = mount_on fs target m s

  unfoldable pub mount_at : (mount : Option ℕ) → (fs : ℕ) → Place → σ → ℤ × σ
  mount_at mount fs (failed e) s = (e, s)
  mount_at mount fs (at target) s = elim (ops.mkdir s target) [
    | none ↦ (enosys, s)
    | some f ↦ if is_busy target s then (ebusy, s) else mount_free mount fs target s
  ]

-- The loop of `vfs_mount`: the index of the file system with this name, from `i` on.
unfoldable pub find_filesystem : List (List ℕ) → List ℕ → ℕ → Option ℕ
find_filesystem [] name i = none
find_filesystem (other ∷ names) name i =
    let rest = find_filesystem names name (i + 1) in
    if eq_ℤ (strcmp other name) (pos 0) then some i else rest

-- `names` are those of the registered file systems.
unfoldable pub vfs_mount :
    {σ : Type 0}
    → Ops σ
    → (copied : Bool) → (mount : Option ℕ) → (names : List (List ℕ)) → Option (List ℕ)
    → Option (List ℕ)
    → σ
    → Option (ℤ × σ)
vfs_mount ops copied mount names none name s = some (einval, s)
vfs_mount ops copied mount names (some target) none s = some (einval, s)
vfs_mount ops copied mount names (some target) (some name) s = elim (find_filesystem names name 0) [
  | none ↦ some (enodev, s)
  | some fs ↦ (vfs_lookup copied target (ops.view s) >>= λ p. some (mount_at ops mount fs p s))
]
