-- ===== src/Vfs/Files/Opening.antt =====
-- src/fs_vfs.c: what `vfs_open` opens or creates, and the pointer that it leaves after a failure.
use nycu_osdi.Prelude.{ℕ, ◌≡◌, ◌∙◌, ap, true, Option, none, some, List, ◌>>=◌, if◌then◌else◌}
use nycu_osdi.Prelude.Int.{negsuc}
use nycu_osdi.Strings.Compare.{IsString}
use nycu_osdi.Vfs.{Vfs, Place, at, failed, starts_with_slash}
use nycu_osdi.Vfs.Paths.{parts, along, begins, vfs_lookup_lem}
use nycu_osdi.Vfs.Files.{
  Ops, Opened, is_creat, lost_target, opened_by, open_file, create_file, open_at, vfs_open,
}
use nycu_osdi.Vfs.Files.Making.{with_memory}

-- Where the walk along all parts of a path leads.
abbrev pub place_of : List ℕ → Vfs → Place
place_of path v = along (parts path) (begins (starts_with_slash path) v) v

module _ {σ : Type 0} (ops : Ops σ) (file : Option ℕ) (flags : ℕ) (s : σ) where
  -- By the place of the path, and that of its parent. A `create` that stores no vnode leaves what the
  -- lookup has left: the vnode of the last ".." before the failure, if any.
  abbrev pub open_or_create :
      (path : List ℕ) → (place : Place) → (name : List ℕ) → (parent : Place) → Option (Opened σ)
  open_or_create path (at vnode) name parent = open_file ops (some vnode) file flags s
  open_or_create path (failed e) name parent =
      if is_creat flags
      then create_file ops (lost_target true path (ops.view s)) file flags name parent s
      else some (record { code = e; target = none; state = s })

  -- When the `open` of a file system fails, `*target` points to the file whose memory is freed.
  pub vfs_open-dangling :
      (path : List ℕ) (vnode a k : ℕ) (f : Option ℕ → Opened σ) (s' : σ)
      → IsString path
      → place_of path (ops.view s) ≡ at vnode
      → file ≡ some a
      → ops.open_vnode s vnode ≡ some f
      → f (some a) ≡ record { code = negsuc k; target = some a; state = s' }
      → vfs_open ops with_memory file (some path) flags s
        ≡ some (record { code = negsuc k; target = some a; state = s' })
  unfolding vfs_open open_at open_file opened_by
  vfs_open-dangling path vnode a k f s' str place e fe fa =
      ap (λ r. r >>= λ p. open_at ops with_memory file flags path p s)
        (vfs_lookup_lem path (ops.view s) str ∙ ap some place)
      ∙ (ap (λ x. open_file ops (some vnode) x flags s) e
          ∙ (ap (λ x. x >>= λ g. let r = g (some a) in opened_by ops flags r.code r.target r.state)
                fe
              ∙ ap (λ r. opened_by ops flags r.code r.target r.state) fa))
