-- ===== src/Vfs/Files.antt =====
-- src/fs_vfs.c: opening, making and mounting, over the operations of the file systems.
--
-- The state of the file systems is of any type; the record `Ops` stands for the tables of functions
-- that vnodes and files carry, none where a table or its field is NULL. What `alloc` and `strdup`
-- return is an argument. A result none is a NULL that the code calls or dereferences.
pub mod Opening
pub mod Making
pub mod Mounting
pub mod Splitting
mod Tests
use nycu_osdi.Prelude.{
  ℕ, zero, suc, ◌+◌, ◌/◌, ◌%◌, Bool, true, false, not, ◌&&◌, Option, none, some, List, [], ◌∷◌,
  ◌==◌, get_or, take, drop, length, if◌then◌else◌, ◌>>=◌,
}
use nycu_osdi.Prelude.Int.{ℤ, pos, negsuc, eq_ℤ}
use nycu_osdi.Strings.{strcmp, strlen}
use nycu_osdi.Vfs.{
  Vfs, Place, at, failed, slash, dot, starts_with_slash, get_next_component, step_component,
  vfs_lookup, enosys, einterr, enomem, einval,
}

-- EACCES_VFS, ENODEV_VFS, EBUSY_VFS
abbrev pub eacces : ℤ
eacces = negsuc 5

abbrev pub enodev : ℤ
enodev = negsuc 8

abbrev pub ebusy : ℤ
ebusy = negsuc 10

-- The result of `vfs_open`, and of the `open` of a file system: the code, `*target`, and the state.
pub record Opened (σ : Type 0) : Type 0 where
  pub code : ℤ
  pub target : Option ℕ
  pub state : σ

-- The result of `create` and `mkdir`: the code, the vnode if they store one, and the state.
pub record Made (σ : Type 0) : Type 0 where
  pub code : ℤ
  pub vnode : Option ℕ
  pub state : σ

-- The operations by vnode, file and file system, and the writes of single fields.
pub record Ops (σ : Type 0) : Type 0 where
  pub view : σ → Vfs
  pub create : σ → ℕ → Option (List ℕ → Made σ)
  pub mkdir : σ → ℕ → Option (List ℕ → Made σ)
  pub open_vnode : σ → ℕ → Option (Option ℕ → Opened σ)
  pub close : σ → ℕ → Option (ℤ × σ)
  pub write : σ → ℕ → Option (List ℕ → ℤ × σ)
  pub read : σ → ℕ → Option (ℕ → (ℤ × List ℕ) × σ)
  pub lseek64 : σ → ℕ → Option (ℤ → ℕ → ℤ × σ)
  pub set_flags : (file flags : ℕ) → σ → σ
  pub set_f_ops : (file f_ops : ℕ) → σ → σ
  pub parent_is_mount : σ → ℕ → Bool
  pub setup_mount : σ → ℕ → Option (ℕ → (ℤ × ℕ) × σ)
  pub set_mount : ℕ → Option ℕ → σ → σ
  pub set_parent : (vnode parent : ℕ) → σ → σ
  pub set_cwd : Option ℕ → σ → σ

-- `for (i = path_len - 1; i >= 0; i--)`: the last slash below position `n`, none for -1.
unfoldable pub last_slash : ℕ → List ℕ → Option ℕ
last_slash zero path = none
last_slash (suc n) path =
    let rest = last_slash n path in if get_or path n 0 == slash then some n else rest

-- What is behind the last slash.
abbrev pub basename : Option ℕ → List ℕ → List ℕ
basename none path = path
basename (some i) path = drop (i + 1) path

-- `flags & O_CREAT`
abbrev pub is_creat : ℕ → Bool
is_creat flags = flags / 64 % 2 == 1

-- What the loop of `vfs_lookup` leaves in `*target` when it fails: each ".." writes it.
unfoldable pub walk_target :
    (rounds : ℕ) → List ℕ → (current : ℕ) → (target : Option ℕ) → Vfs → Option ℕ
walk_target zero path current target v = target
walk_target (suc n) path current target v = elim (get_next_component path) [
  | none ↦ target
  | some r ↦ elim (step_component r.0 current v) [
    | failed e ↦ target
    | at next ↦
        walk_target n r.1 next
          (if eq_ℤ (strcmp r.0 (dot ∷ dot ∷ [])) (pos 0) && not (current == v.root)
            then some next
            else target)
          v
  ]
]

abbrev pub target_from : Option ℕ → List ℕ → Vfs → Option ℕ
target_from none path v = none
target_from (some cwd) path v = walk_target (length path + 1) path cwd none v

-- The target after a failure; before the loop it is NULL.
unfoldable pub lost_target : (copied : Bool) → List ℕ → Vfs → Option ℕ
lost_target false path v = none
lost_target true path v =
    if starts_with_slash path
    then walk_target (length path + 1) path v.root none v
    else target_from v.cwd path v

-- Whether the copies of paths get memory: in the first lookup, in the function itself, and in the
-- lookup of the parent.
pub record Copies : Type 0 where
  pub first : Bool
  pub own : Bool
  pub parent : Bool

-- The parent directory by the last slash; what serves as parent without one is `bare`.
unfoldable pub find_parent :
    (copied : Bool) → (bare : Place) → Option ℕ → List ℕ → Vfs → Option Place
find_parent copied bare none path v = some bare
find_parent copied bare (some zero) path v = vfs_lookup copied (slash ∷ []) v
find_parent copied bare (some (suc i)) path v = vfs_lookup copied (take (suc i) path) v

-- `cwd`, or the root without it, as `vfs_open` takes it; and as `vfs_mkdir` does.
abbrev pub cwd_or_root : Vfs → Place
cwd_or_root v = elim v.cwd [ none ↦ at v.root | some c ↦ at c ]

abbrev pub cwd_or_error : Vfs → Place
cwd_or_error v = elim v.cwd [ none ↦ failed einterr | some c ↦ at c ]

module _ {σ : Type 0} (ops : Ops σ) where
  -- The results of `open`. After an error `*target` still points to the file, whose memory is freed;
  -- without one the flags are written through `*target`.
  unfoldable pub opened_by : (flags : ℕ) → ℤ → (target : Option ℕ) → σ → Option (Opened σ)
  opened_by flags (pos zero) none s = none
  opened_by flags (pos zero) (some file) s =
      some (record { code = pos 0; target = some file; state = ops.set_flags file flags s })
  opened_by flags e target s = some (record { code = e; target = target; state = s })

  -- The end of `vfs_open`; `file` is what `alloc` returns for `*target`, which `open` may write.
  unfoldable pub open_file :
      (vnode : Option ℕ) → (file : Option ℕ) → (flags : ℕ) → σ → Option (Opened σ)
  open_file none file flags s = none
  open_file (some vnode) file flags s =
      ops.open_vnode s vnode >>= λ f. let r = f file in opened_by flags r.code r.target r.state

  -- `vnode` after `create`: what it holds before where `create` stores nothing.
  abbrev pub stored_or : (lost : Option ℕ) → Option ℕ → Option ℕ
  stored_or lost none = lost
  stored_or lost (some vnode) = some vnode

  -- `create` in the parent, and the file that it makes, without a look at the code; `lost` is what the
  -- lookup that failed has left in `vnode`.
  unfoldable pub create_file :
      (lost : Option ℕ) → (file : Option ℕ) → (flags : ℕ) → List ℕ → Place → σ → Option (Opened σ)
  create_file lost file flags name (failed e) s =
      some (record { code = e; target = none; state = s })
  create_file lost file flags name (at parent) s = elim (ops.create s parent) [
    | none ↦ some (record { code = eacces; target = none; state = s })
    | some f ↦ open_file (stored_or lost (f name).vnode) file flags (f name).state
  ]

  -- The branch of `vfs_open` for a path that is not found.
  unfoldable pub open_missing :
      Copies → (file : Option ℕ) → (flags : ℕ) → List ℕ → (e : ℤ) → σ → Option (Opened σ)
  open_missing m file flags path e s =
      if is_creat flags
      then (if m.own
          then (find_parent m.parent (cwd_or_root (ops.view s)) (last_slash (strlen path) path) path
                (ops.view s)
              >>= λ p.
                  create_file (lost_target m.first path (ops.view s)) file flags
                    (basename (last_slash (strlen path) path) path) p s)
          else some (record { code = enomem; target = none; state = s }))
      else some (record { code = e; target = none; state = s })

  -- The two branches, by what the lookup returns.
  unfoldable pub open_at :
      Copies → (file : Option ℕ) → (flags : ℕ) → List ℕ → Place → σ → Option (Opened σ)
  open_at m file flags path (at vnode) s = open_file (some vnode) file flags s
  open_at m file flags path (failed e) s = open_missing m file flags path e s

  -- `target` is not NULL, and `*target` is NULL before the call.
  unfoldable pub vfs_open :
      Copies → (file : Option ℕ) → Option (List ℕ) → (flags : ℕ) → σ → Option (Opened σ)
  vfs_open m file none flags s = some (record { code = einval; target = none; state = s })
  vfs_open m file (some path) flags s =
      (vfs_lookup m.first path (ops.view s) >>= λ p. open_at m file flags path p s)

  unfoldable pub vfs_close : Option ℕ → σ → ℤ × σ
  vfs_close none s = (einval, s)
  vfs_close (some file) s = elim (ops.close s file) [ none ↦ (enosys, s) | some r ↦ r ]

  -- `buf` is not NULL; its bytes, and what is read, are lists.
  unfoldable pub vfs_write : Option ℕ → List ℕ → σ → ℤ × σ
  vfs_write none buf s = (einval, s)
  vfs_write (some file) buf s =
      if length buf == 0
      then (pos 0, s)
      else elim (ops.write s file) [ none ↦ (enosys, s) | some f ↦ f buf ]

  unfoldable pub vfs_read : Option ℕ → (len : ℕ) → σ → (ℤ × List ℕ) × σ
  vfs_read none len s = ((einval, []), s)
  vfs_read (some file) len s =
      if len == 0
      then ((pos 0, []), s)
      else elim (ops.read s file) [ none ↦ ((enosys, []), s) | some f ↦ f len ]

  unfoldable pub vfs_lseek64 : Option ℕ → ℤ → (whence : ℕ) → σ → ℤ × σ
  vfs_lseek64 none offset whence s = (einval, s)
  vfs_lseek64 (some file) offset whence s = elim (ops.lseek64 s file) [
    | none ↦ (enosys, s)
    | some f ↦ f offset whence
  ]

  -- The end of `vfs_mkdir`, in the parent.
  unfoldable pub make_in : List ℕ → Place → σ → ℤ × σ
  make_in name (failed e) s = (e, s)
  make_in name (at parent) s = if strlen name == 0 then (einval, s) else elim (ops.mkdir s parent) [
    | none ↦ (eacces, s)
    | some f ↦ ((f name).code, (f name).state)
  ]

  unfoldable pub vfs_mkdir : Copies → Option (List ℕ) → σ → Option (ℤ × σ)
  vfs_mkdir m none s = some (einval, s)
  vfs_mkdir m (some path) s =
      if m.own
      then (find_parent m.parent (cwd_or_error (ops.view s)) (last_slash (strlen path) path) path
            (ops.view s)
          >>= λ p. some (make_in (basename (last_slash (strlen path) path) path) p s))
      else some (enomem, s)

  -- `vfs_mknod` after `vfs_open`.
  unfoldable pub mknod_by : (f_ops : ℕ) → Opened σ → Option (ℤ × σ)
  mknod_by f_ops r = elim (eq_ℤ r.code (pos 0)) [
    | false ↦ some (r.code, r.state)
    | true ↦ (r.target >>= λ dev. some (vfs_close (some dev) (ops.set_f_ops dev f_ops r.state)))
  ]

  unfoldable pub vfs_mknod :
      Copies → (file : Option ℕ) → Option (List ℕ) → (f_ops : ℕ) → σ → Option (ℤ × σ)
  vfs_mknod m file none f_ops s = some (einval, s)
  vfs_mknod m file (some path) f_ops s =
      (vfs_open m file (some path) 64 s >>= λ r. mknod_by f_ops r)
