-- ===== src/Syscall/Files.antt =====
-- src/syscall.c: the system calls on files and directories, over the operations of src/fs_vfs.c.
use nycu_osdi.Prelude.{
  ℕ, zero, suc, ◌+◌, ◌-◌, ◌^◌, Bool, true, false, Option, none, some, List, [], ◌∷◌, ◌==◌, ◌||◌,
  leb, if◌then◌else◌, ◌>>=◌,
}
use nycu_osdi.Prelude.Int.{ℤ, pos, negsuc, eq_ℤ, sub_ℕ, pos_part, neg_part}
use nycu_osdi.Vfs.{Place, at, failed, vfs_lookup}
use nycu_osdi.Vfs.Files.{
  lost_target, Ops, Copies, Opened, vfs_open, vfs_close, vfs_lseek64, vfs_mkdir,
}
use nycu_osdi.Vfs.Files.Mounting.{vfs_mount}
use nycu_osdi.Syscall.{
  Sys, to_register, index_of, give, give_error, to_user, set_fd, thread_max_fd, load_bytes,
}

-- `pathname == NULL || pathname[0] == '\0'`
abbrev pub is_absent : Option (List ℕ) → Bool
is_absent none = true
is_absent (some []) = true
is_absent (some (c ∷ path)) = false

-- `-ret`
abbrev pub negated : ℤ → ℤ
negated e = sub_ℕ (neg_part e) (pos_part e)

-- A register as a signed long.
abbrev pub to_long : ℕ → ℤ
to_long r = if leb (2 ^ 63) r then negsuc (2 ^ 64 - 1 - r) else pos r

module _ {σ : Type 0} (ops : Ops σ) where
  -- The results of `vfs_open` in the entry `fd`, which is its target.
  abbrev pub open_in : (curr fd : ℕ) → Opened σ → Sys σ → Sys σ
  open_in curr fd r s =
      give (if eq_ℤ r.code (pos 0) then fd else to_register (negated r.code))
        (set_fd curr fd r.target (record s { fs = r.state }))

  -- The loop of `sys_open` from entry `fd` on.
  unfoldable pub open_loop :
      (rounds fd curr : ℕ) → (result : Option (Opened σ)) → Sys σ → Option (Sys σ)
  open_loop zero fd curr result s = some s
  open_loop (suc n) fd curr result s = elim (s.fd_table curr fd) [
    | some file ↦ open_loop n (fd + 1) curr result s
    | none ↦ (result >>= λ r. some (open_in curr fd r s))
  ]

  -- `sys_open`; the loop calls `vfs_open` at most once.
  unfoldable pub sys_open : Copies → (file : Option ℕ) → Option (List ℕ) → Sys σ → Option (Sys σ)
  sys_open m file path s =
      if is_absent path
      then some (give_error s)
      else (s.sched.current >>= λ curr.
          open_loop thread_max_fd 0 curr (vfs_open ops m file path (index_of (s.x 1)) s.fs) s)

  -- `sys_close` with a valid index, by the current thread.
  abbrev pub close_fd : (fd : ℕ) → Option ℕ → Sys σ → Sys σ
  close_fd fd none s = s
  close_fd fd (some curr) s =
      let r = vfs_close ops (s.fd_table curr fd) s.fs in
      give (to_register r.0) (set_fd curr fd none (record s { fs = r.1 }))

  unfoldable pub sys_close : Sys σ → Sys σ
  sys_close s =
      if leb thread_max_fd (index_of (s.x 0))
      then give_error s
      else close_fd (index_of (s.x 0)) s.sched.current s

  -- `file->f_ops->write`, none where the vnode, the table or the field is NULL; the code does not
  -- test the entry itself against NULL.
  unfoldable pub write_file : (buf count : ℕ) → Option ℕ → Sys σ → Option (Sys σ)
  write_file buf count none s = none
  write_file buf count (some file) s = some (elim (ops.write s.fs file) [
    | none ↦ give_error s
    | some f ↦
        let r = f (load_bytes count buf s.mem) in give (to_register r.0) (record s { fs = r.1 })
  ])

  unfoldable pub sys_write : Sys σ → Option (Sys σ)
  sys_write s =
      let fd = index_of (s.x 0) in
      let count = index_of (s.x 2) in
      if leb thread_max_fd fd
      then some (give_error s)
      else if (s.x 1 == 0) || (count == 0)
      then some (give_error s)
      else elim (s.sched.current) [
        | none ↦ some (give_error s)
        | some curr ↦ write_file (s.x 1) count (s.fd_table curr fd) s
      ]

  unfoldable pub read_file : (buf count : ℕ) → Option ℕ → Sys σ → Option (Sys σ)
  read_file buf count none s = none
  read_file buf count (some file) s = elim (ops.read s.fs file) [
    | none ↦ some (give_error s)
    | some f ↦
        let r = f count in
        (to_user buf r.0.1 (record s { fs = r.1 }) >>= λ t. some (give (to_register r.0.0) t))
  ]

  unfoldable pub sys_read : Sys σ → Option (Sys σ)
  sys_read s =
      let fd = index_of (s.x 0) in
      if leb thread_max_fd fd then some (give_error s) else elim (s.sched.current) [
        | none ↦ some (give_error s)
        | some curr ↦ read_file (s.x 1) (s.x 2) (s.fd_table curr fd) s
      ]

  -- `ret < 0` gives the code, any other 0.
  abbrev pub give_code : ℤ → Sys σ → Sys σ
  give_code (pos n) s = give 0 s
  give_code (negsuc n) s = give (to_register (negsuc n)) s

  unfoldable pub sys_mkdir : Copies → Option (List ℕ) → Sys σ → Option (Sys σ)
  sys_mkdir m path s =
      if is_absent path
      then some (give_error s)
      else (vfs_mkdir ops m path s.fs >>= λ r. some (give_code r.0 (record s { fs = r.1 })))

  unfoldable pub sys_mount :
      (copied : Bool)
      → (mount : Option ℕ) → (names : List (List ℕ)) → (target filesystem : Option (List ℕ)) → Sys σ
      → Option (Sys σ)
  sys_mount copied mount names target filesystem s =
      if is_absent target
      then some (give_error s)
      else if is_absent filesystem
      then some (give_error s)
      else (vfs_mount ops copied mount names target filesystem s.fs >>= λ r.
          some (give_code r.0 (record s { fs = r.1 })))

  abbrev pub chdir_by : (lost : Option ℕ) → Place → Sys σ → Sys σ
  chdir_by lost (at vnode) s = give 0 (record s { fs = ops.set_cwd (some vnode) s.fs })
  chdir_by lost (failed e) s = give_code e (record s { fs = ops.set_cwd lost s.fs })

  -- The lookup writes to `curr->cwd` itself, NULL before it begins.
  unfoldable pub chdir_path : (copied : Bool) → List ℕ → Sys σ → Option (Sys σ)
  chdir_path copied path s =
      let s' = record s { fs = ops.set_cwd none s.fs } in
      (vfs_lookup copied path (ops.view s'.fs) >>= λ p.
      some (chdir_by (lost_target copied path (ops.view s'.fs)) p s'))

  abbrev pub chdir_current : Option ℕ → (copied : Bool) → List ℕ → Sys σ → Option (Sys σ)
  chdir_current none copied path s = some (give_error s)
  chdir_current (some curr) copied path s = chdir_path copied path s

  unfoldable pub sys_chdir : (copied : Bool) → Option (List ℕ) → Sys σ → Option (Sys σ)
  sys_chdir copied none s = some (give_error s)
  sys_chdir copied (some []) s = some (give_error s)
  sys_chdir copied (some (c ∷ path)) s = chdir_current s.sched.current copied (c ∷ path) s

  -- The result of `vfs_lseek64` is dropped.
  unfoldable pub sys_lseek64 : Sys σ → Option (Sys σ)
  sys_lseek64 s =
      let fd = index_of (s.x 0) in
      if leb thread_max_fd fd
      then some (give_error s)
      else (s.sched.current >>= λ curr.
          let r = vfs_lseek64 ops (s.fd_table curr fd) (to_long (s.x 1)) (index_of (s.x 2)) s.fs in
          some (record s { fs = r.1 }))

  -- `dev_framebuffer_ioctl` gives a code, and the bytes that it stores at its argument.
  unfoldable pub sys_ioctl : (dev_framebuffer_ioctl : ℕ → ℤ × List ℕ) → Sys σ → Option (Sys σ)
  sys_ioctl dev_framebuffer_ioctl s =
      let r = dev_framebuffer_ioctl (s.x 2) in
      (to_user (s.x 2) r.1 s >>= λ t. some (give_code r.0 t))
