-- ===== src/Syscall/Isolation/Files.antt =====
-- src/syscall.c: the system calls on open files and directories leave all threads.
use nycu_osdi.Prelude.{ℕ, Bool, Option, none, some, List, [], ◌∷◌, ◌==◌, leb, ◌||◌}
use nycu_osdi.Prelude.Int.{ℤ, pos, negsuc}
use nycu_osdi.Vfs.{Place, at, failed, vfs_lookup}
use nycu_osdi.Vfs.Files.{Ops, Copies, vfs_mkdir}
use nycu_osdi.Vfs.Files.Mounting.{vfs_mount}
use nycu_osdi.Syscall.{Sys, to_user, give_error, index_of}
use nycu_osdi.Syscall.Files.{
  sys_write, sys_read, sys_mkdir, sys_mount, sys_chdir, sys_lseek64, sys_ioctl, is_absent,
  write_file, read_file, give_code, chdir_by, chdir_path, chdir_current,
}
use nycu_osdi.Syscall.Isolation.{
  Kept, AllKept, AllKept-trans, then_kept, to_user-Kept, lost, returned, kept, Kept-trans, all_if,
  kept_elim, all_elim, all_bind,
}

module _ {σ : Type 0} (t : ℕ) where
  pub give_code-Kept :
      (ops : Ops σ) (s : Sys σ) (r : ℤ) (s' : Sys σ) → Kept t s s' → Kept t s (give_code ops r s')
  give_code-Kept ops s (pos n) s' k = Kept-trans t k (kept t s' _ _ _ _)
  give_code-Kept ops s (negsuc n) s' k = Kept-trans t k (kept t s' _ _ _ _)

  module _ (s : Sys σ) where
    module _ (ops : Ops σ) where
      write_file-Kept : (buf count : ℕ) (o : Option ℕ) → AllKept t s (write_file ops buf count o s)
      unfolding write_file
      write_file-Kept buf count none = lost
      write_file-Kept buf count (some file) = returned (
          kept_elim t s (ops.write s.fs file) (give_error s) _ (kept t s _ _ _ _)
            (λ f e. kept t s _ _ _ _))

      pub sys_write-Kept : AllKept t s (sys_write ops s)
      unfolding sys_write
      sys_write-Kept = all_if t s (leb 16 (index_of (s.x 0))) _ _ (returned (kept t s _ _ _ _)) (
          all_if t s ((s.x 1 == 0) || (index_of (s.x 2) == 0)) _ _ (returned (kept t s _ _ _ _)) (
            all_elim t s s.sched.current _ _ (returned (kept t s _ _ _ _)) (λ curr e.
              write_file-Kept (s.x 1) (index_of (s.x 2)) (s.fd_table curr (index_of (s.x 0))))))

      read_file-Kept : (buf count : ℕ) (o : Option ℕ) → AllKept t s (read_file ops buf count o s)
      unfolding read_file
      read_file-Kept buf count none = lost
      read_file-Kept buf count (some file) =
          all_elim t s (ops.read s.fs file) (some (give_error s)) _ (returned (kept t s _ _ _ _))
            (λ f e.
              let s' = record s { fs = (f count).1 } in
              AllKept-trans t _ (kept t s _ _ _ _) (
                then_kept t s' (to_user buf (f count).0.1 s') _
                  (to_user-Kept t buf (f count).0.1 s') (λ a. kept t a _ _ _ _)))

      pub sys_read-Kept : AllKept t s (sys_read ops s)
      unfolding sys_read
      sys_read-Kept = all_if t s (leb 16 (index_of (s.x 0))) _ _ (returned (kept t s _ _ _ _)) (
          all_elim t s s.sched.current _ _ (returned (kept t s _ _ _ _))
            (λ curr e. read_file-Kept (s.x 1) (s.x 2) (s.fd_table curr (index_of (s.x 0)))))

      pub sys_mkdir-Kept :
          (m : Copies) (path : Option (List ℕ)) → AllKept t s (sys_mkdir ops m path s)
      unfolding sys_mkdir
      sys_mkdir-Kept m path = all_if t s (is_absent path) _ _ (returned (kept t s _ _ _ _)) (
          all_bind t s (vfs_mkdir ops m path s.fs) _
            (λ r e. returned (give_code-Kept ops s r.0 _ (kept t s _ _ _ _))))

      pub sys_mount-Kept :
          (copied : Bool) (mount : Option ℕ) (names : List (List ℕ))
          (target filesystem : Option (List ℕ))
          → AllKept t s (sys_mount ops copied mount names target filesystem s)
      unfolding sys_mount
      sys_mount-Kept copied mount names target filesystem =
          all_if t s (is_absent target) _ _ (returned (kept t s _ _ _ _)) (
            all_if t s (is_absent filesystem) _ _ (returned (kept t s _ _ _ _)) (
              all_bind t s (vfs_mount ops copied mount names target filesystem s.fs) _
                (λ r e. returned (give_code-Kept ops s r.0 _ (kept t s _ _ _ _)))))

      chdir_by-Kept :
          (target : Option ℕ) (p : Place) (s' : Sys σ)
          → Kept t s s'
          → Kept t s (chdir_by ops target p s')
      chdir_by-Kept target (at vnode) s' k = Kept-trans t k (kept t s' _ _ _ _)
      chdir_by-Kept target (failed e) s' k =
          give_code-Kept ops s e _ (Kept-trans t k (kept t s' _ _ _ _))

      chdir_path-Kept : (copied : Bool) (path : List ℕ) → AllKept t s (chdir_path ops copied path s)
      unfolding chdir_path
      chdir_path-Kept copied path =
          all_bind t s (vfs_lookup copied path (ops.view (ops.set_cwd none s.fs))) _
            (λ p e. returned (chdir_by-Kept _ p _ (kept t s _ _ _ _)))

      chdir_current-Kept :
          (o : Option ℕ) (copied : Bool) (path : List ℕ)
          → AllKept t s (chdir_current ops o copied path s)
      chdir_current-Kept none copied path = returned (kept t s _ _ _ _)
      chdir_current-Kept (some curr) copied path = chdir_path-Kept copied path

      pub sys_chdir-Kept :
          (copied : Bool) (path : Option (List ℕ)) → AllKept t s (sys_chdir ops copied path s)
      unfolding sys_chdir
      sys_chdir-Kept copied none = returned (kept t s _ _ _ _)
      sys_chdir-Kept copied (some []) = returned (kept t s _ _ _ _)
      sys_chdir-Kept copied (some (c ∷ path)) = chdir_current-Kept s.sched.current copied (c ∷ path)

      pub sys_lseek64-Kept : AllKept t s (sys_lseek64 ops s)
      unfolding sys_lseek64
      sys_lseek64-Kept =
          all_if t s (leb 16 (index_of (s.x 0))) _ _ (returned (kept t s _ _ _ _))
            (all_bind t s s.sched.current _ (λ curr e. returned (kept t s _ _ _ _)))

      pub sys_ioctl-Kept : (f : ℕ → ℤ × List ℕ) → AllKept t s (sys_ioctl ops f s)
      unfolding sys_ioctl
      sys_ioctl-Kept f =
          then_kept t s (to_user (s.x 2) (f (s.x 2)).1 s) _ (to_user-Kept t (s.x 2) (f (s.x 2)).1 s)
            (λ a. give_code-Kept ops a (f (s.x 2)).0 a (kept t a _ _ _ _))
