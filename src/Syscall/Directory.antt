-- ===== src/Syscall/Directory.antt =====
-- src/syscall.c: `sys_chdir`, which lets `vfs_lookup` write to the working directory that it reads.
use nycu_osdi.Prelude.{
  ℕ, ◌≡◌, ◌∙◌, refl, ap, Bool, true, false, Option, none, some, List, ◌∷◌, ◌>>=◌,
}
use nycu_osdi.Strings.Compare.{IsString}
use nycu_osdi.Vfs.{Vfs, at, failed, einterr, starts_with_slash, lookup_relative, vfs_lookup}
use nycu_osdi.Vfs.Paths.{vfs_lookup_lem}
use nycu_osdi.Vfs.Files.{lost_target, target_from, Ops}
use nycu_osdi.Vfs.Files.Opening.{place_of}
use nycu_osdi.Syscall.{Sys, to_register}
use nycu_osdi.Syscall.Files.{chdir_by, chdir_path, chdir_current, sys_chdir}

module _ {σ : Type 0} (ops : Ops σ) where
  -- The write of `curr->cwd` is what the walk reads.
  abbrev pub Settable : Type 0
  Settable = (c : Option ℕ) (s : σ) → (ops.view (ops.set_cwd c s)).cwd ≡ c

  sys_chdir-path :
      (copied : Bool) (c : ℕ) (path : List ℕ) (curr : ℕ) (s : Sys σ)
      → s.sched.current ≡ some curr
      → sys_chdir ops copied (some (c ∷ path)) s ≡ chdir_path ops copied (c ∷ path) s
  unfolding sys_chdir
  sys_chdir-path copied c path curr s now = ap (λ o. chdir_current ops o copied (c ∷ path) s) now

  lookup_without_cwd :
      (path : List ℕ) (v : Vfs)
      → starts_with_slash path ≡ false
      → v.cwd ≡ none
      → vfs_lookup true path v ≡ some (failed einterr)
  unfolding vfs_lookup
  lookup_without_cwd path v relative lost = rw relative (ap (λ o. lookup_relative path o v) lost)

  lost_target-none :
      (path : List ℕ) (v : Vfs)
      → starts_with_slash path ≡ false
      → v.cwd ≡ none
      → lost_target true path v ≡ none
  unfolding lost_target
  lost_target-none path v relative lost = rw relative (ap (λ o. target_from o path v) lost)

  -- With memory for the copy of the path, and file systems where setting the working directory sets
  -- just that, `sys_chdir` of a path that does not begin with a slash, wherever it leads, fails with
  -- EINTERR_VFS, and the thread has no working directory afterwards.
  pub sys_chdir-relative :
      (c : ℕ) (path : List ℕ) (curr : ℕ) (s : Sys σ)
      → Settable
      → s.sched.current ≡ some curr
      → starts_with_slash (c ∷ path) ≡ false
      → (t : Sys σ) × (sys_chdir ops true (some (c ∷ path)) s ≡ some t)
        × (t.x 0 ≡ to_register einterr)
        × ((ops.view t.fs).cwd ≡ none)
  unfolding chdir_path
  sys_chdir-relative c path curr s law now relative =
      let s' = record s { fs = ops.set_cwd none s.fs } in
      let lost = lost_target true (c ∷ path) (ops.view s'.fs) in
      (
        chdir_by ops lost (failed einterr) s',
        sys_chdir-path true c path curr s now
            ∙ ap (λ r. r >>= λ p. some (chdir_by ops lost p s'))
                (lookup_without_cwd (c ∷ path) (ops.view s'.fs) relative (law none s.fs)),
        refl,
        law lost s'.fs ∙ lost_target-none (c ∷ path) (ops.view s'.fs) relative (law none s.fs),
      )

  -- `sys_chdir` of a path that begins with a slash goes where the walk leads, if it leads anywhere.
  pub sys_chdir-absolute :
      (path : List ℕ) (curr vnode : ℕ) (s : Sys σ)
      → Settable
      → s.sched.current ≡ some curr
      → IsString (47 ∷ path)
      → place_of (47 ∷ path) (ops.view (ops.set_cwd none s.fs)) ≡ at vnode
      → (t : Sys σ) × (sys_chdir ops true (some (47 ∷ path)) s ≡ some t)
        × (t.x 0 ≡ 0)
        × ((ops.view t.fs).cwd ≡ some vnode)
  unfolding chdir_path
  sys_chdir-absolute path curr vnode s law now str place =
      let s' = record s { fs = ops.set_cwd none s.fs } in
      let lost = lost_target true (47 ∷ path) (ops.view s'.fs) in
      (
        chdir_by ops lost (at vnode) s',
        sys_chdir-path true 47 path curr s now
            ∙ ap (λ r. r >>= λ p. some (chdir_by ops lost p s'))
                (vfs_lookup_lem (47 ∷ path) (ops.view s'.fs) str ∙ ap some place),
        refl,
        law (some vnode) s'.fs,
      )
