-- ===== src/Vfs/Files/Tests.antt =====
-- Concrete paths and file systems for src/fs_vfs.c.
use nycu_osdi.Prelude.{ℕ, ◌+◌, ◌≡◌, refl, false, none, some, List, [], ◌∷◌, ◌++◌, arith}
use nycu_osdi.Prelude.Int.{pos, negsuc}
use nycu_osdi.Strings.{strcmp}
use nycu_osdi.Vfs.{Vfs, at, step_component}
use nycu_osdi.Vfs.Files.{Ops, make_in, vfs_mkdir, vfs_open}
use nycu_osdi.Vfs.Files.Mounting.{find_filesystem, mount_on}
use nycu_osdi.Vfs.Files.Making.{with_memory, parent_place, vfs_mkdir_lem}
use nycu_osdi.Vfs.Files.Opening.{place_of, vfs_open-dangling}

-- Every lookup leads to vnode 7; the state counts the calls that make something; no file opens.
abbrev vnodes : Vfs
vnodes = record {
  mount = λ i. none;
  mount_root = λ i. 0;
  parent = λ i. some 0;
  lookup = λ i. some (λ name. (pos 0, some 7));
  root = 0;
  cwd = some 0;
}

abbrev counting : Ops ℕ
counting = record {
  view = λ s. vnodes;
  create = λ s p. some (λ name. record { code = pos 0; vnode = some 8; state = s + 1 });
  mkdir = λ s p. some (λ name. record { code = pos 0; vnode = some 8; state = s + 1 });
  open_vnode = λ s v. some (λ file. record { code = negsuc 3; target = file; state = s });
  close = λ s file. none;
  write = λ s file. none;
  read = λ s file. none;
  lseek64 = λ s file. none;
  set_flags = λ file flags s. s;
  set_f_ops = λ file f_ops s. s;
  parent_is_mount = λ s v. false;
  setup_mount = λ s fs. none;
  set_mount = λ v m s. s + 10;
  set_parent = λ v p s. s;
  set_cwd = λ c s. s;
}

-- "/a" and "b"
abbrev dir : List ℕ
dir = 47 ∷ 97 ∷ []

abbrev name : List ℕ
name = 98 ∷ []

vfs_mkdir_lem_example :
    vfs_mkdir counting with_memory (some (dir ++ (47 ∷ name))) 5
    ≡ some (make_in counting name (parent_place dir name vnodes) 5)
vfs_mkdir_lem_example =
    vfs_mkdir_lem counting dir name 5
      (ground arith, (ground arith, (ground arith, (ground arith, tt)))) refl

leads_to_7 : place_of dir vnodes ≡ at 7
unfolding step_component strcmp
leads_to_7 = refl

vfs_open-dangling_example :
    vfs_open counting with_memory (some 3) (some dir) 0 5
    ≡ some (record { code = negsuc 3; target = some 3; state = 5 })
vfs_open-dangling_example =
    vfs_open-dangling counting (some 3) 0 5 dir 7 3 3
      (λ file. record { code = negsuc 3; target = file; state = 5 }) 5
      (ground arith, (ground arith, tt)) leads_to_7 refl refl refl

-- A file system without `setup_mount`: the error leaves the mount where it is.
mount_left : mount_on counting 0 7 9 5 ≡ (negsuc 4, 15)
unfolding mount_on
mount_left = refl

found_second : find_filesystem ((97 ∷ []) ∷ (98 ∷ []) ∷ []) (98 ∷ []) 0 ≡ some 1
unfolding find_filesystem strcmp
found_second = refl
