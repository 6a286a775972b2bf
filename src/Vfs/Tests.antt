-- ===== src/Vfs/Tests.antt =====
-- Concrete paths for src/fs_vfs.c.
use nycu_osdi.Prelude.{ℕ, ◌≡◌, refl, true, none, some, List, [], ◌∷◌, arith}
use nycu_osdi.Prelude.Int.{pos}
use nycu_osdi.Vfs.{Vfs, at, walk, vfs_lookup, starts_with_slash}
use nycu_osdi.Vfs.Paths.{parts, along, begins, walk_lem, vfs_lookup_lem}

-- Every lookup succeeds, and leads to vnode 7.
abbrev seven : Vfs
seven = record {
  mount = λ i. none;
  mount_root = λ i. 0;
  parent = λ i. some 0;
  lookup = λ i. some (λ name. (pos 0, some 7));
  root = 0;
  cwd = some 0;
}

-- "/a//b"
abbrev two_parts : List ℕ
two_parts = 47 ∷ 97 ∷ 47 ∷ 47 ∷ 98 ∷ []

parts_two : parts two_parts ≡ (97 ∷ []) ∷ (98 ∷ []) ∷ []
parts_two = refl

walk_lem_example : walk 6 two_parts 0 seven ≡ some (along (parts two_parts) (at 0) seven)
walk_lem_example = walk_lem 6 two_parts 0 seven (omega arith)

vfs_lookup_lem_example :
    vfs_lookup true two_parts seven
    ≡ some (along (parts two_parts) (begins (starts_with_slash two_parts) seven) seven)
vfs_lookup_lem_example =
    vfs_lookup_lem two_parts seven
      (ground arith, (ground arith, (ground arith, (ground arith, (ground arith, tt)))))
