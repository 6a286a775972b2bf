-- ===== src/Rootfs/Tests.antt =====
-- A root directory of tmpfs in which a directory is made.
use nycu_osdi.Prelude.{ℕ, ◌≡◌, ◌≢◌, refl, true, false, none, some, List, [], ◌∷◌, arith}
use nycu_osdi.Prelude.Int.{pos, negsuc}
use nycu_osdi.Strings.{strcmp}
use nycu_osdi.Strings.Compare.{IsString}
use nycu_osdi.Tmpfs.{Allocs, directory, enoent_vfs, tmpfs_lookup, lookup_in, find_child}
use nycu_osdi.Tmpfs.Create.{Given}
use nycu_osdi.Tmpfs.Names.{Fresh}
use nycu_osdi.Vfs.{at, vfs_lookup}
use nycu_osdi.Vfs.Files.{vfs_mkdir}
use nycu_osdi.Vfs.Files.Making.{with_memory}
use nycu_osdi.Rootfs.{World, root_node, tmpfs_ops, tmpfs_setup_mount}
use nycu_osdi.Rootfs.Making.{IsName, root_path, vfs_lookup-vfs_mkdir}

-- Every node is an empty directory, and vnode 0 is the root.
abbrev empty_root : World
empty_root = record {
  fs = record {
    nodes = λ n. root_node;
    vnodes =
        λ v. record { mount = none; internal = some v; parent = none; parent_is_mount = false };
  };
  f_ops = λ v. 0;
  files = λ f. record { vnode = none; f_pos = 0; has_ops = false; flags = 0 };
  mount_root = λ m. 0;
  root = 0;
  cwd = some 0;
}

-- "dev"
abbrev dev : List ℕ
dev = 100 ∷ 101 ∷ 118 ∷ []

abbrev given : Allocs
given = record { node = some 2; buffer = some (λ i. 0); vnode = some 2 }

given-Given : Given given 2 2
given-Given = record { vnode = refl; node = refl; bytes = λ i. 0; buffer = refl }

dev-IsName : IsName dev
unfolding strcmp
dev-IsName = record {
  string = (ground arith, (ground arith, (ground arith, tt)));
  some_name = omega arith;
  short = omega arith;
  no_slash = refl;
  not_dot = refl;
  not_up = refl;
}

dev_unknown : tmpfs_lookup (some 0) dev empty_root.fs ≡ (enoent_vfs, none)
unfolding tmpfs_lookup lookup_in find_child
dev_unknown = refl

two-Fresh : Fresh empty_root.fs 0 0 2 2 []
two-Fresh = record { vnode = ground arith; node = ground arith; apart = tt }

vfs_lookup-vfs_mkdir_example :
    (t : World) × (vfs_mkdir (tmpfs_ops given none) with_memory (some (root_path dev)) empty_root
      ≡ some (pos 0, t))
    × (vfs_lookup true (root_path dev) ((tmpfs_ops given none).view t) ≡ some (at 2))
    × ((t.fs.vnodes 2).internal ≡ some 2)
    × ((t.fs.nodes 2).type ≡ directory)
    × ((other : List ℕ)
        → IsString other
        → other ≢ dev
        → tmpfs_lookup (some t.root) other t.fs ≡ tmpfs_lookup (some 0) other empty_root.fs)
vfs_lookup-vfs_mkdir_example =
    vfs_lookup-vfs_mkdir empty_root dev given none dev-IsName
      (record { internal = refl; type = refl }) (omega arith) dev_unknown given-Given two-Fresh refl

-- A mount without memory for its root.
mount_fails : (tmpfs_setup_mount (some 3) none 1 empty_root).0 ≡ (negsuc 2, 0)
unfolding tmpfs_setup_mount
mount_fails = refl
