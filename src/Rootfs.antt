-- ===== src/Rootfs.antt =====
-- The virtual file system of src/fs_vfs.c over src/fs_tmpfs.c, its root file system: the tables of
-- functions of the vnodes and files of tmpfs.
pub mod Making
mod Tests
use nycu_osdi.Prelude.{ℕ, ◌+◌, Bool, true, false, Option, none, some, List, [], ◌∷◌, ◌==◌, update}
use nycu_osdi.Prelude.Int.{ℤ, pos}
use nycu_osdi.Tmpfs.{
  Fs, Node, Vnode, enomem_vfs, Allocs, NodeType, file, directory, tmpfs_lookup, tmpfs_create,
  tmpfs_mkdir,
}
use nycu_osdi.Tmpfs.Files.{File, tmpfs_open, tmpfs_close, tmpfs_write, tmpfs_read, tmpfs_lseek64}
use nycu_osdi.Vfs.{Vfs}
use nycu_osdi.Vfs.Files.{Opened, Ops, Made}

-- The nodes and vnodes, the field `f_ops` of the vnodes, where 0 is the table of tmpfs, the open
-- files, the roots of the mounts, `rootfs->root`, and `cwd`.
pub record World : Type 0 where
  pub fs : Fs
  pub f_ops : ℕ → ℕ
  pub files : ℕ → File
  pub mount_root : ℕ → ℕ
  pub root : ℕ
  pub cwd : Option ℕ

-- A file after an operation; a file that the operation leaves is none.
abbrev pub set_file : ℕ → Option File → World → World
set_file f none w = w
set_file f (some g) w = record w { files = update w.files f g }

-- `f_ops` of the vnode, if there is one.
abbrev pub set_table : Option ℕ → ℕ → World → World
set_table none t w = w
set_table (some v) t w = record w { f_ops = update w.f_ops v t }

-- The result of a creation, whose vnode gets the table of tmpfs.
abbrev pub made : (ℤ × Option ℕ) × Fs → World → Made World
made r w = record { code = r.0.0; vnode = r.0.1; state = set_table r.0.1 0 (record w { fs = r.1 }) }

-- The node of the root of a mount.
abbrev pub root_node : Node
root_node = record {
  name = 47 ∷ [];
  type = directory;
  parent = none;
  data_bytes = none;
  size = 0;
  capacity = 0;
  children = [];
}

-- `tmpfs_setup_mount`, by the node and the vnode that `alloc` returns: the code, the root of the
-- mount, and the state. The field `parent` of the new vnode is not written.
unfoldable pub tmpfs_setup_mount : (node vnode : Option ℕ) → (mount : ℕ) → World → (ℤ × ℕ) × World
tmpfs_setup_mount none vnode mount w = ((enomem_vfs, 0), w)
tmpfs_setup_mount (some n) none mount w = ((enomem_vfs, 0), w)
tmpfs_setup_mount (some n) (some v) mount w = (
  (pos 0, v),
  record w {
    fs = record {
      nodes = update w.fs.nodes n root_node;
      vnodes =
          update w.fs.vnodes v
            (record (w.fs.vnodes v) { mount = none; internal = some n; parent_is_mount = true });
    };
    f_ops = update w.f_ops v 0;
    mount_root = update w.mount_root mount v;
  },
)

-- The operations of a file whose table is still there.
abbrev pub if_open : {A : Type 0} → Bool → A → Option A
if_open true a = some a
if_open false a = none

-- `tmpfs_open` of the vnode with the file.
abbrev pub open_with : ℕ → Option ℕ → World → Opened World
open_with v none w = record { code = (tmpfs_open (some v) none).0; target = none; state = w }
open_with v (some f) w =
    let r = tmpfs_open (some v) (some (w.files f)) in
    record { code = r.0; target = some f; state = set_file f r.1 w }

-- The operations on vnodes and files of tmpfs, and its mount; the tables of the devices are not
-- among them, so that a vnode with another table does not open. What `alloc` returns in a creation and for the buffer
-- of a write are arguments.
abbrev pub tmpfs_ops : Allocs → (buffer : Option (ℕ → ℕ)) → Ops World
tmpfs_ops a buffer = record {
  view = λ w. record {
    mount = λ v. (w.fs.vnodes v).mount;
    mount_root = w.mount_root;
    parent = λ v. (w.fs.vnodes v).parent;
    lookup = λ v. some (λ name. tmpfs_lookup (some v) name w.fs);
    root = w.root;
    cwd = w.cwd;
  };
  create = λ w p. some (λ name. made (tmpfs_create (some p) name a w.fs) w);
  mkdir = λ w p. some (λ name. made (tmpfs_mkdir (some p) name a w.fs) w);
  open_vnode = λ w v. if_open (w.f_ops v == 0) (λ file. open_with v file w);
  close = λ w f.
      if_open (w.files f).has_ops
        (let r = tmpfs_close (some (w.files f)) in (r.0, set_file f r.1 w));
  write = λ w f. if_open (w.files f).has_ops (λ buf.
      let r = tmpfs_write buf buffer (w.files f) w.fs in
      (r.0, record (set_file f (some r.1.0) w) { fs = r.1.1 }));
  read = λ w f.
      if_open (w.files f).has_ops (λ len.
        let r = tmpfs_read len (w.files f) w.fs in ((r.0, r.1.0), set_file f (some r.1.1) w));
  lseek64 = λ w f. if_open (w.files f).has_ops (λ offset whence.
      let r = tmpfs_lseek64 offset whence (w.files f) w.fs in (r.0, set_file f (some r.1) w));
  set_flags = λ f flags w. set_file f (some (record (w.files f) { flags = flags })) w;
  set_f_ops = λ f t w. set_table (w.files f).vnode t w;
  parent_is_mount = λ w v. (w.fs.vnodes v).parent_is_mount;
  setup_mount = λ w fs. some (λ m. tmpfs_setup_mount a.node a.vnode m w);
  set_mount = λ v m w. record w {
    fs = record w.fs { vnodes = update w.fs.vnodes v (record (w.fs.vnodes v) { mount = m }) };
  };
  set_parent = λ v p w. record w {
    fs = record w.fs { vnodes = update w.fs.vnodes v (record (w.fs.vnodes v) { parent = some p }) };
  };
  set_cwd = λ c w. record w { cwd = c };
}
