-- ===== src/Tmpfs/Tests.antt =====
-- Concrete files and directories of src/fs_tmpfs.c.
use nycu_osdi.Prelude.{
  ℕ, ◌+◌, ◌-◌, ◌≤◌, ◌<◌, ◌≡◌, ◌≢◌, ◌⊎◌, refl, true, false, none, some, [], ◌∷◌, arith, update,
}
use nycu_osdi.Prelude.Int.{pos, negsuc}
use nycu_osdi.Tmpfs.{
  Fs, Node, file, directory, Vnode, Allocs, tmpfs_lookup, tmpfs_create_or_mkdir, lookup_in,
  find_child,
}
use nycu_osdi.Tmpfs.Files.{File, tmpfs_write, tmpfs_read, tmpfs_lseek64, bytes_from}
use nycu_osdi.Tmpfs.Contents.{Opened, Written, tmpfs_write-Written, tmpfs_read_lem, write-read}
use nycu_osdi.Tmpfs.Names.{IsDirectory, Fresh, Outcome, create-Outcome}
use nycu_osdi.Tmpfs.Create.{Given, Created, create-Created}
use nycu_osdi.Strings.{strcmp}

-- The root directory is node 0 and vnode 0. Node 1 and vnode 1 are the file "a" in it, empty.
abbrev root_node : Node
root_node = record {
  name = 47 ∷ [];
  type = directory;
  parent = none;
  data_bytes = none;
  size = 0;
  capacity = 0;
  children = 1 ∷ [];
}

abbrev file_node : Node
file_node = record {
  name = 97 ∷ [];
  type = file;
  parent = some 0;
  data_bytes = some (λ i. 0);
  size = 0;
  capacity = 4096;
  children = [];
}

abbrev vnode_at : ℕ → Vnode
vnode_at n = record { mount = none; internal = some n; parent = some 0; parent_is_mount = false }

abbrev one_file : Fs
one_file = record { nodes = update (λ i. root_node) 1 file_node; vnodes = vnode_at }

abbrev opened : File
opened = record { vnode = some 1; f_pos = 0; has_ops = true; flags = 0 }

opened-Opened : Opened opened one_file 1
opened-Opened = record {
  at = refl;
  is_file = record { type = refl; bytes = λ i. 0; buffer = refl; room = omega arith };
}

tmpfs_write-Written_example :
    (t : Fs) × (tmpfs_write (72 ∷ 73 ∷ []) (some (λ i. 0)) opened one_file
      ≡ (pos 2, (record opened { f_pos = 0 + 2 }, t)))
    × Written (one_file.nodes 1) (t.nodes 1) (λ i. 0) 0 (72 ∷ 73 ∷ [])
    × ((e : ℕ) → 1 ≢ e → t.nodes e ≡ one_file.nodes e)
    × (t.vnodes ≡ one_file.vnodes)
unfolding opened-Opened
tmpfs_write-Written_example =
    tmpfs_write-Written (72 ∷ 73 ∷ []) (λ i. 0) opened one_file 1 opened-Opened (omega arith)
      (omega arith)

write-read_example :
    (g : File) × (t : Fs) × (tmpfs_write (72 ∷ 73 ∷ []) (some (λ i. 0)) opened one_file
      ≡ (pos 2, (g, t)))
    × (h : File) × (tmpfs_lseek64 (pos 0) 0 g t ≡ (pos 0, h))
    × ((tmpfs_read 2 h t).1.0 ≡ (72 ∷ 73 ∷ []))
write-read_example =
    write-read (72 ∷ 73 ∷ []) (λ i. 0) opened one_file 1 opened-Opened (omega arith) (omega arith)

tmpfs_read_lem_example :
    (n : ℕ) × (tmpfs_read 5 opened one_file
      ≡ (pos n, (bytes_from (λ i. 0) 0 n, record opened { f_pos = 0 + n })))
    × (((n ≡ 5) × (0 + 5 ≤ 0)) ⊎ ((n ≡ 0 - 0) × (0 < 0 + 5)))
unfolding opened-Opened
tmpfs_read_lem_example = tmpfs_read_lem 5 opened one_file 1 opened-Opened (omega arith)

-- At position 4096, the end of the buffer.
abbrev at_end : File
at_end = record opened { f_pos = 4096 }

at_end-Opened : Opened at_end one_file 1
at_end-Opened = record { at = refl; is_file = opened-Opened.is_file }

abbrev given : Allocs
given = record { node = some 2; buffer = some (λ i. 0); vnode = some 2 }

given-Given : Given given 2 2
given-Given = record { vnode = refl; node = refl; bytes = λ i. 0; buffer = refl }

root-IsDirectory : IsDirectory one_file 0 0
root-IsDirectory = record { internal = refl; type = refl }

two-Fresh : Fresh one_file 0 0 2 2 (1 ∷ [])
two-Fresh = record {
  vnode = ground arith;
  node = ground arith;
  apart = (ground arith, (λ e. absurd (omega (arith, some_one e))), tt);
}
  where
    some_one : {a b : ℕ} → some a ≡ some b → a ≡ b
    some_one e = cc

lookup_b : tmpfs_lookup (some 0) (98 ∷ []) one_file ≡ (negsuc 1, none)
unfolding tmpfs_lookup lookup_in find_child strcmp
lookup_b = refl

lookup_a : tmpfs_lookup (some 0) (97 ∷ []) one_file ≡ (pos 0, some 1)
unfolding tmpfs_lookup lookup_in find_child strcmp
lookup_a = refl

create-Created_example :
    (gs : Fs) × (tmpfs_create_or_mkdir (some 0) (98 ∷ []) directory given one_file
      ≡ ((pos 0, some 2), gs))
    × Created one_file gs 0 0 2 2 (98 ∷ []) directory
create-Created_example =
    create-Created (98 ∷ []) directory given (ground arith, tt) (omega arith) (omega arith)
      root-IsDirectory (omega arith) lookup_b given-Given two-Fresh

create-Outcome_example :
    Outcome one_file (tmpfs_create_or_mkdir (some 0) (97 ∷ []) file given one_file)
create-Outcome_example = create-Outcome (some 0) (97 ∷ []) file given one_file
