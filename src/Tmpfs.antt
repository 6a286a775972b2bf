-- ===== src/Tmpfs.antt =====
-- src/fs_tmpfs.c: the file system in memory; its nodes, `tmpfs_lookup` and `tmpfs_create_or_mkdir`.
--
-- Pointers are numbers, none for NULL, into the nodes and the vnodes; `children` are the first
-- `num_children` entries of the array of that name. What the calls of `alloc` return is an argument
-- of the operations. A failed operation that frees what it got leaves no trace in this state.
pub mod Contents
pub mod Create
pub mod Files
pub mod Names
mod Tests
use nycu_osdi.Prelude.{
  ℕ, ◌+◌, Bool, true, false, Option, none, some, List, [], ◌∷◌, ◌++◌, ◌==◌, ◌||◌, leb,
  if◌then◌else◌, length, update,
}
use nycu_osdi.Prelude.Int.{ℤ, pos, negsuc, eq_ℤ}
use nycu_osdi.Strings.{strcmp, strlen}

abbrev pub max_file_name : ℕ
max_file_name = 64

abbrev pub max_children : ℕ
max_children = 16

abbrev pub default_file_size : ℕ
default_file_size = 4096

-- ENOENT_VFS is -2, and so on.
abbrev pub enoent_vfs : ℤ
enoent_vfs = negsuc 1

abbrev pub enomem_vfs : ℤ
enomem_vfs = negsuc 2

abbrev pub einval_vfs : ℤ
einval_vfs = negsuc 3

abbrev pub eacces_vfs : ℤ
eacces_vfs = negsuc 5

abbrev pub eexist_vfs : ℤ
eexist_vfs = negsuc 6

-- TMPFS_NODE_FILE and TMPFS_NODE_DIRECTORY
pub data NodeType : Type 0 where
  file : NodeType
  directory : NodeType

-- `data` is none for NULL, else the bytes of the buffer, of which there are `capacity`.
pub record Node : Type 0 where
  pub name : List ℕ
  pub type : NodeType
  pub parent : Option ℕ
  pub data_bytes : Option (ℕ → ℕ)
  pub size : ℕ
  pub capacity : ℕ
  pub children : List ℕ

pub record Vnode : Type 0 where
  pub mount : Option ℕ
  pub internal : Option ℕ
  pub parent : Option ℕ
  pub parent_is_mount : Bool

pub record Fs : Type 0 where
  pub nodes : ℕ → Node
  pub vnodes : ℕ → Vnode

-- What the three calls of `alloc` of a creation return, NULL as none.
pub record Allocs : Type 0 where
  pub node : Option ℕ
  pub buffer : Option (ℕ → ℕ)
  pub vnode : Option ℕ

-- `dir_node && dir_node->internal`, as the node.
abbrev pub node_of : Option ℕ → Fs → Option ℕ
node_of none fs = none
node_of (some v) fs = (fs.vnodes v).internal

-- The test `strcmp(child_name, component_name) == 0`. A child has a node: the code reads its name
-- without a test.
abbrev pub is_named : Option ℕ → List ℕ → Fs → Bool
is_named none name fs = false
is_named (some n) name fs = eq_ℤ (strcmp (fs.nodes n).name name) (pos 0)

-- The loop over the children: the first of that name.
unfoldable pub find_child : List ℕ → List ℕ → Fs → Option ℕ
find_child [] name fs = none
find_child (child ∷ children) name fs =
    let rest = find_child children name fs in
    if is_named (fs.vnodes child).internal name fs then some child else rest

abbrev pub as_result : Option ℕ → ℤ × Option ℕ
as_result none = (enoent_vfs, none)
as_result (some child) = (pos 0, some child)

-- `tmpfs_lookup` at the node of the directory: the return value and `*target`, which the callers
-- have set to NULL.
unfoldable pub lookup_in : Option ℕ → List ℕ → Fs → ℤ × Option ℕ
lookup_in none name fs = (einval_vfs, none)
lookup_in (some d) name fs = elim (fs.nodes d).type [
  | file ↦ (eacces_vfs, none)
  | directory ↦ as_result (find_child (fs.nodes d).children name fs)
]

unfoldable pub tmpfs_lookup : Option ℕ → List ℕ → Fs → ℤ × Option ℕ
tmpfs_lookup dir_node name fs = lookup_in (node_of dir_node fs) name fs

-- The writes of `tmpfs_create_internal_node`, before the buffer.
abbrev pub fresh_node : List ℕ → NodeType → ℕ → Node
fresh_node name type parent = record {
  name = name;
  type = type;
  parent = some parent;
  data_bytes = none;
  size = 0;
  capacity = 0;
  children = [];
}

-- `tmpfs_create_internal_node`: the new node, none for NULL.
unfoldable pub create_internal_node : List ℕ → NodeType → ℕ → Allocs → Option (ℕ × Node)
create_internal_node name type parent a = elim a.node [
  | none ↦ none
  | some n ↦ elim type [
    | directory ↦ some (n, fresh_node name directory parent)
    | file ↦ elim a.buffer [
      | none ↦ none
      | some bytes ↦ some (
        n,
        record (fresh_node name file parent) {
          data_bytes = some bytes;
          capacity = default_file_size;
        },
      )
    ]
  ]
]

-- The last part of `tmpfs_create_or_mkdir`, which cannot fail: the new vnode is the last child.
unfoldable pub attach : (dir d v n : ℕ) → Node → Fs → Fs
attach dir d v n node fs =
    let nodes = update fs.nodes n node in
    record fs {
      nodes = update nodes d (record (nodes d) { children = (nodes d).children ++ (v ∷ []) });
      vnodes = update fs.vnodes v (record {
        mount = (fs.vnodes dir).mount;
        internal = some n;
        parent = some dir;
        parent_is_mount = false;
      });
    }

-- The rest after the node was made, by it and by the vnode that `alloc` gave.
unfoldable pub create_vnode : (dir d : ℕ) → Option (ℕ × Node) → Option ℕ → Fs → (ℤ × Option ℕ) × Fs
create_vnode dir d none v fs = ((enomem_vfs, none), fs)
create_vnode dir d (some (n, node)) none fs = ((enomem_vfs, none), fs)
create_vnode dir d (some (n, node)) (some v) fs = ((pos 0, some v), attach dir d v n node fs)

-- The checks in a directory, by the result of the loop over its children.
unfoldable pub create_named :
    (dir d : ℕ) → List ℕ → NodeType → Allocs → Option ℕ → Fs → (ℤ × Option ℕ) × Fs
create_named dir d name type a (some child) fs = ((eexist_vfs, none), fs)
create_named dir d name type a none fs =
    if leb max_children (length (fs.nodes d).children)
    then ((enomem_vfs, none), fs)
    else create_vnode dir d (create_internal_node name type d a) a.vnode fs

unfoldable pub create_in :
    (dir : ℕ) → Option ℕ → List ℕ → NodeType → Allocs → Fs → (ℤ × Option ℕ) × Fs
create_in dir none name type a fs = ((einval_vfs, none), fs)
create_in dir (some d) name type a fs =
    if strlen name == 0 then ((einval_vfs, none), fs) else elim (fs.nodes d).type [
      | file ↦ ((eacces_vfs, none), fs)
      | directory ↦
          if leb max_file_name (strlen name)
          then ((einval_vfs, none), fs)
          else create_named dir d name type a (find_child (fs.nodes d).children name fs) fs
    ]

unfoldable pub tmpfs_create_or_mkdir :
    Option ℕ → List ℕ → NodeType → Allocs → Fs → (ℤ × Option ℕ) × Fs
tmpfs_create_or_mkdir none name type a fs = ((einval_vfs, none), fs)
tmpfs_create_or_mkdir (some dir) name type a fs =
    create_in dir (fs.vnodes dir).internal name type a fs

abbrev pub tmpfs_create : Option ℕ → List ℕ → Allocs → Fs → (ℤ × Option ℕ) × Fs
tmpfs_create dir_node name a fs = tmpfs_create_or_mkdir dir_node name file a fs

abbrev pub tmpfs_mkdir : Option ℕ → List ℕ → Allocs → Fs → (ℤ × Option ℕ) × Fs
tmpfs_mkdir dir_node name a fs = tmpfs_create_or_mkdir dir_node name directory a fs
