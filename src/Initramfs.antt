-- ===== src/Initramfs.antt =====
-- src/fs_initramfs.c: the operations on the read-only file system that is filled at start.
--
-- Pointers are numbers, none for NULL, into the nodes and the vnodes; `children` are the first
-- `num_children` entries of the array. The sums of positions and lengths stay below 2 ^ 63.
pub mod Reading
mod Tests
use nycu_osdi.Prelude.{
  ℕ, zero, suc, ◌+◌, ◌-◌, Bool, true, false, Option, none, some, List, [], ◌∷◌, ◌==◌, leb, ltb,
  if◌then◌else◌,
}
use nycu_osdi.Prelude.Int.{ℤ, pos, negsuc, ◌+ℤ◌, eq_ℤ}
use nycu_osdi.Strings.{strcmp}

abbrev pub no_entry : ℤ
no_entry = negsuc 1

abbrev pub invalid : ℤ
invalid = negsuc 3

abbrev pub no_access : ℤ
no_access = negsuc 5

-- INITRAMFS_NODE_FILE and INITRAMFS_NODE_DIRECTORY
pub data NodeKind : Type 0 where
  regular : NodeKind
  folder : NodeKind

-- The fields that the operations read; `content` is what `data` points to.
pub record InitramfsNode : Type 0 where
  pub name : List ℕ
  pub kind : NodeKind
  pub content : ℕ → ℕ
  pub size : ℕ
  pub children : List ℕ

-- The nodes, and the field `internal` of the vnodes.
pub record Initramfs : Type 0 where
  pub nodes : ℕ → InitramfsNode
  pub internal : ℕ → Option ℕ

pub record OpenFile : Type 0 where
  pub vnode : Option ℕ
  pub f_pos : ℕ
  pub has_ops : Bool
  pub flags : ℕ

-- `vnode && vnode->internal`, as the node.
abbrev pub node_at : Option ℕ → Initramfs → Option ℕ
node_at none fs = none
node_at (some v) fs = fs.internal v

-- `strcmp(child_name, component_name) == 0`, for a child with a node.
abbrev pub has_name : Option ℕ → List ℕ → Initramfs → Bool
has_name none name fs = false
has_name (some n) name fs = eq_ℤ (strcmp (fs.nodes n).name name) (pos 0)

unfoldable pub first_named : List ℕ → List ℕ → Initramfs → ℤ × Option ℕ
first_named [] name fs = (no_entry, none)
first_named (child ∷ children) name fs =
    let rest = first_named children name fs in
    if has_name (fs.internal child) name fs then (pos 0, some child) else rest

unfoldable pub lookup_node : Option ℕ → List ℕ → Initramfs → ℤ × Option ℕ
lookup_node none name fs = (invalid, none)
lookup_node (some d) name fs = elim (fs.nodes d).kind [
  | regular ↦ (no_access, none)
  | folder ↦ first_named (fs.nodes d).children name fs
]

-- The return value and `*target`, which the callers have set to NULL.
unfoldable pub initramfs_lookup : Option ℕ → List ℕ → Initramfs → ℤ × Option ℕ
initramfs_lookup dir_node name fs = lookup_node (node_at dir_node fs) name fs

unfoldable pub initramfs_create : Option ℕ → List ℕ → ℤ
initramfs_create dir_node name = no_access

unfoldable pub initramfs_mkdir : Option ℕ → List ℕ → ℤ
initramfs_mkdir dir_node name = no_access

-- On the file that `vfs_open` has allocated, none for NULL.
unfoldable pub initramfs_open : Option ℕ → Option OpenFile → ℤ × Option OpenFile
initramfs_open none f = (invalid, f)
initramfs_open (some v) none = (invalid, none)
initramfs_open (some v) (some f) =
    (pos 0, some (record f { f_pos = 0; vnode = some v; has_ops = true }))

unfoldable pub initramfs_close : Option OpenFile → ℤ × Option OpenFile
initramfs_close none = (invalid, none)
initramfs_close (some f) =
    (pos 0, some (record { vnode = none; f_pos = 0; has_ops = false; flags = 0 }))

unfoldable pub initramfs_write : OpenFile → List ℕ → ℤ
initramfs_write f buf = no_access

-- `n` bytes from index `i` on.
abbrev pub copy_out : (ℕ → ℕ) → (i n : ℕ) → List ℕ
copy_out content i zero = []
copy_out content i (suc n) = content i ∷ copy_out content (i + 1) n

-- The return value, what is copied to `buf`, and the file; `vfs_read` has tested the pointers.
unfoldable pub read_at : Option ℕ → (len : ℕ) → OpenFile → Initramfs → ℤ × (List ℕ × OpenFile)
read_at none len f fs = (invalid, ([], f))
read_at (some d) len f fs = if len == 0 then (pos 0, ([], f)) else elim (fs.nodes d).kind [
  | folder ↦ (no_access, ([], f))
  | regular ↦
      if leb (fs.nodes d).size f.f_pos
      then (pos 0, ([], f))
      else (let n =
            if ltb (fs.nodes d).size (f.f_pos + len) then (fs.nodes d).size - f.f_pos else len in
          (pos n, (copy_out (fs.nodes d).content f.f_pos n, record f { f_pos = f.f_pos + n })))
]

unfoldable pub initramfs_read : (len : ℕ) → OpenFile → Initramfs → ℤ × (List ℕ × OpenFile)
initramfs_read len f fs = read_at (node_at f.vnode fs) len f fs

-- SEEK_SET, SEEK_CUR and SEEK_END.
abbrev pub position_of : (whence : ℕ) → ℤ → OpenFile → InitramfsNode → Option ℤ
position_of whence offset f node =
    if whence == 0
    then some offset
    else if whence == 1
    then some (pos f.f_pos +ℤ offset)
    else if whence == 2
    then some (pos node.size +ℤ offset)
    else none

abbrev pub moved_to : Option ℤ → OpenFile → ℤ × OpenFile
moved_to none f = (invalid, f)
moved_to (some (negsuc n)) f = (invalid, f)
moved_to (some (pos n)) f = (pos n, record f { f_pos = n })

unfoldable pub seek_at : Option ℕ → ℤ → ℕ → OpenFile → Initramfs → ℤ × OpenFile
seek_at none offset whence f fs = (invalid, f)
seek_at (some d) offset whence f fs = elim (fs.nodes d).kind [
  | folder ↦ (invalid, f)
  | regular ↦ moved_to (position_of whence offset f (fs.nodes d)) f
]

unfoldable pub initramfs_lseek64 : ℤ → (whence : ℕ) → OpenFile → Initramfs → ℤ × OpenFile
initramfs_lseek64 offset whence f fs = seek_at (node_at f.vnode fs) offset whence f fs
