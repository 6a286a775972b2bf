-- ===== src/Tmpfs/Files.antt =====
-- src/fs_tmpfs.c: the operations on open files.
use nycu_osdi.Prelude.{
  ℕ, zero, suc, ◌+◌, ◌-◌, ◌*◌, Bool, true, false, Option, none, some, List, [], ◌∷◌, ◌==◌, leb, ltb,
  if◌then◌else◌, length, get_or, update,
}
use nycu_osdi.Prelude.Int.{ℤ, pos, negsuc, ◌+ℤ◌}
use nycu_osdi.Tmpfs.{
  Fs, Node, file, directory, default_file_size, enomem_vfs, einval_vfs, eacces_vfs, node_of,
}

-- `f_ops` is the table of the file: here, whether it is one or NULL.
pub record File : Type 0 where
  pub vnode : Option ℕ
  pub f_pos : ℕ
  pub has_ops : Bool
  pub flags : ℕ

-- `tmpfs_open` on the file that `vfs_open` has allocated, none for NULL.
unfoldable pub tmpfs_open : Option ℕ → Option File → ℤ × Option File
tmpfs_open none f = (einval_vfs, f)
tmpfs_open (some v) none = (einval_vfs, none)
tmpfs_open (some v) (some f) =
    (pos 0, some (record f { f_pos = 0; vnode = some v; has_ops = true }))

unfoldable pub tmpfs_close : Option File → ℤ × Option File
tmpfs_close none = (einval_vfs, none)
tmpfs_close (some f) =
    (pos 0, some (record { vnode = none; f_pos = 0; has_ops = false; flags = 0 }))

-- `while (new_capacity < required_capacity) new_capacity *= 2`
unfoldable pub grow : (rounds capacity required : ℕ) → ℕ
grow zero capacity required = capacity
grow (suc n) capacity required =
    let rest = grow n (capacity * 2) required in if ltb capacity required then rest else capacity

-- `memcpy` of `n` bytes from the list `buf`, to index `at` on.
abbrev pub copy_in : ℕ → List ℕ → ℕ → (ℕ → ℕ) → ℕ → ℕ
copy_in at buf n bytes i =
    if leb at i then (if ltb i (at + n) then get_or buf (i - at) 0 else bytes i) else bytes i

-- `memcpy` of the old bytes into the new buffer, if there are any.
abbrev pub move : Option (ℕ → ℕ) → ℕ → (ℕ → ℕ) → ℕ → ℕ
move none size fresh i = fresh i
move (some old) size fresh i = if ltb i size then old i else fresh i

-- The buffer for `required` bytes: the same, or a new one, `fresh`, with the old bytes; none if
-- `alloc` returns NULL. A size_t has 64 doublings at most.
unfoldable pub reserve_bytes : (required : ℕ) → Option (ℕ → ℕ) → Node → Option Node
reserve_bytes required fresh node =
    if ltb node.capacity required
    then (let start = if ltb 0 node.capacity then node.capacity else default_file_size in
        let new_capacity = grow 64 start required in
        if ltb node.capacity new_capacity
        then elim fresh [
          | none ↦ none
          | some bytes ↦ some (record node {
            data_bytes = some (move node.data_bytes node.size bytes);
            capacity = new_capacity;
          })
        ]
        else some node)
    else some node

-- The last part of `tmpfs_write`. With no buffer the code writes through NULL; no write does, as
-- the capacity is then 0 and a buffer was allocated.
abbrev pub store : (f_pos : ℕ) → List ℕ → Node → Node
store at buf node = record node {
  data_bytes = elim node.data_bytes [
    | none ↦ none
    | some bytes ↦ some (copy_in at buf (length buf) bytes)
  ];
  size = if ltb node.size (at + length buf) then at + length buf else node.size;
}

abbrev pub stored : (d : ℕ) → List ℕ → File → Fs → Option Node → ℤ × (File × Fs)
stored d buf f fs none = (enomem_vfs, (f, fs))
stored d buf f fs (some node) = (
  pos (length buf),
  (
    record f { f_pos = f.f_pos + length buf },
    record fs { nodes = update fs.nodes d (store f.f_pos buf node) },
  ),
)

-- `tmpfs_write` at the node of the file, which `vfs_write` has tested against NULL. `len` is the length of `buf`; the sums stay below 2 ^ 63
-- and the length below 2 ^ 31, so that nothing wraps. `fresh` is what `alloc` returns.
unfoldable pub write_node : Option ℕ → List ℕ → Option (ℕ → ℕ) → File → Fs → ℤ × (File × Fs)
write_node none buf fresh f fs = (einval_vfs, (f, fs))
write_node (some d) buf fresh f fs =
    if length buf == 0 then (pos 0, (f, fs)) else elim (fs.nodes d).type [
      | directory ↦ (eacces_vfs, (f, fs))
      | file ↦ stored d buf f fs (reserve_bytes (f.f_pos + length buf) fresh (fs.nodes d))
    ]

unfoldable pub tmpfs_write : List ℕ → Option (ℕ → ℕ) → File → Fs → ℤ × (File × Fs)
tmpfs_write buf fresh f fs = write_node (node_of f.vnode fs) buf fresh f fs

-- The bytes from index `i` on.
abbrev pub bytes_from : (ℕ → ℕ) → (i n : ℕ) → List ℕ
bytes_from bytes i zero = []
bytes_from bytes i (suc n) = bytes i ∷ bytes_from bytes (i + 1) n

abbrev pub buffer_of : Option (ℕ → ℕ) → ℕ → ℕ
buffer_of none i = 0
buffer_of (some bytes) i = bytes i

-- `tmpfs_read` at the node of the file: the return value, what it copies to `buf`, and the file.
unfoldable pub read_node : Option ℕ → (len : ℕ) → File → Fs → ℤ × (List ℕ × File)
read_node none len f fs = (einval_vfs, ([], f))
read_node (some d) len f fs = if len == 0 then (pos 0, ([], f)) else elim (fs.nodes d).type [
  | directory ↦ (eacces_vfs, ([], f))
  | file ↦
      if leb (fs.nodes d).size f.f_pos
      then (pos 0, ([], f))
      else (let n =
            if ltb (fs.nodes d).size (f.f_pos + len) then (fs.nodes d).size - f.f_pos else len in
          (
            pos n,
            (
              bytes_from (buffer_of (fs.nodes d).data_bytes) f.f_pos n,
              record f { f_pos = f.f_pos + n },
            ),
          ))
]

unfoldable pub tmpfs_read : (len : ℕ) → File → Fs → ℤ × (List ℕ × File)
tmpfs_read len f fs = read_node (node_of f.vnode fs) len f fs

-- The position that `whence` and the offset name: SEEK_SET, SEEK_CUR, SEEK_END, or no such value.
abbrev pub new_position : (whence : ℕ) → ℤ → File → Node → Option ℤ
new_position whence offset f node =
    if whence == 0
    then some offset
    else if whence == 1
    then some (pos f.f_pos +ℤ offset)
    else if whence == 2
    then some (pos node.size +ℤ offset)
    else none

abbrev pub sought : Option ℤ → File → ℤ × File
sought none f = (einval_vfs, f)
sought (some (negsuc n)) f = (einval_vfs, f)
sought (some (pos n)) f = (pos n, record f { f_pos = n })

unfoldable pub lseek_node : Option ℕ → ℤ → ℕ → File → Fs → ℤ × File
lseek_node none offset whence f fs = (einval_vfs, f)
lseek_node (some d) offset whence f fs = elim (fs.nodes d).type [
  | directory ↦ (einval_vfs, f)
  | file ↦ sought (new_position whence offset f (fs.nodes d)) f
]

unfoldable pub tmpfs_lseek64 : ℤ → (whence : ℕ) → File → Fs → ℤ × File
tmpfs_lseek64 offset whence f fs = lseek_node (node_of f.vnode fs) offset whence f fs
