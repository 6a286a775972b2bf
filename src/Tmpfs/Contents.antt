-- ===== src/Tmpfs/Contents.antt =====
-- src/fs_tmpfs.c: the bytes of a file under `tmpfs_write`, `tmpfs_read` and `tmpfs_lseek64`.
pub mod Growth
use nycu_osdi.Prelude.{
  ℕ, suc, ◌+◌, ◌-◌, ◌^◌, ◌≤◌, ◌<◌, ◌≡◌, ◌≢◌, ◌⊎◌, ◌∙◌, refl, sym, ap, subst, true, false, Option,
  none, some, List, [], ◌∷◌, arith, ◌==◌, leb, ltb, if◌then◌else◌, length, get_or, update,
  update_self, update_ne, Bool-cases, inl, inr, add-zero,
}
use nycu_osdi.Prelude.Int.{ℤ, pos}
use nycu_osdi.Tmpfs.{Fs, Node, enomem_vfs, node_of}
use nycu_osdi.Tmpfs.Files.{
  File, grow, copy_in, reserve_bytes, store, write_node, tmpfs_write, bytes_from, read_node,
  tmpfs_read, lseek_node, tmpfs_lseek64,
}
use nycu_osdi.Tmpfs.Contents.Growth.{IsFile, Roomy, grow_lem, reserve_bytes-Roomy}

-- What a write of `buf` at `at` makes of a node: the bytes of `buf` stand there, the others of the
-- file are the same, and the file ends behind both.
pub record Written (s t : Node) (bytes : ℕ → ℕ) (at : ℕ) (buf : List ℕ) : Type 0 where
  pub is_file : IsFile t
  pub size :
      ((t.size ≡ s.size) × (at + length buf ≤ s.size))
      ⊎ ((t.size ≡ at + length buf) × (s.size < at + length buf))
  pub written : (i : ℕ) → i < length buf → is_file.bytes (at + i) ≡ get_or buf i 0
  pub kept : (i : ℕ) → i < s.size → (i < at) ⊎ (at + length buf ≤ i) → is_file.bytes i ≡ bytes i

store-Written :
    {s t : Node} {bytes : ℕ → ℕ} (at : ℕ) (buf : List ℕ)
    → IsFile s
    → Roomy s t (at + length buf) bytes
    → Written s (store at buf t) bytes at buf
store-Written {s} {t} {bytes} at buf f r = record {
  is_file = record {
    type = r.type ∙ f.type;
    bytes = copy_in at buf (length buf) r.new_bytes;
    buffer = rw r.buffer refl;
    room = ground (arith, r.size, r.room, f.room);
  };
  size = ground (arith, r.size);
  written = λ i lt. (let d : at + i - at ≡ i = omega arith in rw d (ground arith));
  kept = λ i lt out. (ground (arith, out)) ∙ r.kept i lt;
}

-- An open file at the node `d`.
pub record Opened (f : File) (fs : Fs) (d : ℕ) : Type 0 where
  pub at : node_of f.vnode fs ≡ some d
  pub is_file : IsFile (fs.nodes d)

-- A write of at least one byte, with memory for it: all of it is written at the position of the
-- file, which moves behind it; the bytes before and after stay, and no other node changes.
pub tmpfs_write-Written :
    (buf : List ℕ) (fresh : ℕ → ℕ) (f : File) (fs : Fs) (d : ℕ) (o : Opened f fs d)
    → 0 < length buf
    → f.f_pos + length buf ≤ 2 ^ 63
    → (t : Fs) × (tmpfs_write buf (some fresh) f fs
        ≡ (pos (length buf), (record f { f_pos = f.f_pos + length buf }, t)))
      × Written (fs.nodes d) (t.nodes d) o.is_file.bytes f.f_pos buf
      × ((e : ℕ) → d ≢ e → t.nodes e ≡ fs.nodes e)
      × (t.vnodes ≡ fs.vnodes)
unfolding tmpfs_write write_node
tmpfs_write-Written buf fresh f fs d o some_bytes fits =
    let (node, done, roomy) =
      reserve_bytes-Roomy (f.f_pos + length buf) fresh (fs.nodes d) o.is_file fits in
    let not_empty : (length buf == 0) ≡ false = ground arith in
    let new = store f.f_pos buf node in
    let w = store-Written f.f_pos buf o.is_file roomy in
    (
      record fs { nodes = update fs.nodes d new },
      rw (o.at, write_node) (rw (not_empty, o.is_file.type, done) refl),
      subst (λ n. Written (fs.nodes d) n o.is_file.bytes f.f_pos buf)
          (sym (update_self fs.nodes d new)) w,
      λ e ne. update_ne fs.nodes d e new ne,
      refl,
    )

-- Without memory for a larger buffer the write fails and changes nothing.
pub tmpfs_write-enomem :
    (buf : List ℕ) (f : File) (fs : Fs) (d : ℕ)
    → Opened f fs d
    → 0 < length buf
    → (fs.nodes d).capacity < f.f_pos + length buf
    → f.f_pos + length buf ≤ 2 ^ 63
    → tmpfs_write buf none f fs ≡ (enomem_vfs, (f, fs))
unfolding tmpfs_write write_node reserve_bytes
tmpfs_write-enomem buf f fs d o some_bytes small fits =
    let node = fs.nodes d in
    let start = if ltb 0 node.capacity then node.capacity else 4096 in
    let positive : 0 < start = ground arith in
    let (reached, more) = grow_lem 64 0 start (f.f_pos + length buf) (omega arith) (omega arith) in
    let full : ltb node.capacity (f.f_pos + length buf) ≡ true = ground arith in
    let grown : ltb node.capacity (grow 64 start (f.f_pos + length buf)) ≡ true = ground arith in
    let not_empty : (length buf == 0) ≡ false = ground arith in
    rw (o.at, write_node) (rw (not_empty, o.is_file.type) (rw full (rw grown refl)))

-- A read of at least one byte gives the bytes from the position on, as many as are asked for or as
-- the file still has, and moves the position behind them; at the end of the file it gives none.
pub tmpfs_read_lem :
    (len : ℕ) (f : File) (fs : Fs) (d : ℕ) (o : Opened f fs d)
    → 0 < len
    → (n : ℕ) × (tmpfs_read len f fs
        ≡ (pos n, (bytes_from o.is_file.bytes f.f_pos n, record f { f_pos = f.f_pos + n })))
      × (((n ≡ len) × (f.f_pos + len ≤ (fs.nodes d).size))
          ⊎ ((n ≡ (fs.nodes d).size - f.f_pos) × ((fs.nodes d).size < f.f_pos + len)))
unfolding tmpfs_read read_node
tmpfs_read_lem len f fs d o some_bytes =
    let not_empty : (len == 0) ≡ false = ground arith in
    elim (Bool-cases (leb (fs.nodes d).size f.f_pos)) [
      | inl at_end ↦ (
        0,
        rw (add-zero f.f_pos) (rw (o.at, read_node) (rw (not_empty, o.is_file.type, at_end) refl)),
        inr (ground arith, ground arith),
      )
      | inr inside ↦ elim (Bool-cases (ltb (fs.nodes d).size (f.f_pos + len))) [
        | inl short ↦ (
          (fs.nodes d).size - f.f_pos,
          rw (o.at, read_node)
              (rw (not_empty, o.is_file.type, inside, short, o.is_file.buffer) refl),
          inr (refl, ground arith),
        )
        | inr long ↦ (
          len,
          rw (o.at, read_node)
              (rw (not_empty, o.is_file.type, inside, long, o.is_file.buffer) refl),
          inl (refl, ground arith),
        )
      ]
    ]

bytes_from_lem :
    (bytes : ℕ → ℕ) (at : ℕ) (buf : List ℕ)
    → ((i : ℕ) → i < length buf → bytes (at + i) ≡ get_or buf i 0)
    → bytes_from bytes at (length buf) ≡ buf
bytes_from_lem bytes at [] h = refl
bytes_from_lem bytes at (c ∷ buf) h =
    let first : bytes at ≡ c = subst (λ (i : ℕ). bytes i ≡ c) (add-zero at) (h 0 (omega arith)) in
    let rest = bytes_from_lem bytes (at + 1) buf λ i lt.
      let shift : at + suc i ≡ at + 1 + i = omega arith in
      subst (λ (k : ℕ). bytes k ≡ get_or buf i 0) shift (h (suc i) (omega arith)) in
    cc

node_of-same : (s t : Fs) (v : Option ℕ) → t.vnodes ≡ s.vnodes → node_of v t ≡ node_of v s
node_of-same s t none e = refl
node_of-same s t (some v) e = ap (λ g. (g v).internal) e

-- What was written is read back: after a write, a seek to where it began and a read of its length
-- give the bytes written.
pub write-read :
    (buf : List ℕ) (fresh : ℕ → ℕ) (f : File) (fs : Fs) (d : ℕ) (o : Opened f fs d)
    → 0 < length buf
    → f.f_pos + length buf ≤ 2 ^ 63
    → (g : File) × (t : Fs) × (tmpfs_write buf (some fresh) f fs ≡ (pos (length buf), (g, t)))
      × (h : File) × (tmpfs_lseek64 (pos f.f_pos) 0 g t ≡ (pos f.f_pos, h))
      × ((tmpfs_read (length buf) h t).1.0 ≡ buf)
unfolding tmpfs_lseek64 lseek_node
write-read buf fresh f fs d o some_bytes fits =
    let (t, done, w, others, vnodes) = tmpfs_write-Written buf fresh f fs d o some_bytes fits in
    let g = record f { f_pos = f.f_pos + length buf } in
    let at : node_of f.vnode t ≡ some d = node_of-same fs t f.vnode vnodes ∙ o.at in
    let again : Opened f t d = record { at = at; is_file = w.is_file } in
    let (n, read, many) = tmpfs_read_lem (length buf) f t d again some_bytes in
    let whole : n ≡ length buf = elim many [
      | inl (all, inside) ↦ all
      | inr (part, short) ↦ absurd (ground (arith, w.size))
    ] in
    (
      g,
      t,
      done,
      f,
      (rw (at, lseek_node) (rw w.is_file.type refl)),
      ap (λ (r : ℤ × (List ℕ × File)). r.1.0) read
          ∙ ap (λ (k : ℕ). bytes_from w.is_file.bytes f.f_pos k) whole
          ∙ bytes_from_lem w.is_file.bytes f.f_pos buf w.written,
    )
