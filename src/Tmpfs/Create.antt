-- ===== src/Tmpfs/Create.antt =====
-- src/fs_tmpfs.c: what a successful creation leaves.
use nycu_osdi.Prelude.{
  ℕ, ◌<◌, ◌≡◌, ◌≢◌, ◌∙◌, refl, sym, ap, subst, true, false, Option, none, some, List, [], ◌∷◌, ◌++◌,
  arith, ◌==◌, leb, length, update, update_self, update_ne, Bool-cases, inl, inr,
}
use nycu_osdi.Prelude.Int.{pos, eq_ℤ, eq_ℤ_iff}
use nycu_osdi.Strings.{strcmp}
use nycu_osdi.Strings.Compare.{IsString, strcmp_self, strcmp-zero}
use nycu_osdi.Tmpfs.{
  Fs, Node, NodeType, file, directory, Vnode, Allocs, enoent_vfs, is_named, find_child, as_result,
  tmpfs_lookup, create_internal_node, fresh_node, default_file_size, attach, create_vnode,
  create_named, tmpfs_create_or_mkdir,
}
use nycu_osdi.Tmpfs.Names.{
  IsDirectory, Fresh, tmpfs_lookup_lem, create_lem, find_child-append, find_child-last,
  find_child-others,
}

-- The calls of `alloc` give a node `n`, a vnode `v`, and a buffer.
pub record Given (a : Allocs) (v n : ℕ) : Type 0 where
  pub vnode : a.vnode ≡ some v
  pub node : a.node ≡ some n
  pub bytes : ℕ → ℕ
  pub buffer : a.buffer ≡ some bytes

create_internal_node_lem :
    {a : Allocs} {v n : ℕ} (name : List ℕ) (type : NodeType) (d : ℕ)
    → Given a v n
    → (node : Node) × (create_internal_node name type d a ≡ some (n, node))
      × (node.name ≡ name)
      × (node.type ≡ type)
unfolding create_internal_node
create_internal_node_lem {n = n} name file d g = (
  record (fresh_node name file d) { data_bytes = some g.bytes; capacity = default_file_size },
  rw (g.node, g.buffer) refl,
  refl,
  refl,
)
create_internal_node_lem name directory d g =
    (fresh_node name directory d, rw g.node refl, refl, refl)

-- What a creation of `name` leaves: the new vnode is found under its name, the other names lead
-- where they led before, and the new node is of the type asked for.
pub record Created (fs gs : Fs) (dir d v n : ℕ) (name : List ℕ) (type : NodeType) : Type 0 where
  pub is_directory : IsDirectory gs dir d
  pub children : (gs.nodes d).children ≡ (fs.nodes d).children ++ (v ∷ [])
  pub found : tmpfs_lookup (some dir) name gs ≡ (pos 0, some v)
  pub others :
      (other : List ℕ)
      → IsString other
      → other ≢ name
      → tmpfs_lookup (some dir) other gs ≡ tmpfs_lookup (some dir) other fs
  pub type_of : ((gs.vnodes v).internal ≡ some n) × ((gs.nodes n).type ≡ type)
  pub mount : (gs.vnodes v).mount ≡ (fs.vnodes dir).mount
  pub kept : (x : ℕ) → v ≢ x → gs.vnodes x ≡ fs.vnodes x

module _ (dir d v n : ℕ) (node : Node) (fs : Fs) where
  attach_mount : ((attach dir d v n node fs).vnodes v).mount ≡ (fs.vnodes dir).mount
  unfolding attach
  attach_mount = ground arith

  attach_kept : (x : ℕ) → v ≢ x → (attach dir d v n node fs).vnodes x ≡ fs.vnodes x
  unfolding attach
  attach_kept x ne = update_ne fs.vnodes v x _ ne

  attach_directory :
      n ≢ d
      → (attach dir d v n node fs).nodes d
        ≡ record (fs.nodes d) { children = (fs.nodes d).children ++ (v ∷ []) }
  unfolding attach
  attach_directory ne =
      update_self (update fs.nodes n node) d _
      ∙ ap (λ (m : Node). record m { children = m.children ++ (v ∷ []) })
          (update_ne fs.nodes n d node ne)

  attach_node : n ≢ d → (attach dir d v n node fs).nodes n ≡ node
  unfolding attach
  attach_node ne =
      update_ne (update fs.nodes n node) d n _ (λ e. ne (sym e)) ∙ update_self fs.nodes n node

  attach_names :
      n ≢ d → (x : ℕ) → n ≢ x → ((attach dir d v n node fs).nodes x).name ≡ (fs.nodes x).name
  unfolding attach
  attach_names ne x apart = elim (Bool-cases (d == x)) [
    | inl same ↦
        (let q : d ≡ x = ground arith in
          subst (λ y. ((attach dir d v n node fs).nodes y).name ≡ (fs.nodes y).name) q
            (ap (λ (m : Node). m.name) (attach_directory ne)))
    | inr other ↦
        (let ne' : d ≢ x = ground arith in
          ap (λ (m : Node). m.name)
            (update_ne (update fs.nodes n node) d x _ ne' ∙ update_ne fs.nodes n x node apart))
  ]

  attach_vnodes : (c : ℕ) → v ≢ c → (attach dir d v n node fs).vnodes c ≡ fs.vnodes c
  unfolding attach
  attach_vnodes c ne = update_ne fs.vnodes v c _ ne

  attach_vnode : ((attach dir d v n node fs).vnodes v).internal ≡ some n
  unfolding attach
  attach_vnode = ap (λ (x : Vnode). x.internal) (update_self fs.vnodes v _)

named_new :
    (gs : Fs) (o : Option ℕ) (n : ℕ) (name : List ℕ)
    → o ≡ some n
    → (gs.nodes n).name ≡ name
    → is_named o name gs ≡ true
named_new gs o n name e named = rw (e, is_named) (rw (named, strcmp_self name) refl)

named_other :
    (gs : Fs) (o : Option ℕ) (n : ℕ) (name other : List ℕ)
    → o ≡ some n
    → (gs.nodes n).name ≡ name
    → IsString name
    → IsString other
    → other ≢ name
    → is_named o other gs ≡ false
named_other gs o n name other e named s s' ne =
    rw (e, is_named)
      (rw named (elim (Bool-cases (eq_ℤ (strcmp name other) (pos 0))) [
        | inl zero_cmp ↦ absurd (
            ne (
              sym
                (strcmp-zero name other s s' ((eq_ℤ_iff (strcmp name other) (pos 0)).0 zero_cmp))))
        | inr differ ↦ differ
      ]))

attach-Created :
    {fs : Fs} {dir d v n : ℕ} (name : List ℕ) (node : Node)
    → IsString name
    → IsDirectory fs dir d
    → Fresh fs dir d v n (fs.nodes d).children
    → find_child (fs.nodes d).children name fs ≡ none
    → node.name ≡ name
    → Created fs (attach dir d v n node fs) dir d v n name node.type
attach-Created {fs} {dir} {d} {v} {n} name node s i fresh absent named =
    let gs = attach dir d v n node fs in
    let dir_node = attach_directory dir d v n node fs fresh.node in
    let new_node = attach_node dir d v n node fs fresh.node in
    let names = attach_names dir d v n node fs fresh.node in
    let vnodes = attach_vnodes dir d v n node fs in
    let new_vnode = attach_vnode dir d v n node fs in
    let new_name : (gs.nodes n).name ≡ name = ap (λ (m : Node). m.name) new_node ∙ named in
    let children = ap (λ (m : Node). m.children) dir_node in
    let is_dir : IsDirectory gs dir d = record {
      internal = ap (λ (x : Vnode). x.internal) (vnodes dir fresh.vnode) ∙ i.internal;
      type = ap (λ (m : Node). m.type) dir_node ∙ i.type;
    } in
    let old = λ (l : List ℕ).
      find_child-append fs gs v n l (fs.nodes d).children fresh.apart names vnodes in
    let look = λ (l : List ℕ).
      tmpfs_lookup_lem l is_dir ∙ ap (λ c. as_result (find_child c l gs)) children in
    record {
      is_directory = is_dir;
      children = children;
      found =
          look name
          ∙ ap (λ (o : Option ℕ). as_result o)
              (find_child-last gs v name (fs.nodes d).children (old name ∙ absent)
                (named_new gs (gs.vnodes v).internal n name new_vnode new_name));
      others = λ other s' ne.
          look other
          ∙ ap (λ (o : Option ℕ). as_result o)
              (find_child-others gs v other (fs.nodes d).children
                  (named_other gs (gs.vnodes v).internal n name other new_vnode new_name s s' ne)
                ∙ old other)
          ∙ sym (tmpfs_lookup_lem other i);
      type_of = (new_vnode, ap (λ (m : Node). m.type) new_node);
      mount = attach_mount dir d v n node fs;
      kept = attach_kept dir d v n node fs;
    }

absent_of : (o : Option ℕ) → as_result o ≡ (enoent_vfs, none) → o ≡ none
absent_of none e = refl
absent_of (some c) e = cc

-- In a directory with fewer than 16 children, a new name of 1 to 63 characters is created, with
-- memory for it: the new vnode is then found under its name, every other name leads where it led
-- before, and the new node is a file or a directory as asked for.
pub create-Created :
    {fs : Fs} {dir d v n : ℕ} (name : List ℕ) (type : NodeType) (a : Allocs)
    → IsString name
    → 0 < length name
    → length name < 64
    → IsDirectory fs dir d
    → length (fs.nodes d).children < 16
    → tmpfs_lookup (some dir) name fs ≡ (enoent_vfs, none)
    → Given a v n
    → Fresh fs dir d v n (fs.nodes d).children
    → (gs : Fs) × (tmpfs_create_or_mkdir (some dir) name type a fs ≡ ((pos 0, some v), gs))
      × Created fs gs dir d v n name type
unfolding create_named create_vnode
create-Created {fs} {dir} {d} {v} {n} name type a s some_name short i room unknown g fresh =
    let absent =
      absent_of (find_child (fs.nodes d).children name fs)
        (sym (tmpfs_lookup_lem name i) ∙ unknown) in
    let (node, made, named, typed) = create_internal_node_lem name type d g in
    let fits : leb 16 (length (fs.nodes d).children) ≡ false = ground arith in
    (
      attach dir d v n node fs,
      create_lem name type a i some_name short
          ∙ (rw (absent, create_named) (rw fits (rw (made, create_vnode) (rw g.vnode refl)))),
      subst (Created fs (attach dir d v n node fs) dir d v n name) typed
          (attach-Created name node s i fresh absent named),
    )
