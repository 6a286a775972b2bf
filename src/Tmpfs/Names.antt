-- ===== src/Tmpfs/Names.antt =====
-- src/fs_tmpfs.c: names in a directory under `tmpfs_lookup` and `tmpfs_create_or_mkdir`.
use nycu_osdi.Prelude.{
  ℕ, ◌<◌, ◌≡◌, ◌≢◌, ◌⊎◌, ◌∙◌, refl, sym, ap, true, false, Option, none, some, List, [], ◌∷◌, ◌++◌,
  arith, ◌==◌, leb, if◌then◌else◌, length, Bool-cases, inl, inr,
}
use nycu_osdi.Prelude.Int.{ℤ, pos, negsuc}
use nycu_osdi.Strings.{strlen}
use nycu_osdi.Tmpfs.{
  Fs, Node, NodeType, file, directory, Allocs, max_children, max_file_name, eexist_vfs, is_named,
  find_child, as_result, lookup_in, tmpfs_lookup, create_internal_node, create_vnode, create_named,
  create_in, tmpfs_create_or_mkdir,
}

-- A directory: the vnode `dir`, its node `d`.
pub record IsDirectory (fs : Fs) (dir d : ℕ) : Type 0 where
  pub internal : (fs.vnodes dir).internal ≡ some d
  pub type : (fs.nodes d).type ≡ directory

pub tmpfs_lookup_lem :
    {fs : Fs} {dir d : ℕ} (name : List ℕ)
    → IsDirectory fs dir d
    → tmpfs_lookup (some dir) name fs ≡ as_result (find_child (fs.nodes d).children name fs)
unfolding tmpfs_lookup lookup_in
tmpfs_lookup_lem name i = rw (i.internal, lookup_in) (rw i.type refl)

-- A creation either gives a vnode, or fails with an error and changes nothing.
abbrev pub Outcome : Fs → (ℤ × Option ℕ) × Fs → Type 0
Outcome fs r = ((v : ℕ) × (r.0 ≡ (pos 0, some v))) ⊎ ((n : ℕ) × (r ≡ ((negsuc n, none), fs)))

module _ (dir d : ℕ) (name : List ℕ) (a : Allocs) (fs : Fs) where
  made : (o : Option (ℕ × Node)) (v : Option ℕ) → Outcome fs (create_vnode dir d o v fs)
  unfolding create_vnode
  made none v = inr (2, refl)
  made (some (n, node)) none = inr (2, refl)
  made (some (n, node)) (some v) = inl (v, refl)

  named : (type : NodeType) (o : Option ℕ) → Outcome fs (create_named dir d name type a o fs)
  unfolding create_named
  named type (some child) = inr (6, refl)
  named type none = elim (Bool-cases (leb max_children (length (fs.nodes d).children))) [
    | inl full ↦ rw full (inr (2, refl))
    | inr room ↦ rw room (made (create_internal_node name type d a) a.vnode)
  ]

  in_node :
      (type t : NodeType)
      → (fs.nodes d).type ≡ t
      → Outcome fs (create_in dir (some d) name type a fs)
  unfolding create_in
  in_node type t is_t = elim (Bool-cases (strlen name == 0)) [
    | inl empty ↦ rw empty (inr (3, refl))
    | inr some_name ↦ rw some_name (kind t is_t)
  ]
    where
      kind :
          (t : NodeType)
          → (fs.nodes d).type ≡ t
          → Outcome fs (elim (fs.nodes d).type [
            | file ↦ ((negsuc 5, none), fs)
            | directory ↦
                if leb max_file_name (strlen name)
                then ((negsuc 3, none), fs)
                else create_named dir d name type a (find_child (fs.nodes d).children name fs) fs
          ])
      kind file e = rw e (inr (5, refl))
      kind directory e = elim (Bool-cases (leb max_file_name (strlen name))) [
        | inl long ↦ rw (e, long) (inr (3, refl))
        | inr short ↦ rw (e, short) (named type (find_child (fs.nodes d).children name fs))
      ]

create_in-Outcome :
    (dir : ℕ) (o : Option ℕ) (name : List ℕ) (type : NodeType) (a : Allocs) (fs : Fs)
    → Outcome fs (create_in dir o name type a fs)
unfolding create_in
create_in-Outcome dir none name type a fs = inr (3, refl)
create_in-Outcome dir (some d) name type a fs = in_node dir d name a fs type (fs.nodes d).type refl

-- `tmpfs_create` and `tmpfs_mkdir` either return 0 and a vnode, or an error, and then no node and
-- no vnode is changed.
pub create-Outcome :
    (dir_node : Option ℕ) (name : List ℕ) (type : NodeType) (a : Allocs) (fs : Fs)
    → Outcome fs (tmpfs_create_or_mkdir dir_node name type a fs)
unfolding tmpfs_create_or_mkdir
create-Outcome none name type a fs = inr (3, refl)
create-Outcome (some dir) name type a fs =
    create_in-Outcome dir (fs.vnodes dir).internal name type a fs

-- In a directory with valid arguments, the result is that of the part after the checks.
pub create_lem :
    {fs : Fs} {dir d : ℕ} (name : List ℕ) (type : NodeType) (a : Allocs)
    → IsDirectory fs dir d
    → 0 < length name
    → length name < 64
    → tmpfs_create_or_mkdir (some dir) name type a fs
      ≡ create_named dir d name type a (find_child (fs.nodes d).children name fs) fs
unfolding tmpfs_create_or_mkdir create_in
create_lem name type a i some_name short =
    let not_empty : (length name == 0) ≡ false = ground arith in
    let fits : leb 64 (length name) ≡ false = ground arith in
    rw (i.internal, create_in) (rw not_empty (rw (i.type, fits) refl))

-- A name that `tmpfs_lookup` finds cannot be created again, and nothing is changed.
pub create-exists :
    {fs : Fs} {dir d : ℕ} (name : List ℕ) (type : NodeType) (a : Allocs) (child : ℕ)
    → IsDirectory fs dir d
    → 0 < length name
    → length name < 64
    → tmpfs_lookup (some dir) name fs ≡ (pos 0, some child)
    → tmpfs_create_or_mkdir (some dir) name type a fs ≡ ((eexist_vfs, none), fs)
unfolding create_named
create-exists {fs} {dir} {d} name type a child i some_name short found =
    create_lem name type a i some_name short ∙ at (find_child (fs.nodes d).children name fs) same
  where
    same : as_result (find_child (fs.nodes d).children name fs) ≡ (pos 0, some child)
    same = sym (tmpfs_lookup_lem name i) ∙ found

    at :
        (o : Option ℕ)
        → as_result o ≡ (pos 0, some child)
        → create_named dir d name type a o fs ≡ ((eexist_vfs, none), fs)
    at none e = cc
    at (some c) e = refl

abbrev pub Apart : Fs → (v n : ℕ) → List ℕ → Type 0
Apart fs v n [] = Unit {0}
Apart fs v n (c ∷ children) = (v ≢ c) × ((fs.vnodes c).internal ≢ some n) × Apart fs v n children

-- The numbers that `alloc` gave are new to the directory: `v` is no child and not the directory,
-- `n` is the node of neither.
pub record Fresh (fs : Fs) (dir d : ℕ) (v n : ℕ) (children : List ℕ) : Type 0 where
  pub vnode : v ≢ dir
  pub node : n ≢ d
  pub apart : Apart fs v n children

-- The search reads only the vnodes of the children and the names of their nodes.
is_named-same :
    (fs gs : Fs) (o : Option ℕ) (n : ℕ) (name : List ℕ)
    → o ≢ some n
    → ((x : ℕ) → n ≢ x → (gs.nodes x).name ≡ (fs.nodes x).name)
    → is_named o name gs ≡ is_named o name fs
is_named-same fs gs none n name ne same = refl
is_named-same fs gs (some x) n name ne same =
    let apart : n ≢ x = λ e. ne (ap (λ (y : ℕ). some y) (sym e)) in rw (same x apart) refl

pub find_child-append :
    (fs gs : Fs) (v n : ℕ) (name : List ℕ) (children : List ℕ)
    → Apart fs v n children
    → ((x : ℕ) → n ≢ x → (gs.nodes x).name ≡ (fs.nodes x).name)
    → ((c : ℕ) → v ≢ c → gs.vnodes c ≡ fs.vnodes c)
    → find_child children name gs ≡ find_child children name fs
unfolding find_child
find_child-append fs gs v n name [] apart names vnodes = refl
find_child-append fs gs v n name (c ∷ children) apart names vnodes =
    rw
      (
        find_child-append fs gs v n name children apart.2 names vnodes,
        vnodes c apart.0,
        is_named-same fs gs (fs.vnodes c).internal n name apart.1 names,
      )
      refl

-- A new child behind the others is found if none of them has the name.
pub find_child-last :
    (fs : Fs) (v : ℕ) (name : List ℕ) (children : List ℕ)
    → find_child children name fs ≡ none
    → is_named (fs.vnodes v).internal name fs ≡ true
    → find_child (children ++ (v ∷ [])) name fs ≡ some v
unfolding find_child
find_child-last fs v name [] absent is_new = rw is_new refl
find_child-last fs v name (c ∷ children) absent is_new =
    elim (Bool-cases (is_named (fs.vnodes c).internal name fs)) [
      | inl same ↦ (let e : some c ≡ none = (rw same at absent) in cc)
      | inr other ↦ rw other (find_child-last fs v name children (rw other at absent) is_new)
    ]

pub find_child-others :
    (fs : Fs) (v : ℕ) (name : List ℕ) (children : List ℕ)
    → is_named (fs.vnodes v).internal name fs ≡ false
    → find_child (children ++ (v ∷ [])) name fs ≡ find_child children name fs
unfolding find_child
find_child-others fs v name [] other = rw other refl
find_child-others fs v name (c ∷ children) other =
    rw (find_child-others fs v name children other) refl
