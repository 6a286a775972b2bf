-- ===== src/Cpio/Walks.antt =====
-- What the loops of src/cpio.c and `initramfs_init` make of an archive.
use nycu_osdi.Prelude.{
  ℕ, zero, suc, ◌+◌, ◌≤◌, ◌<◌, ◌≡◌, ◌∙◌, refl, ap, true, false, some, List, [], ◌∷◌, ◌>>=◌, arith,
  map, leb, ◌||◌, length, take,
}
use nycu_osdi.Prelude.Int.{pos, eq_ℤ}
use nycu_osdi.Strings.{strcmp}
use nycu_osdi.Strings.Compare.{strcmp_self}
use nycu_osdi.Cpio.{
  ended, entry, trailer, visit, name_of, namesize_of, next_header, filesize_of, data_of, cpio_list,
  FileNode, initramfs_init,
}
use nycu_osdi.Cpio.Archive.{File, WellFormed, entry_bytes, archive}
use nycu_osdi.Cpio.Entries.{namesize_of_lem, name_of_lem, content_lem, next_header_lem, visit_lem}

-- The files of an archive: well-formed, with names other than the one that ends it.
abbrev pub Files : List File → Type 0
Files [] = Unit {0}
Files (f ∷ files) = WellFormed f × (eq_ℤ (strcmp f.name trailer) (pos 0) ≡ false) × Files files

-- The entry that ends the archive.
abbrev pub Last : File → Type 0
Last f = WellFormed f × (f.name ≡ trailer)

pub visit-entry :
    (f : File) (rest : List ℕ)
    → WellFormed f
    → eq_ℤ (strcmp f.name trailer) (pos 0) ≡ false
    → visit (entry_bytes f rest) ≡ entry
visit-entry f rest w ne = visit_lem f w rest ∙ (rw ne refl)

pub visit-ended : (f : File) (rest : List ℕ) → Last f → visit (entry_bytes f rest) ≡ ended
visit-ended f rest l =
    let same : eq_ℤ (strcmp f.name trailer) (pos 0) ≡ true =
      ap (λ n. eq_ℤ (strcmp n trailer) (pos 0)) l.1
      ∙ ap (λ e. eq_ℤ e (pos 0)) (strcmp_self trailer) in
    visit_lem f l.0 rest ∙ (rw same refl)

cpio_list-ended : (n : ℕ) (h : List ℕ) → visit h ≡ ended → cpio_list (suc n) h ≡ some []
unfolding cpio_list
cpio_list-ended n h e = rw (e, cpio_list) refl

cpio_list-entry :
    (n : ℕ) (h : List ℕ)
    → visit h ≡ entry
    → cpio_list (suc n) h ≡ (cpio_list n (next_header h) >>= λ names. some (name_of h ∷ names))
unfolding cpio_list
cpio_list-entry n h e = rw (e, cpio_list) refl

-- With more rounds than files, `cpio_list` ends, and prints the names of the files in order.
pub cpio_list-archive :
    (n : ℕ) (files : List File) (last : File) (rest : List ℕ)
    → length files < n
    → Files files
    → Last last
    → cpio_list n (archive files last rest) ≡ some (map (λ f. f.name) files)
cpio_list-archive zero files last rest lt w l = absurd (omega (arith, lt))
cpio_list-archive (suc n) [] last rest lt w l =
    cpio_list-ended n (entry_bytes last rest) (visit-ended last rest l)
cpio_list-archive (suc n) (f ∷ files) last rest lt w l =
    let more = archive files last rest in
    let h = entry_bytes f more in
    cpio_list-entry n h (visit-entry f more w.0 w.1)
    ∙ (ap (λ t. cpio_list n t >>= λ names. some (name_of h ∷ names)) (next_header_lem f w.0 more)
        ∙ (ap (λ r. r >>= λ names. some (name_of h ∷ names))
              (cpio_list-archive n files last rest (omega (arith, lt)) w.2 l)
            ∙ ap (λ x. some (x ∷ map (λ g. g.name) files)) (name_of_lem f w.0 more)))

-- The name, and the content, that a node has.
abbrev pub node_of : File → FileNode
node_of f = record { name = f.name; data_bytes = f.content }

initramfs_init-ended :
    (n k : ℕ) (h : List ℕ) → visit h ≡ ended → initramfs_init (suc n) k h ≡ some []
unfolding initramfs_init
initramfs_init-ended n k h e = rw (e, initramfs_init) refl

initramfs_init-entry :
    (n k : ℕ) (h : List ℕ)
    → visit h ≡ entry
    → (leb 64 (namesize_of h) || leb 16 k) ≡ false
    → initramfs_init (suc n) k h ≡ (
        initramfs_init n (k + 1) (next_header h) >>= λ nodes.
        some (record { name = name_of h; data_bytes = take (filesize_of h) (data_of h) } ∷ nodes))
unfolding initramfs_init
initramfs_init-entry n k h e fits = rw (e, fits, initramfs_init) refl

-- Names that fit into a node.
abbrev pub ShortNames : List File → Type 0
ShortNames [] = Unit {0}
ShortNames (f ∷ files) = (length f.name < 63) × ShortNames files

-- With more rounds than files, `initramfs_init` ends, and makes a node for each of at most 16 files,
-- in order, with its name and its content, if the names have fewer than 63 characters.
pub initramfs_init-archive :
    (n k : ℕ) (files : List File) (last : File) (rest : List ℕ)
    → length files < n
    → k + length files ≤ 16
    → Files files
    → ShortNames files
    → Last last
    → initramfs_init n k (archive files last rest) ≡ some (map node_of files)
initramfs_init-archive zero k files last rest lt room w s l = absurd (omega (arith, lt))
initramfs_init-archive (suc n) k [] last rest lt room w s l =
    initramfs_init-ended n k (entry_bytes last rest) (visit-ended last rest l)
initramfs_init-archive (suc n) k (f ∷ files) last rest lt room w s l =
    let more = archive files last rest in
    let h = entry_bytes f more in
    let fits : (leb 64 (namesize_of h) || leb 16 k) ≡ false =
      ground (arith, namesize_of_lem f w.0 more, s.0, room) in
    let node : FileNode = record {
      name = name_of h;
      data_bytes = take (filesize_of h) (data_of h);
    } in
    initramfs_init-entry n k h (visit-entry f more w.0 w.1) fits
    ∙ (ap (λ t. initramfs_init n (k + 1) t >>= λ nodes. some (node ∷ nodes))
          (next_header_lem f w.0 more)
        ∙ (ap (λ r. r >>= λ nodes. some (node ∷ nodes))
              (initramfs_init-archive n (k + 1) files last rest (omega (arith, lt))
                (omega (arith, room)) w.2 s.1 l)
            ∙ (ap
                  (λ x.
                    some (record { name = x; data_bytes = node.data_bytes } ∷ map node_of files))
                  (name_of_lem f w.0 more)
                ∙ ap (λ x. some (record { name = f.name; data_bytes = x } ∷ map node_of files))
                    (content_lem f w.0 more))))
