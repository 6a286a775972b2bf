-- ===== src/Cpio/Lookup.antt =====
-- What `cpio_cat` of src/cpio.c finds in an archive.
use nycu_osdi.Prelude.{
  ℕ, zero, suc, ◌<◌, ◌≡◌, ◌∙◌, refl, ap, Bool, true, false, Option, none, some, List, [], ◌∷◌,
  arith, length, take, if◌then◌else◌,
}
use nycu_osdi.Prelude.Int.{pos, eq_ℤ}
use nycu_osdi.Strings.{strcmp}
use nycu_osdi.Cpio.{
  ended, entry, visit, name_of, next_header, filesize_of, data_of, cpio_cat, cpio_cat,
}
use nycu_osdi.Cpio.Archive.{File, entry_bytes, archive}
use nycu_osdi.Cpio.Entries.{name_of_lem, content_lem, next_header_lem}
use nycu_osdi.Cpio.Walks.{Files, Last, visit-entry, visit-ended}

-- The content of the first file with this name.
abbrev pub content_of : List ℕ → List File → Option (List ℕ)
content_of target [] = none
content_of target (f ∷ files) =
    if eq_ℤ (strcmp f.name target) (pos 0) then some f.content else content_of target files

some_if :
    (b : Bool) (x : List ℕ) (o : Option (List ℕ))
    → (if b then some (some x) else some o) ≡ some (if b then some x else o)
some_if true x o = refl
some_if false x o = refl

cpio_cat-ended :
    (n : ℕ) (target h : List ℕ) → visit h ≡ ended → cpio_cat (suc n) target h ≡ some none
unfolding cpio_cat
cpio_cat-ended n target h e = rw (e, cpio_cat) refl

cpio_cat-entry :
    (n : ℕ) (target h : List ℕ)
    → visit h ≡ entry
    → cpio_cat (suc n) target h ≡ (
        if eq_ℤ (strcmp (name_of h) target) (pos 0)
        then some (some (take (filesize_of h) (data_of h)))
        else cpio_cat n target (next_header h))
unfolding cpio_cat
cpio_cat-entry n target h e = rw (e, cpio_cat) refl

-- With more rounds than files, `cpio_cat` ends, and prints the content of the first file with the
-- name, if there is one.
pub cpio_cat-archive :
    (n : ℕ) (target : List ℕ) (files : List File) (last : File) (rest : List ℕ)
    → length files < n
    → Files files
    → Last last
    → cpio_cat n target (archive files last rest) ≡ some (content_of target files)
cpio_cat-archive zero target files last rest lt w l = absurd (omega (arith, lt))
cpio_cat-archive (suc n) target [] last rest lt w l =
    cpio_cat-ended n target (entry_bytes last rest) (visit-ended last rest l)
cpio_cat-archive (suc n) target (f ∷ files) last rest lt w l =
    let more = archive files last rest in
    let h = entry_bytes f more in
    cpio_cat-entry n target h (visit-entry f more w.0 w.1)
    ∙ (ap
          (λ x.
            if eq_ℤ (strcmp x target) (pos 0)
            then some (some (take (filesize_of h) (data_of h)))
            else cpio_cat n target (next_header h))
          (name_of_lem f w.0 more)
        ∙ (ap
              (λ x.
                if eq_ℤ (strcmp f.name target) (pos 0)
                then some (some x)
                else cpio_cat n target (next_header h))
              (content_lem f w.0 more)
            ∙ (ap (λ x. if eq_ℤ (strcmp f.name target) (pos 0) then some (some f.content) else x)
                  (ap (cpio_cat n target) (next_header_lem f w.0 more)
                    ∙ cpio_cat-archive n target files last rest (omega (arith, lt)) w.2 l)
                ∙ some_if (eq_ℤ (strcmp f.name target) (pos 0)) f.content
                    (content_of target files))))
