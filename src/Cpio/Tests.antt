-- ===== src/Cpio/Tests.antt =====
-- A small archive for src/cpio.c.
use nycu_osdi.Prelude.{◌≡◌, refl, some, [], ◌∷◌, arith}
use nycu_osdi.Strings.{strcmp}
use nycu_osdi.Cpio.{align, cpio_list, cpio_cat, initramfs_init, trailer}
use nycu_osdi.Cpio.Archive.{File, WellFormed, archive, zeros}
use nycu_osdi.Cpio.Lookup.{content_of, cpio_cat-archive}
use nycu_osdi.Cpio.Walks.{Files, node_of, cpio_list-archive, initramfs_init-archive}

aligned : align 113 4 ≡ 116
unfolding align
aligned = refl

-- The file "a" with three bytes, and the end of the archive.
abbrev small_file : File
small_file = record {
  ids = zeros 48;
  devices = zeros 32;
  check = zeros 8;
  name = 97 ∷ [];
  content = 1 ∷ 2 ∷ 3 ∷ [];
}

abbrev last_file : File
last_file = record {
  ids = zeros 48;
  devices = zeros 32;
  check = zeros 8;
  name = trailer;
  content = [];
}

small_file-WellFormed : WellFormed small_file
small_file-WellFormed = record {
  ids = refl;
  devices = refl;
  check = refl;
  name = (ground arith, tt);
  short = omega arith;
  small = omega arith;
}

last_file-WellFormed : WellFormed last_file
last_file-WellFormed = record {
  ids = refl;
  devices = refl;
  check = refl;
  name = (
    ground arith,
    (
      ground arith,
      (
        ground arith,
        (
          ground arith,
          (
            ground arith,
            (ground arith, (ground arith, (ground arith, (ground arith, (ground arith, tt))))),
          ),
        ),
      ),
    ),
  );
  short = omega arith;
  small = omega arith;
}

one-Files : Files (small_file ∷ [])
unfolding strcmp
one-Files = (small_file-WellFormed, refl, tt)

cpio_list-archive_example :
    cpio_list 2 (archive (small_file ∷ []) last_file []) ≡ some ((97 ∷ []) ∷ [])
cpio_list-archive_example =
    cpio_list-archive 2 (small_file ∷ []) last_file [] (omega arith) one-Files
      (last_file-WellFormed, refl)

initramfs_init-archive_example :
    initramfs_init 2 0 (archive (small_file ∷ []) last_file []) ≡ some (node_of small_file ∷ [])
initramfs_init-archive_example =
    initramfs_init-archive 2 0 (small_file ∷ []) last_file [] (omega arith) (omega arith) one-Files
      (omega arith, tt) (last_file-WellFormed, refl)

cpio_cat-archive_example :
    cpio_cat 2 (97 ∷ []) (archive (small_file ∷ []) last_file [])
    ≡ some (content_of (97 ∷ []) (small_file ∷ []))
cpio_cat-archive_example =
    cpio_cat-archive 2 (97 ∷ []) (small_file ∷ []) last_file [] (omega arith) one-Files
      (last_file-WellFormed, refl)
