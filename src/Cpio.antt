-- ===== src/Cpio.antt =====
-- src/cpio.c: the walk through an archive in memory, and `initramfs_init` of src/fs_initramfs.c,
-- which makes the files of the archive.
--
-- A header pointer is the list of the bytes from there on, and a step of the pointer drops bytes.
-- The results are what is printed or made; none is an array that is written behind its end, or
-- rounds that do not suffice.
pub mod Archive
pub mod Entries
pub mod Lookup
pub mod Walks
mod Tests
use nycu_osdi.Prelude.{
  ℕ, zero, suc, ◌+◌, ◌-◌, ◌%◌, ◌^◌, ◌||◌, true, false, Option, none, some, List, [], ◌∷◌, ◌==◌, ltb,
  leb, take, drop, if◌then◌else◌, ◌>>=◌,
}
use nycu_osdi.Prelude.Int.{pos, eq_ℤ}
use nycu_osdi.Strings.{strcmp}
use nycu_osdi.Numbers.{hex_to_uint}

-- `align`, for a power of two: the mask takes the remainder away.
unfoldable pub align : (n alignment : ℕ) → ℕ
align n alignment = let m = (n + alignment - 1) % 2 ^ 32 in m - m % alignment

abbrev pub header_size : ℕ
header_size = 110

-- "070701"
abbrev pub magic : List ℕ
magic = 48 ∷ 55 ∷ 48 ∷ 55 ∷ 48 ∷ 49 ∷ []

-- "TRAILER!!!"
abbrev pub trailer : List ℕ
trailer = 84 ∷ 82 ∷ 65 ∷ 73 ∷ 76 ∷ 69 ∷ 82 ∷ 33 ∷ 33 ∷ 33 ∷ []

-- The string at the head of some bytes.
unfoldable pub c_string : List ℕ → List ℕ
c_string [] = []
c_string (c ∷ bytes) = let rest = c_string bytes in if c == 0 then [] else c ∷ rest

-- `header->c_filesize`, `header->c_namesize`, and `filename`.
abbrev pub filesize_of : List ℕ → ℕ
filesize_of header = hex_to_uint (take 8 (drop 54 header))

abbrev pub namesize_of : List ℕ → ℕ
namesize_of header = hex_to_uint (take 8 (drop 94 header))

abbrev pub name_of : List ℕ → List ℕ
name_of header = c_string (take (namesize_of header) (drop header_size header))

-- `(char *)header + align(HEADER_SIZE + filenamesize, 4)`, and the next header.
abbrev pub data_of : List ℕ → List ℕ
data_of header = drop (align (header_size + namesize_of header) 4) header

abbrev pub next_header : List ℕ → List ℕ
next_header header =
    drop
      (header_size
        + (align (header_size + namesize_of header) 4 - header_size)
        + align (filesize_of header) 4)
      header

-- What a round of the loops meets. The arrays of the magic number have no NUL behind them; the
-- comparison is that of six characters.
pub data Visit : Type 0 where
  invalid : Visit
  overrun : Visit
  ended : Visit
  entry : Visit

unfoldable pub visit : List ℕ → Visit
visit header =
    if eq_ℤ (strcmp magic (take 6 header)) (pos 0)
    then (if ltb 256 (namesize_of header)
        then overrun
        else if eq_ℤ (strcmp (name_of header) trailer) (pos 0)
        then ended
        else entry)
    else invalid

-- The names that it prints.
unfoldable pub cpio_list : (rounds : ℕ) → List ℕ → Option (List (List ℕ))
cpio_list zero header = none
cpio_list (suc n) header = elim (visit header) [
  | invalid ↦ some []
  | overrun ↦ none
  | ended ↦ some []
  | entry ↦ (cpio_list n (next_header header) >>= λ names. some (name_of header ∷ names))
]

-- The content that it prints, none inside for a file that is not there.
unfoldable pub cpio_cat : (rounds : ℕ) → (target_file : List ℕ) → List ℕ → Option (Option (List ℕ))
cpio_cat zero target_file header = none
cpio_cat (suc n) target_file header = elim (visit header) [
  | invalid ↦ some none
  | overrun ↦ none
  | ended ↦ some none
  | entry ↦
      let rest = cpio_cat n target_file (next_header header) in
      if eq_ℤ (strcmp (name_of header) target_file) (pos 0)
      then some (some (take (filesize_of header) (data_of header)))
      else rest
]

-- The bytes that it copies to `exec_addr`, at the address returned; without the file it ends
-- without a return value.
unfoldable pub cpio_get_exec : (rounds : ℕ) → (target_file : List ℕ) → List ℕ → Option (List ℕ)
cpio_get_exec zero target_file header = none
cpio_get_exec (suc n) target_file header = elim (visit header) [
  | invalid ↦ none
  | overrun ↦ none
  | ended ↦ none
  | entry ↦
      let rest = cpio_get_exec n target_file (next_header header) in
      if eq_ℤ (strcmp (name_of header) target_file) (pos 0)
      then some (take (filesize_of header) (data_of header))
      else rest
]

unfoldable pub cpio_get_file_size : (rounds : ℕ) → (target_file : List ℕ) → List ℕ → Option ℕ
cpio_get_file_size zero target_file header = none
cpio_get_file_size (suc n) target_file header = elim (visit header) [
  | invalid ↦ some 0
  | overrun ↦ none
  | ended ↦ some 0
  | entry ↦
      let rest = cpio_get_file_size n target_file (next_header header) in
      if eq_ℤ (strcmp (name_of header) target_file) (pos 0) then some (filesize_of header) else rest
]

-- A node that `initramfs_init` makes: its name and its content.
pub record FileNode : Type 0 where
  pub name : List ℕ
  pub data_bytes : List ℕ

-- `initramfs_init` with memory for what it makes, by the number of children that there are: a name
-- has MAX_FILE_NAME bytes, NUL and the one written behind included, and a directory MAX_CHILDREN
-- entries.
unfoldable pub initramfs_init : (rounds num_children : ℕ) → List ℕ → Option (List FileNode)
initramfs_init zero num_children header = none
initramfs_init (suc n) num_children header = elim (visit header) [
  | invalid ↦ some []
  | overrun ↦ none
  | ended ↦ some []
  | entry ↦
      let rest = initramfs_init n (num_children + 1) (next_header header) in
      if leb 64 (namesize_of header) || leb 16 num_children
      then none
      else (rest >>= λ nodes. some (
          record { name = name_of header; data_bytes = take (filesize_of header) (data_of header) }
          ∷ nodes))
]
