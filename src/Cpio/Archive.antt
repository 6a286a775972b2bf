-- ===== src/Cpio/Archive.antt =====
-- The archives that src/cpio.c reads, as a program for archives writes them.
use nycu_osdi.Prelude.{ℕ, zero, suc, ◌+◌, ◌-◌, ◌^◌, ◌<◌, ◌≡◌, List, [], ◌∷◌, ◌++◌, length}
use nycu_osdi.Strings.Compare.{IsString}
use nycu_osdi.Numbers.{uart_hex}
use nycu_osdi.Cpio.{align, magic}

-- A file: the fields from c_ino to c_mtime, those from c_devmajor to c_rdevminor, c_check, the name
-- and the content.
pub record File : Type 0 where
  pub ids : List ℕ
  pub devices : List ℕ
  pub check : List ℕ
  pub name : List ℕ
  pub content : List ℕ

pub record WellFormed (f : File) : Type 0 where
  pub ids : length f.ids ≡ 48
  pub devices : length f.devices ≡ 32
  pub check : length f.check ≡ 8
  pub name : IsString f.name
  pub short : length f.name < 256
  pub small : length f.content < 2 ^ 31

abbrev pub zeros : ℕ → List ℕ
zeros zero = []
zeros (suc n) = 0 ∷ zeros n

-- Up to the next multiple of four.
abbrev pub padding : ℕ → List ℕ
padding n = zeros (align n 4 - n)

-- The header, the name with its NUL, and the content, each padded, in front of other bytes.
abbrev pub name_part : File → List ℕ → List ℕ
name_part f rest =
    f.name
    ++ (0
        ∷ (padding (110 + (length f.name + 1))
            ++ (f.content ++ (padding (length f.content) ++ rest))))

abbrev pub entry_bytes : File → List ℕ → List ℕ
entry_bytes f rest =
    magic
    ++ (f.ids
        ++ (uart_hex (length f.content)
            ++ (f.devices ++ (uart_hex (length f.name + 1) ++ (f.check ++ name_part f rest)))))

-- The files, and an entry with the name that ends the archive.
abbrev pub archive : List File → (last : File) → (rest : List ℕ) → List ℕ
archive [] last rest = entry_bytes last rest
archive (f ∷ files) last rest = entry_bytes f (archive files last rest)
