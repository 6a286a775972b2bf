-- ===== src/Fdt/Blob.antt =====
-- The device trees that src/devicetree.c reads, as a compiler of device trees writes them.
use nycu_osdi.Prelude.{ℕ, ◌+◌, ◌/◌, ◌%◌, ◌^◌, ◌<◌, List, [], ◌∷◌, ◌++◌, length}
use nycu_osdi.Strings.Compare.{IsString}
use nycu_osdi.Cpio.Archive.{padding}

-- The begin and the end of a node, a property by the place of its name and its content, or nothing.
pub data Piece : Type 0 where
  begin : List ℕ → Piece
  finish : Piece
  prop : ℕ → List ℕ → Piece
  nop : Piece

abbrev pub WellFormed : Piece → Type 0
WellFormed (begin name) = IsString name × (length name < 2 ^ 31)
WellFormed finish = Unit {0}
WellFormed (prop nameoff content) = (nameoff < 2 ^ 32) × (length content < 2 ^ 31)
WellFormed nop = Unit {0}

-- A number in front of other bytes, the high byte first.
abbrev pub be32 : ℕ → List ℕ → List ℕ
be32 v rest = v / 2 ^ 24 % 2 ^ 8 ∷ v / 2 ^ 16 % 2 ^ 8 ∷ v / 2 ^ 8 % 2 ^ 8 ∷ v % 2 ^ 8 ∷ rest

abbrev pub piece_bytes : Piece → List ℕ → List ℕ
piece_bytes (begin name) rest = be32 1 (name ++ (0 ∷ (padding (length name + 1) ++ rest)))
piece_bytes finish rest = be32 2 rest
piece_bytes (prop nameoff content) rest =
    be32 3 (be32 (length content) (be32 nameoff (content ++ (padding (length content) ++ rest))))
piece_bytes nop rest = be32 4 rest

-- The pieces, and the token that ends the structure.
abbrev pub structure : List Piece → List ℕ → List ℕ
structure [] rest = be32 9 rest
structure (p ∷ ps) rest = piece_bytes p (structure ps rest)

abbrev pub AllWellFormed : List Piece → Type 0
AllWellFormed [] = Unit {0}
AllWellFormed (p ∷ ps) = WellFormed p × AllWellFormed ps
