-- ===== src/Fdt/Addresses.antt =====
-- The addresses that `initramfs_callback` of src/devicetree.c finds in a device tree.
use nycu_osdi.Prelude.{
  ℕ, ◌^◌, ◌<◌, ◌≡◌, ◌∙◌, refl, false, Option, some, List, [], ◌∷◌, ◌++◌, arith, drop, map,
}
use nycu_osdi.Prelude.Int.{pos, eq_ℤ}
use nycu_osdi.Strings.{strcmp}
use nycu_osdi.Cpio.{c_string}
use nycu_osdi.Cpio.Archive.{padding}
use nycu_osdi.Fdt.{
  load_be, Call, called, Parsed, Initrd, initrd_start, initrd_end, or_null, name_read,
  initramfs_callback,
}
use nycu_osdi.Fdt.Blob.{Piece, begin, finish, prop, nop, WellFormed, be32, structure, AllWellFormed}
use nycu_osdi.Fdt.Walk.{load_be-be32, begin_call, finish_call, prop_call, next, walked}

-- A part of a tree: the address where the archive begins, the one where it ends, or another part.
pub data Part : Type 0 where
  start : ℕ → Part
  end : ℕ → Part
  other : Piece → Part

-- The addresses that are set last.
abbrev pub addresses : List Part → Initrd → Initrd
addresses [] s = s
addresses (start v ∷ parts) s = addresses parts (record s { cpio_addr = v })
addresses (end v ∷ parts) s = addresses parts (record s { cpio_end = v })
addresses (other p ∷ parts) s = addresses parts s

-- Neither of the two names.
abbrev pub Unrelated : List ℕ → Type 0
Unrelated name =
    (eq_ℤ (strcmp name initrd_start) (pos 0) ≡ false)
    × (eq_ℤ (strcmp name initrd_end) (pos 0) ≡ false)

module _ (at_start at_end : ℕ) where
  abbrev pub piece_of : Part → Piece
  piece_of (start v) = prop at_start (be32 v [])
  piece_of (end v) = prop at_end (be32 v [])
  piece_of (other p) = p

  -- The names of the two properties, where the tree has them.
  pub record Named (strings : List ℕ) : Type 0 where
    pub at_start-lt : at_start < 2 ^ 32
    pub at_end-lt : at_end < 2 ^ 32
    pub start_name : c_string (drop at_start strings) ≡ initrd_start
    pub end_name : c_string (drop at_end strings) ≡ initrd_end

module _ (low_memory strings : List ℕ) where
  -- A part whose call does not concern the archive.
  abbrev pub OtherPiece : Piece → Type 0
  OtherPiece (begin name) = Unrelated name
  OtherPiece finish = Unrelated (c_string low_memory)
  OtherPiece (prop nameoff content) = Unrelated (c_string (drop nameoff strings))
  OtherPiece nop = Unit {0}

  abbrev pub Parts : List Part → Type 0
  Parts [] = Unit {0}
  Parts (start v ∷ parts) = (v < 2 ^ 32) × Parts parts
  Parts (end v ∷ parts) = (v < 2 ^ 32) × Parts parts
  Parts (other p ∷ parts) = WellFormed p × OtherPiece p × Parts parts

module _ (low_memory strings : List ℕ) (at_start at_end : ℕ) where
  pub Parts-AllWellFormed :
      (parts : List Part)
      → Named at_start at_end strings
      → Parts low_memory strings parts
      → AllWellFormed (map (piece_of at_start at_end) parts)
  Parts-AllWellFormed [] m w = tt
  Parts-AllWellFormed (start v ∷ parts) m w =
      ((m.at_start-lt, omega arith), Parts-AllWellFormed parts m w.1)
  Parts-AllWellFormed (end v ∷ parts) m w =
      ((m.at_end-lt, omega arith), Parts-AllWellFormed parts m w.1)
  Parts-AllWellFormed (other p ∷ parts) m w = (w.0, Parts-AllWellFormed parts m w.2)

  callback_other :
      (c : Call) (s : Initrd)
      → Unrelated (name_read low_memory c)
      → called (some (initramfs_callback low_memory)) c s ≡ some (false, s)
  unfolding called initramfs_callback
  callback_other c s u = rw (u.0, u.1) refl

  callback_start :
      (c : Call) (s : Initrd) (v : ℕ)
      → name_read low_memory c ≡ initrd_start
      → load_be (or_null low_memory c.payload) ≡ some v
      → called (some (initramfs_callback low_memory)) c s ≡ some (false, record s { cpio_addr = v })
  unfolding called initramfs_callback strcmp
  callback_start c s v name at = rw (name, at) refl

  callback_end :
      (c : Call) (s : Initrd) (v : ℕ)
      → name_read low_memory c ≡ initrd_end
      → load_be (or_null low_memory c.payload) ≡ some v
      → called (some (initramfs_callback low_memory)) c s ≡ some (false, record s { cpio_end = v })
  unfolding called initramfs_callback strcmp
  callback_end c s v name at = rw (name, at) refl

  next_ok :
      (c : Call) (rest : List ℕ) (s s' : Initrd) (walk : Initrd → Option (Parsed Initrd))
      → called (some (initramfs_callback low_memory)) c s ≡ some (false, s')
      → next (some (initramfs_callback low_memory)) c rest s walk ≡ walk s'
  next_ok c rest s s' walk e = rw e refl

  walked_other :
      (p : Piece) (ps : List Piece) (rest : List ℕ) (s : Initrd)
      → OtherPiece low_memory strings p
      → walked strings (some (initramfs_callback low_memory)) (p ∷ ps) rest s
        ≡ walked strings (some (initramfs_callback low_memory)) ps rest s
  walked_other (begin name) ps rest s u =
      next_ok (begin_call name) (structure ps rest) s s
        (walked strings (some (initramfs_callback low_memory)) ps rest)
        (callback_other (begin_call name) s (unfold name_read in u))
  walked_other finish ps rest s u =
      next_ok finish_call (structure ps rest) s s
        (walked strings (some (initramfs_callback low_memory)) ps rest)
        (callback_other finish_call s (unfold name_read in u))
  walked_other (prop nameoff content) ps rest s u =
      let c = prop_call strings nameoff content (structure ps rest) in
      next_ok c (structure ps rest) s s
        (walked strings (some (initramfs_callback low_memory)) ps rest)
        (callback_other c s (unfold name_read in u))
  walked_other nop ps rest s u = refl

  -- The walk sets the addresses.
  pub walked-Parts :
      (parts : List Part) (rest : List ℕ) (s : Initrd)
      → Named at_start at_end strings
      → Parts low_memory strings parts
      → walked strings
          (some (initramfs_callback low_memory))
          (map (piece_of at_start at_end) parts)
          rest
          s
        ≡ some (record { result = pos 0; ptr = rest; state = addresses parts s })
  walked-Parts [] rest s m w = refl
  walked-Parts (start v ∷ parts) rest s m w =
      let ps = map (piece_of at_start at_end) parts in
      let c = prop_call strings at_start (be32 v []) (structure ps rest) in
      next_ok c (structure ps rest) s (record s { cpio_addr = v })
        (walked strings (some (initramfs_callback low_memory)) ps rest)
        (callback_start c s v (unfold name_read in m.start_name)
          (load_be-be32 v (padding 4 ++ structure ps rest) w.0))
      ∙ walked-Parts parts rest (record s { cpio_addr = v }) m w.1
  walked-Parts (end v ∷ parts) rest s m w =
      let ps = map (piece_of at_start at_end) parts in
      let c = prop_call strings at_end (be32 v []) (structure ps rest) in
      next_ok c (structure ps rest) s (record s { cpio_end = v })
        (walked strings (some (initramfs_callback low_memory)) ps rest)
        (callback_end c s v (unfold name_read in m.end_name)
          (load_be-be32 v (padding 4 ++ structure ps rest) w.0))
      ∙ walked-Parts parts rest (record s { cpio_end = v }) m w.1
  walked-Parts (other p ∷ parts) rest s m w =
      walked_other p (map (piece_of at_start at_end) parts) rest s w.1
      ∙ walked-Parts parts rest s m w.2
