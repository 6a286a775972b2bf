-- ===== src/Fdt/Startup.antt =====
-- src/devicetree.c as the kernel starts: `fdt_init`, then `fdt_traverse` with the callback.
use nycu_osdi.Prelude.{
  ℕ, suc, ◌^◌, ◌<◌, ◌≡◌, ◌∙◌, refl, ap, Option, some, List, [], ◌∷◌, arith, length, drop, map,
  ◌>>=◌,
}
use nycu_osdi.Prelude.Int.{pos, ℤ}
use nycu_osdi.Numbers.{be2le_u32}
use nycu_osdi.Fdt.{
  load_u32, Callback, Parsed, fdt_parse_node, Fdt, take_header, fdt_init, traverse_from,
  fdt_traverse, Initrd, initramfs_callback,
}
use nycu_osdi.Fdt.Blob.{Piece, be32, structure}
use nycu_osdi.Fdt.Walk.{load_be-be32, fdt_parse_node-structure}
use nycu_osdi.Fdt.Addresses.{
  Part, addresses, piece_of, Named, Parts, walked-Parts, Parts-AllWellFormed,
}

length-map : (f : Part → Piece) (parts : List Part) → length (map f parts) ≡ length parts
length-map f [] = refl
length-map f (p ∷ parts) = ap suc (length-map f parts)

-- The words of a header, in front of the other bytes.
pub record Header : Type 0 where
  pub totalsize : ℕ
  pub off_dt_struct : ℕ
  pub off_dt_strings : ℕ
  pub off_mem_rsvmap : ℕ
  pub version : ℕ
  pub last_comp_version : ℕ
  pub boot_cpuid_phys : ℕ
  pub size_dt_strings : ℕ
  pub size_dt_struct : ℕ

abbrev pub header_bytes : Header → List ℕ → List ℕ
header_bytes h body = be32 0xd00dfeed (
    be32 h.totalsize (
      be32 h.off_dt_struct (
        be32 h.off_dt_strings (
          be32 h.off_mem_rsvmap (
            be32 h.version (
              be32 h.last_comp_version
                (be32 h.boot_cpuid_phys (be32 h.size_dt_strings (be32 h.size_dt_struct body)))))))))

abbrev pub Small : Header → Type 0
Small h =
    (h.totalsize < 2 ^ 32)
    × (h.off_dt_struct < 2 ^ 32)
    × (h.off_dt_strings < 2 ^ 32)
    × (h.size_dt_strings < 2 ^ 32)
    × (h.size_dt_struct < 2 ^ 32)

-- What `fdt_init` keeps of a header; the total size has its bytes in the other order.
abbrev pub opened : Header → List ℕ → Fdt
opened h body =
    let b = header_bytes h body in
    record {
      base = some b;
      strings = drop h.off_dt_strings b;
      structure = some (drop h.off_dt_struct b);
      total_size = be2le_u32 h.totalsize;
      strings_size = h.size_dt_strings;
      structure_size = h.size_dt_struct;
    }

load_u32-be32 : (v : ℕ) (rest : List ℕ) → v < 2 ^ 32 → load_u32 (be32 v rest) ≡ some (be2le_u32 v)
unfolding load_u32 be2le_u32
load_u32-be32 v rest h = ap some (omega (arith, h))

pub fdt_init_lem :
    (h : Header) (body : List ℕ) (s : Fdt)
    → Small h
    → fdt_init (some (header_bytes h body)) s ≡ some (pos 0, opened h body)
unfolding fdt_init take_header
fdt_init_lem h body s small =
    rw
      (
        load_be-be32 0xd00dfeed _ (omega arith),
        load_u32-be32 h.totalsize _ small.0,
        load_be-be32 h.off_dt_struct _ small.1,
        load_be-be32 h.off_dt_strings _ small.2,
        load_be-be32 h.size_dt_strings _ small.3,
        load_be-be32 h.size_dt_struct _ small.4,
      )
      refl

abbrev finished : Option (Parsed Initrd) → Option (ℤ × Initrd)
finished o = o >>= λ r. some (r.result, r.state)

fdt_traverse-opened :
    (n : ℕ) (callback : Option (Callback Initrd)) (h : Header) (body : List ℕ) (s : Initrd)
    → fdt_traverse n callback (opened h body) s
      ≡ finished (
          fdt_parse_node n
            (drop h.off_dt_strings (header_bytes h body))
            callback
            (drop h.off_dt_struct (header_bytes h body))
            s)
unfolding fdt_traverse traverse_from
fdt_traverse-opened n callback h body s = refl

-- For a device tree in memory, `fdt_init` and then `fdt_traverse` with `initramfs_callback`, with
-- more rounds than the tree has parts, succeed, and set `cpio_addr` and `cpio_end` to the addresses
-- that the properties "linux,initrd-start" and "linux,initrd-end" give last. Both names are in the table
-- of strings, and the string at address 0, which the callback reads for the end of a node, is neither.
pub fdt_traverse-addresses :
    (n : ℕ) (h : Header) (body low_memory rest : List ℕ) (at_start at_end : ℕ) (parts : List Part)
    (f : Fdt) (s : Initrd)
    → length parts < n
    → Small h
    → Named at_start at_end (drop h.off_dt_strings (header_bytes h body))
    → Parts low_memory (drop h.off_dt_strings (header_bytes h body)) parts
    → drop h.off_dt_struct (header_bytes h body)
      ≡ structure (map (piece_of at_start at_end) parts) rest
    → (fdt_init (some (header_bytes h body)) f >>= λ r.
        fdt_traverse n (some (initramfs_callback low_memory)) r.1 s)
      ≡ some (pos 0, addresses parts s)
fdt_traverse-addresses n h body low_memory rest at_start at_end parts f s lt small m w e =
    let strings = drop h.off_dt_strings (header_bytes h body) in
    let callback = some (initramfs_callback low_memory) in
    let pieces = map (piece_of at_start at_end) parts in
    ap (λ o. o >>= λ r. fdt_traverse n callback r.1 s) (fdt_init_lem h body f small)
    ∙ fdt_traverse-opened n callback h body s
    ∙ ap (λ p. finished (fdt_parse_node n strings callback p s)) e
    ∙ ap finished (
        fdt_parse_node-structure strings callback n pieces rest s
          (omega (arith, lt, length-map (piece_of at_start at_end) parts))
          (Parts-AllWellFormed low_memory strings at_start at_end parts m w))
    ∙ ap finished (walked-Parts low_memory strings at_start at_end parts rest s m w)
