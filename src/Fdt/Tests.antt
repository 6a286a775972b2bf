-- ===== src/Fdt/Tests.antt =====
-- A concrete device tree for src/devicetree.c: a root node with a NOP and the two properties.
use nycu_osdi.Prelude.{ℕ, ◌≡◌, refl, Option, none, some, List, [], ◌∷◌, ◌++◌, map, arith, ◌>>=◌}
use nycu_osdi.Prelude.Int.{pos}
use nycu_osdi.Strings.{strcmp}
use nycu_osdi.Strings.Compare.{IsString}
use nycu_osdi.Cpio.{c_string, align}
use nycu_osdi.Fdt.{
  Fdt, Callback, called, fdt_init, fdt_traverse, fdt_parse_node, initrd_start, initrd_end,
  initramfs_callback,
}
use nycu_osdi.Fdt.Blob.{begin, finish, nop, prop, structure}
use nycu_osdi.Fdt.Addresses.{Part, start, end, other, piece_of}
use nycu_osdi.Fdt.Startup.{Header, header_bytes, fdt_traverse-addresses}
use nycu_osdi.Fdt.Walk.{fdt_parse_node-structure}

-- "chosen"
abbrev chosen : List ℕ
chosen = 99 ∷ 104 ∷ 111 ∷ 115 ∷ 101 ∷ 110 ∷ []

chosen_string : IsString chosen
chosen_string = omega arith

-- "linux,initrd-end" is at 0 and "linux,initrd-start" at 17.
abbrev names : List ℕ
names = initrd_end ++ (0 ∷ (initrd_start ++ (0 ∷ [])))

abbrev parts : List Part
parts =
    other (begin [])
    ∷ other nop
    ∷ other (begin chosen)
    ∷ start 0x8000000
    ∷ end 0x8001000
    ∷ other finish
    ∷ other finish
    ∷ []

abbrev header : Header
header = record {
  totalsize = 200;
  off_dt_struct = 76;
  off_dt_strings = 40;
  off_mem_rsvmap = 0;
  version = 17;
  last_comp_version = 16;
  boot_cpuid_phys = 0;
  size_dt_strings = 36;
  size_dt_struct = 100;
}

abbrev body : List ℕ
body = names ++ structure (map (piece_of 17 0) parts) []

abbrev at_boot : Fdt
at_boot = record {
  base = none;
  strings = [];
  structure = none;
  total_size = 0;
  strings_size = 0;
  structure_size = 0;
}

fdt_traverse-addresses_example :
    (fdt_init (some (header_bytes header body)) at_boot >>= λ r.
    fdt_traverse 8
      (some (initramfs_callback (0 ∷ [])))
      r.1
      (record { cpio_addr = 0; cpio_end = 0 }))
    ≡ some (pos 0, record { cpio_addr = 0x8000000; cpio_end = 0x8001000 })
unfolding align c_string strcmp
fdt_traverse-addresses_example =
    fdt_traverse-addresses 8 header body (0 ∷ []) [] 17 0 parts at_boot
      (record { cpio_addr = 0; cpio_end = 0 }) (omega arith) (omega arith)
      (record {
        at_start-lt = omega arith;
        at_end-lt = omega arith;
        start_name = refl;
        end_name = refl;
      })
      (
        (tt, omega arith),
        (refl, refl),
        (
          tt,
          tt,
          (
            (chosen_string, omega arith),
            (refl, refl),
            (omega arith, (omega arith, (tt, (refl, refl), (tt, (refl, refl), tt)))),
          ),
        ),
      )
      refl

abbrev no_callback : Option (Callback (Unit {0}))
no_callback = none

-- Without a callback the tree is passed.
fdt_parse_node-structure_example :
    fdt_parse_node 4 names no_callback
      (structure (begin chosen ∷ prop 0 (1 ∷ []) ∷ finish ∷ []) (7 ∷ []))
      tt
    ≡ some (record { result = pos 0; ptr = 7 ∷ []; state = tt })
unfolding called
fdt_parse_node-structure_example =
    fdt_parse_node-structure names no_callback 4 (begin chosen ∷ prop 0 (1 ∷ []) ∷ finish ∷ [])
      (7 ∷ []) tt (omega arith)
      ((chosen_string, omega arith), ((omega arith, omega arith), (tt, tt)))
