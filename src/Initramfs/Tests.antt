-- ===== src/Initramfs/Tests.antt =====
-- A concrete file of src/fs_initramfs.c.
use nycu_osdi.Prelude.{refl, true, some, [], ◌∷◌, arith}
use nycu_osdi.Initramfs.{Initramfs, regular, OpenFile}
use nycu_osdi.Initramfs.Reading.{Readable}

abbrev three_bytes : Initramfs
three_bytes = record {
  nodes = λ i. record { name = 97 ∷ []; kind = regular; content = λ j. j; size = 3; children = [] };
  internal = λ i. some i;
}

abbrev at_one : OpenFile
at_one = record { vnode = some 4; f_pos = 1; has_ops = true; flags = 0 }

at_one-Readable : Readable at_one three_bytes 4
at_one-Readable = record { at = refl; kind = refl; inside = omega arith }
