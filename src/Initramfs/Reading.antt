-- ===== src/Initramfs/Reading.antt =====
-- src/fs_initramfs.c: reading a file to its end.
use nycu_osdi.Prelude.{
  ℕ, ◌+◌, ◌-◌, ◌≤◌, ◌<◌, ◌≡◌, refl, false, some, arith, ◌==◌, leb, ltb, add-zero, Bool-cases, inl,
  inr,
}
use nycu_osdi.Prelude.Int.{pos}
use nycu_osdi.Initramfs.{Initramfs, regular, OpenFile, node_at, copy_out, read_at, initramfs_read}

-- An open file at the node `d`, with its position in the file.
pub record Readable (f : OpenFile) (fs : Initramfs) (d : ℕ) : Type 0 where
  pub at : node_at f.vnode fs ≡ some d
  pub kind : (fs.nodes d).kind ≡ regular
  pub inside : f.f_pos ≤ (fs.nodes d).size

-- A read of at least one byte gives the next bytes of the file, and moves the position behind them:
-- as many as asked for, or those up to the end.
pub initramfs_read_lem :
    (len : ℕ) (f : OpenFile) (fs : Initramfs) (d : ℕ)
    → Readable f fs d
    → 0 < len
    → (n : ℕ) × (initramfs_read len f fs
        ≡ (pos n, (copy_out (fs.nodes d).content f.f_pos n, record f { f_pos = f.f_pos + n })))
      × (n ≤ len)
      × (f.f_pos + n ≤ (fs.nodes d).size)
      × (n < len → f.f_pos + n ≡ (fs.nodes d).size)
unfolding initramfs_read read_at
initramfs_read_lem len f fs d o some_bytes =
    let not_empty : (len == 0) ≡ false = ground arith in
    elim (Bool-cases (leb (fs.nodes d).size f.f_pos)) [
      | inl at_end ↦ (
        0,
        rw (add-zero f.f_pos) (rw (o.at, read_at) (rw (not_empty, o.kind, at_end) refl)),
        omega arith,
        omega (arith, o.inside),
        λ lt. ground (arith, o.inside),
      )
      | inr more ↦ elim (Bool-cases (ltb (fs.nodes d).size (f.f_pos + len))) [
        | inl short ↦ (
          (fs.nodes d).size - f.f_pos,
          rw (o.at, read_at) (rw (not_empty, o.kind, more, short) refl),
          ground arith,
          omega (arith, o.inside),
          λ lt. omega (arith, o.inside),
        )
        | inr long ↦ (
          len,
          rw (o.at, read_at) (rw (not_empty, o.kind, more, long) refl),
          omega arith,
          ground arith,
          λ lt. absurd (omega (arith, lt)),
        )
      ]
    ]
