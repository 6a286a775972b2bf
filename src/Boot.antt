-- ===== src/Boot.antt =====
-- bootloader/src/load.c: the boot loader takes a kernel from the serial line; and send_kernel.py, which
-- sends it.
--
-- The line is the list of the characters that come, from 0 to 255. A result none is a wait for a
-- character that does not come, or the overflow of an int, which is undefined in C. What the boot loader
-- prints is left out.
pub mod Load
mod Tests
use nycu_osdi.Prelude.{
  ℕ, zero, suc, ◌+◌, ◌*◌, ◌/◌, ◌%◌, ◌^◌, Bool, true, false, Option, none, some, List, [], ◌∷◌, ◌++◌,
  ◌==◌, ltb, length, if◌then◌else◌, update, ◌>>=◌,
}

unfoldable pub uart_getc : List ℕ → Option (ℕ × List ℕ)
uart_getc [] = none
uart_getc (c ∷ line) = some (c, line)

-- The loop over the characters of `magic`: are they those that come?
unfoldable pub read_magic : List ℕ → List ℕ → Option (Bool × List ℕ)
read_magic [] line = some (true, line)
read_magic (m ∷ magic) [] = none
read_magic (m ∷ magic) (c ∷ line) =
    let rest = read_magic magic line in if c == m then rest else some (false, line)

-- `word |= uart_getc() << (i * 8)` for the `n` values of i from `i` on; `|` of parts without a common
-- bit is their sum.
unfoldable pub read_word : (n i word : ℕ) → List ℕ → Option (ℕ × List ℕ)
read_word zero i word line = some (word, line)
read_word (suc n) i word [] = none
read_word (suc n) i word (c ∷ line) = read_word n (i + 1) (word + c * 2 ^ (i * 8)) line

-- `++i` of an int; none where it overflows.
unfoldable pub incr_int : ℕ → Option ℕ
incr_int i = if ltb (i + 1) (2 ^ 31) then some (i + 1) else none

-- The loop that stores the `n` characters from the `i`th on.
unfoldable pub read_kernel : (n i kernel_addr : ℕ) → (ℕ → ℕ) → List ℕ → Option ((ℕ → ℕ) × List ℕ)
read_kernel zero i kernel_addr memory line = some (memory, line)
read_kernel (suc n) i kernel_addr memory [] = none
read_kernel (suc n) i kernel_addr memory (c ∷ line) =
    incr_int i >>= λ j. read_kernel n j kernel_addr (update memory (kernel_addr + i) c) line

-- `sum += *(kernel_addr + i)`, in an unsigned int.
unfoldable pub sum_kernel : (n i kernel_addr sum : ℕ) → (ℕ → ℕ) → Option ℕ
sum_kernel zero i kernel_addr sum memory = some sum
sum_kernel (suc n) i kernel_addr sum memory = incr_int i >>= λ j.
    sum_kernel n j kernel_addr ((sum + memory (kernel_addr + i)) % 2 ^ 32) memory

-- "BOOT"
abbrev pub magic : List ℕ
magic = 66 ∷ 79 ∷ 79 ∷ 84 ∷ []

abbrev pub kernel_start : ℕ
kernel_start = 0x80000

-- How `load_kernel` ends: a return for a wrong magic number, a return for a wrong sum, or the jump to
-- the kernel.
pub data Ending : Type 0 where
  invalid_image : Ending
  checksum_failed : Ending
  jumped : Ending

pub record Loaded : Type 0 where
  pub ending : Ending
  pub memory : ℕ → ℕ
  pub line : List ℕ

-- Behind the magic number.
unfoldable pub load_image : (ℕ → ℕ) → List ℕ → Option Loaded
load_image memory line = read_word 4 0 0 line >>= λ size. read_word 4 0 0 size.1 >>= λ chksum.
    read_kernel size.0 0 kernel_start memory chksum.1 >>= λ image.
    sum_kernel size.0 0 kernel_start 0 image.0 >>= λ sum. some (record {
      ending = if sum == chksum.0 then jumped else checksum_failed;
      memory = image.0;
      line = image.1;
    })

unfoldable pub load_kernel : (ℕ → ℕ) → List ℕ → Option Loaded
load_kernel memory line = read_magic magic line >>= λ r.
    if r.0
    then load_image memory r.1
    else some (record { ending = invalid_image; memory = memory; line = r.1 })

-- send_kernel.py: the loop over `kernel_data`.
unfoldable pub checksum : List ℕ → ℕ → ℕ
checksum [] sum = sum
checksum (byte ∷ kernel_data) sum = checksum kernel_data ((sum + byte) % 2 ^ 32)

-- `struct.pack('<I', v)`
abbrev pub pack : ℕ → List ℕ
pack v = v % 256 ∷ v / 2 ^ 8 % 256 ∷ v / 2 ^ 16 % 256 ∷ v / 2 ^ 24 % 256 ∷ []

-- The header, and the kernel.
unfoldable pub send_kernel : List ℕ → List ℕ
send_kernel kernel_data =
    (pack 0x544F4F42 ++ (pack (length kernel_data) ++ pack (checksum kernel_data 0))) ++ kernel_data
