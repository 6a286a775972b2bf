-- ===== src/Boot/Tests.antt =====
-- A kernel of three bytes for the boot loader.
use nycu_osdi.Prelude.{ℕ, ◌≤◌, ◌<◌, ◌≡◌, ◌⊎◌, ◌+◌, refl, some, List, [], ◌∷◌, ◌++◌, arith, length}
use nycu_osdi.Boot.{
  magic, kernel_start, jumped, checksum_failed, invalid_image, load_kernel, read_magic, send_kernel,
  checksum, pack,
}
use nycu_osdi.Boot.Load.{Stores, stored, load_kernel_lem, load_kernel-send_kernel}

abbrev kernel : List ℕ
kernel = 200 ∷ 100 ∷ 7 ∷ []

abbrev empty_memory : ℕ → ℕ
empty_memory a = 0

-- The sum is 307; with another one the kernel is in memory, and not started.
load_kernel_lem_example :
    load_kernel empty_memory (magic ++ (pack 3 ++ (pack 563 ++ (kernel ++ (9 ∷ [])))))
    ≡ some (record {
      ending = checksum_failed;
      memory = stored kernel_start kernel empty_memory;
      line = 9 ∷ [];
    })
unfolding checksum
load_kernel_lem_example =
    load_kernel_lem 563 kernel (9 ∷ []) empty_memory (omega arith) (omega arith)

load_kernel-send_kernel_example :
    (m : ℕ → ℕ) × (load_kernel empty_memory (send_kernel kernel ++ (9 ∷ []))
      ≡ some (record { ending = jumped; memory = m; line = 9 ∷ [] }))
    × Stores kernel_start kernel m
    × ((x : ℕ) → (x < kernel_start) ⊎ (kernel_start + length kernel ≤ x) → m x ≡ 0)
load_kernel-send_kernel_example = load_kernel-send_kernel kernel (9 ∷ []) empty_memory (omega arith)

sent : send_kernel kernel ≡ magic ++ (3 ∷ 0 ∷ 0 ∷ 0 ∷ 51 ∷ 1 ∷ 0 ∷ 0 ∷ kernel)
unfolding send_kernel checksum
sent = refl

-- "BOAT" is refused at its third character.
boat :
    load_kernel empty_memory (66 ∷ 79 ∷ 65 ∷ 84 ∷ [])
    ≡ some (record { ending = invalid_image; memory = empty_memory; line = 84 ∷ [] })
unfolding load_kernel read_magic
boat = refl
