-- ===== src/Boot/Load.antt =====
-- What `load_kernel` of bootloader/src/load.c does with a kernel that comes on the line.
use nycu_osdi.Prelude.{
  ℕ, ◌+◌, ◌*◌, ◌/◌, ◌%◌, ◌^◌, ◌≤◌, ◌<◌, ◌≡◌, ◌⊎◌, inl, ◌∙◌, refl, ap, subst, some, List, [], ◌∷◌,
  ◌++◌, arith, ◌==◌, ==_refl, ◌>>=◌, length, if◌then◌else◌, update,
}
use nycu_osdi.Boot.{
  read_magic, read_word, read_kernel, sum_kernel, magic, kernel_start, checksum_failed, jumped,
  load_image, load_kernel, checksum, send_kernel, incr_int, pack,
}

-- The memory with the bytes written from the address on.
abbrev pub stored : (addr : ℕ) → List ℕ → (ℕ → ℕ) → ℕ → ℕ
stored addr [] memory = memory
stored addr (c ∷ kernel) memory = stored (addr + 1) kernel (update memory addr c)

-- The bytes are in memory from the address on.
abbrev pub Stores : (addr : ℕ) → List ℕ → (ℕ → ℕ) → Type 0
Stores addr [] memory = Unit {0}
Stores addr (c ∷ kernel) memory = (memory addr ≡ c) × Stores (addr + 1) kernel memory

pub stored-outside :
    (addr a : ℕ) (kernel : List ℕ) (memory : ℕ → ℕ)
    → (a < addr) ⊎ (addr + length kernel ≤ a)
    → stored addr kernel memory a ≡ memory a
stored-outside addr a [] memory out = refl
stored-outside addr a (c ∷ kernel) memory out =
    stored-outside (addr + 1) a kernel (update memory addr c) (ground (arith, out))
    ∙ ground (arith, out)

Stores-stored :
    (addr : ℕ) (kernel : List ℕ) (memory : ℕ → ℕ) → Stores addr kernel (stored addr kernel memory)
Stores-stored addr [] memory = tt
Stores-stored addr (c ∷ kernel) memory = (
  stored-outside (addr + 1) addr kernel (update memory addr c) (inl (omega arith)) ∙ ground arith,
  Stores-stored (addr + 1) kernel (update memory addr c),
)

incr_int_lem : (i : ℕ) → i + 1 < 2 ^ 31 → incr_int i ≡ some (i + 1)
unfolding incr_int
incr_int_lem i h = ground (arith, h)

read_kernel_lem :
    (i addr : ℕ) (kernel rest : List ℕ) (memory : ℕ → ℕ)
    → i + length kernel < 2 ^ 31
    → read_kernel (length kernel) i addr memory (kernel ++ rest)
      ≡ some (stored (addr + i) kernel memory, rest)
unfolding read_kernel
read_kernel_lem i addr [] rest memory h = refl
read_kernel_lem i addr (c ∷ kernel) rest memory h =
    let e : addr + (i + 1) ≡ addr + i + 1 = omega arith in
    ap
      (λ o.
        o >>= λ j. read_kernel (length kernel) j addr (update memory (addr + i) c) (kernel ++ rest))
      (incr_int_lem i (omega (arith, h)))
    ∙ read_kernel_lem (i + 1) addr kernel rest (update memory (addr + i) c) (omega (arith, h))
    ∙ ap (λ a. some (stored a kernel (update memory (addr + i) c), rest)) e

-- The sum over the memory is that over the bytes in it.
sum_kernel_lem :
    (i addr sum : ℕ) (kernel : List ℕ) (memory : ℕ → ℕ)
    → i + length kernel < 2 ^ 31
    → Stores (addr + i) kernel memory
    → sum_kernel (length kernel) i addr sum memory ≡ some (checksum kernel sum)
unfolding sum_kernel checksum
sum_kernel_lem i addr sum [] memory h s = refl
sum_kernel_lem i addr sum (c ∷ kernel) memory h s =
    let e : addr + i + 1 ≡ addr + (i + 1) = omega arith in
    ap
      (λ o.
        o >>= λ j. sum_kernel (length kernel) j addr ((sum + memory (addr + i)) % 2 ^ 32) memory)
      (incr_int_lem i (omega (arith, h)))
    ∙ sum_kernel_lem (i + 1) addr ((sum + memory (addr + i)) % 2 ^ 32) kernel memory
        (omega (arith, h)) (subst (λ a. Stores a kernel memory) e s.1)
    ∙ ap (λ b. some (checksum kernel ((sum + b) % 2 ^ 32))) s.0

-- The number that four characters stand for.
abbrev pub word_of : (a b c d : ℕ) → ℕ
word_of a b c d = a + b * 2 ^ 8 + c * 2 ^ 16 + d * 2 ^ 24

read_word_lem :
    (a b c d : ℕ) (rest : List ℕ)
    → read_word 4 0 0 (a ∷ b ∷ c ∷ d ∷ rest) ≡ some (word_of a b c d, rest)
unfolding read_word
read_word_lem a b c d rest = ap (λ n. some (n, rest)) (omega arith)

pub word_of-pack :
    (v : ℕ)
    → v < 2 ^ 32
    → word_of (v % 256) (v / 2 ^ 8 % 256) (v / 2 ^ 16 % 256) (v / 2 ^ 24 % 256) ≡ v
word_of-pack v h = omega (arith, h)

read_word-pack :
    (v : ℕ) (rest : List ℕ) → v < 2 ^ 32 → read_word 4 0 0 (pack v ++ rest) ≡ some (v, rest)
read_word-pack v rest h =
    read_word_lem (v % 256) (v / 2 ^ 8 % 256) (v / 2 ^ 16 % 256) (v / 2 ^ 24 % 256) rest
    ∙ ap (λ n. some (n, rest)) (word_of-pack v h)

-- Of an image with the magic number, the size of a kernel of less than 2 GiB and any sum of 32 bits,
-- `load_kernel` stores the kernel from 0x80000 on and nothing elsewhere, and takes no further character;
-- it jumps to the kernel exactly if the sum is that of its bytes.
pub load_kernel_lem :
    (sum : ℕ) (kernel rest : List ℕ) (memory : ℕ → ℕ)
    → length kernel < 2 ^ 31
    → sum < 2 ^ 32
    → load_kernel memory (magic ++ (pack (length kernel) ++ (pack sum ++ (kernel ++ rest))))
      ≡ some (record {
        ending = if checksum kernel 0 == sum then jumped else checksum_failed;
        memory = stored kernel_start kernel memory;
        line = rest;
      })
unfolding load_kernel read_magic load_image
load_kernel_lem sum kernel rest memory size small =
    let image = stored kernel_start kernel memory in
    rw
      (
        read_word-pack (length kernel) (pack sum ++ (kernel ++ rest)) (omega (arith, size)),
        read_word-pack sum (kernel ++ rest) small,
        read_kernel_lem 0 kernel_start kernel rest memory (omega (arith, size)),
        sum_kernel_lem 0 kernel_start 0 kernel image (omega (arith, size))
            (Stores-stored kernel_start kernel memory),
      )
      refl

checksum-lt : (kernel : List ℕ) (sum : ℕ) → sum < 2 ^ 32 → checksum kernel sum < 2 ^ 32
unfolding checksum
checksum-lt [] sum h = h
checksum-lt (c ∷ kernel) sum h = checksum-lt kernel ((sum + c) % 2 ^ 32) (omega arith)

-- `load_kernel` starts a kernel of less than 2 GiB that send_kernel.py sends, with its bytes in memory
-- from 0x80000 on and the rest of the memory as it was.
pub load_kernel-send_kernel :
    (kernel rest : List ℕ) (memory : ℕ → ℕ)
    → length kernel < 2 ^ 31
    → (m : ℕ → ℕ) × (load_kernel memory (send_kernel kernel ++ rest)
        ≡ some (record { ending = jumped; memory = m; line = rest }))
      × Stores kernel_start kernel m
      × ((x : ℕ) → (x < kernel_start) ⊎ (kernel_start + length kernel ≤ x) → m x ≡ memory x)
unfolding send_kernel
load_kernel-send_kernel kernel rest memory h =
    let sum = checksum kernel 0 in
    (
      stored kernel_start kernel memory,
      load_kernel_lem sum kernel rest memory h (checksum-lt kernel 0 (omega arith))
          ∙ rw (==_refl sum) refl,
      Stores-stored kernel_start kernel memory,
      λ x out. stored-outside kernel_start x kernel memory out,
    )
