-- ===== src/Fdt.antt =====
-- src/devicetree.c: the header of a device tree, the walk through its tokens, and the callback that
-- finds the archive of the initial file system.
--
-- A pointer is the list of the bytes from there on. A result none is a read behind those bytes, or
-- rounds that do not suffice. `user_data` is always NULL and is left out.
pub mod Addresses
pub mod Blob
pub mod Startup
pub mod Walk
mod Tests
use nycu_osdi.Prelude.{
  ℕ, zero, suc, ◌+◌, ◌*◌, ◌^◌, Bool, true, false, not, ◌||◌, Option, none, some, List, [], ◌∷◌,
  ◌==◌, drop, if◌then◌else◌, ◌>>=◌,
}
use nycu_osdi.Prelude.Int.{ℤ, pos, negsuc, eq_ℤ}
use nycu_osdi.Strings.{strcmp, strlen}
use nycu_osdi.Numbers.{be2le_u32}
use nycu_osdi.Cpio.{align, c_string}

-- `*(uint32_t*)p`: the machine is little-endian.
unfoldable pub load_u32 : List ℕ → Option ℕ
load_u32 (a ∷ b ∷ c ∷ d ∷ p) = some (a + b * 2 ^ 8 + c * 2 ^ 16 + d * 2 ^ 24)
load_u32 p = none

unfoldable pub load_be : List ℕ → Option ℕ
load_be p = load_u32 p >>= λ be. some (be2le_u32 be)

-- The arguments of a callback, none for NULL; `data` is the bytes from there on.
pub record Call : Type 0 where
  pub kind : ℕ
  pub name : Option (List ℕ)
  pub payload : Option (List ℕ)
  pub size : ℕ

abbrev pub Callback : Type 0 → Type 0
Callback S = Call → S → Option (ℤ × S)

-- What a round of the loop meets: a call, a token to skip, the end, or no token; and where the next
-- round would begin.
pub data Visit : Type 0 where
  call : Call → List ℕ → Visit
  skip : List ℕ → Visit
  ended : List ℕ → Visit
  invalid : List ℕ → Visit

unfoldable pub visit_begin : List ℕ → Visit
visit_begin p =
    let name = c_string p in
    call (record { kind = 1; name = some name; payload = none; size = 0 })
      (drop (align (strlen name + 1) 4) p)

unfoldable pub visit_prop : (strings : List ℕ) → List ℕ → Option Visit
visit_prop strings p = load_be p >>= λ len. load_be (drop 4 p) >>= λ nameoff. some (
    call
      (record {
        kind = 3;
        name = some (c_string (drop nameoff strings));
        payload = some (drop 8 p);
        size = len;
      })
      (drop (8 + align len 4) p))

unfoldable pub visit_token : (strings : List ℕ) → (token : ℕ) → List ℕ → Option Visit
visit_token strings token p =
    if token == 1
    then some (visit_begin p)
    else if token == 2
    then some (call (record { kind = 2; name = none; payload = none; size = 0 }) p)
    else if token == 3
    then visit_prop strings p
    else if token == 4
    then some (skip p)
    else if token == 9
    then some (ended p)
    else some (invalid p)

unfoldable pub visit : (strings : List ℕ) → List ℕ → Option Visit
visit strings p = load_be p >>= λ token. visit_token strings token (drop 4 p)

-- `callback && callback(...)`: did it fail, and the state after it?
unfoldable pub called : {S : Type 0} → Option (Callback S) → Call → S → Option (Bool × S)
called none c s = some (false, s)
called (some callback) c s = callback c s >>= λ r. some (not (eq_ℤ r.0 (pos 0)), r.1)

-- What `fdt_parse_node` returns, where it leaves `*ptr`, and the state of the callback.
pub record Parsed (S : Type 0) : Type 0 where
  pub result : ℤ
  pub ptr : List ℕ
  pub state : S

module _ {S : Type 0} where
  unfoldable pub fdt_parse_node :
      (rounds : ℕ) → (strings : List ℕ) → Option (Callback S) → List ℕ → S → Option (Parsed S)
  fdt_parse_node zero strings callback p s = none
  fdt_parse_node (suc n) strings callback p s = elim (visit strings p) [
    | none ↦ none
    | some (call c p') ↦
        (called callback c s >>= λ r.
        let rest = fdt_parse_node n strings callback p' r.1 in
        if r.0 then some (record { result = negsuc 0; ptr = p'; state = r.1 }) else rest)
    | some (skip p') ↦ fdt_parse_node n strings callback p' s
    | some (ended p') ↦ some (record { result = pos 0; ptr = p'; state = s })
    | some (invalid p') ↦ some (record { result = negsuc 0; ptr = p'; state = s })
  ]

-- The static variables, none for NULL.
pub record Fdt : Type 0 where
  pub base : Option (List ℕ)
  pub strings : List ℕ
  pub structure : Option (List ℕ)
  pub total_size : ℕ
  pub strings_size : ℕ
  pub structure_size : ℕ

-- `fdt_init` behind the test of the magic number. `totalsize` is stored as it is read.
unfoldable pub take_header : List ℕ → Fdt → Option (ℤ × Fdt)
take_header b s = load_u32 (drop 4 b) >>= λ totalsize. load_be (drop 8 b) >>= λ off_dt_struct.
    load_be (drop 12 b) >>= λ off_dt_strings. load_be (drop 32 b) >>= λ size_dt_strings.
    load_be (drop 36 b) >>= λ size_dt_struct. some (
      pos 0,
      record {
        base = s.base;
        strings = drop off_dt_strings b;
        structure = some (drop off_dt_struct b);
        total_size = totalsize;
        strings_size = size_dt_strings;
        structure_size = size_dt_struct;
      },
    )

unfoldable pub fdt_init : Option (List ℕ) → Fdt → Option (ℤ × Fdt)
fdt_init none s = some (pos 0, s)
fdt_init (some b) s =
    let s' = record s { base = some b } in
    load_be b >>= λ magic. if magic == 0xd00dfeed then take_header b s' else some (negsuc 0, s')

-- The result of the callbacks' state; without a tree nothing is called.
unfoldable pub traverse_from :
    {S : Type 0}
    → (rounds : ℕ) → (base structure : Option (List ℕ)) → (strings : List ℕ) → Option (Callback S)
    → S
    → Option (ℤ × S)
traverse_from n (some b) (some p) strings callback s =
    fdt_parse_node n strings callback p s >>= λ r. some (r.result, r.state)
traverse_from n base structure strings callback s = some (negsuc 0, s)

unfoldable pub fdt_traverse :
    {S : Type 0} → (rounds : ℕ) → Option (Callback S) → Fdt → S → Option (ℤ × S)
fdt_traverse n callback f s = traverse_from n f.base f.structure f.strings callback s

-- `cpio_addr` and `cpio_end`.
pub record Initrd : Type 0 where
  pub cpio_addr : ℕ
  pub cpio_end : ℕ

-- "linux,initrd-start" and "linux,initrd-end"
abbrev pub initrd_start : List ℕ
initrd_start =
    108 ∷ 105 ∷ 110 ∷ 117 ∷ 120 ∷ 44 ∷ 105 ∷ 110 ∷ 105 ∷ 116 ∷ 114 ∷ 100 ∷ 45 ∷ 115 ∷ 116 ∷ 97 ∷ 114
    ∷ 116 ∷ []

abbrev pub initrd_end : List ℕ
initrd_end =
    108 ∷ 105 ∷ 110 ∷ 117 ∷ 120 ∷ 44 ∷ 105 ∷ 110 ∷ 105 ∷ 116 ∷ 114 ∷ 100 ∷ 45 ∷ 101 ∷ 110 ∷ 100 ∷ []

-- What a pointer points to; NULL is the address 0, which the board can read.
abbrev pub or_null : (low_memory : List ℕ) → Option (List ℕ) → List ℕ
or_null low_memory none = low_memory
or_null low_memory (some p) = p

-- The name that `strcmp` reads: at NULL the string at address 0.
unfoldable pub name_read : (low_memory : List ℕ) → Call → List ℕ
name_read low_memory c = or_null (c_string low_memory) c.name

unfoldable pub initramfs_callback : (low_memory : List ℕ) → Callback Initrd
initramfs_callback low_memory c s =
    if eq_ℤ (strcmp (name_read low_memory c) initrd_start) (pos 0)
    then (load_be (or_null low_memory c.payload) >>= λ v. some (pos 0, record s { cpio_addr = v }))
    else if eq_ℤ (strcmp (name_read low_memory c) initrd_end) (pos 0)
    then (load_be (or_null low_memory c.payload) >>= λ v. some (pos 0, record s { cpio_end = v }))
    else some (pos 0, s)
