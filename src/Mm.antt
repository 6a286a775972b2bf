-- ===== src/Mm.antt =====
-- src/mm.c: the page allocator, a buddy system over the frame array `page_list`.
--
-- A `struct PageInfo *` is an index of `page_list`, none for NULL. The two global arrays are
-- functions from indices, so that a theorem has to say that an index is in range. An `int` that
-- may be negative (`order`, `cache_order`) is an integer; an address is a number, 0 for NULL, and
-- `memory_start` is the 0 that `mm_init` sets.
pub mod Alloc
pub mod Books
pub mod Boot
pub mod Caches
mod Buddy
pub mod Cover
pub mod Merge
pub mod Order
pub mod Chain
pub mod Halving
pub mod Init
pub mod Lists
pub mod System
mod Tests
pub mod Put
pub mod Release
pub mod Reserve
use Prim.Native.Nat.{bit_xor, min, max}
use nycu_osdi.Prelude.{
  ℕ, zero, suc, ◌+◌, ◌-◌, ◌*◌, ◌/◌, ◌%◌, ◌^◌, true, false, Option, none, some, ◌||◌, ◌==◌, leb, ltb,
  if◌then◌else◌, update, points_to,
}
use nycu_osdi.Prelude.Int.{ℤ, pos, negsuc, eq_ℤ}

abbrev pub max_order : ℕ
max_order = 14

abbrev pub page_size : ℕ
page_size = 4096

abbrev pub page_num : ℕ
page_num = 0x3C000000 / 4096

-- MAX_BLOCK_SIZE, in pages
abbrev pub max_block_size : ℕ
max_block_size = 2 ^ 13

abbrev pub max_alloc_size : ℕ
max_alloc_size = page_size * max_block_size

pub record PageInfo : Type 0 where
  pub idx : ℕ
  pub order : ℤ
  pub cache_order : ℤ
  pub entry_in_list : Option ℕ
  pub prev : Option ℕ
  pub next : Option ℕ

-- `free_list` and `page_list`
pub record Mm : Type 0 where
  pub free_list : ℕ → Option ℕ
  pub pages : ℕ → PageInfo

-- Round up to a multiple of the page size.
unfoldable pub round : ℕ → ℕ
round size = if size % page_size == 0 then size else (size / page_size + 1) * page_size

-- `while ((1 << order) < size) order++`, with at most `fuel` rounds
unfoldable pub order_loop : (fuel size order : ℕ) → ℕ
order_loop zero size order = order
order_loop (suc fuel) size order =
    let rest = order_loop fuel size (order + 1) in if ltb (2 ^ order) size then rest else order

-- The order of a block for `size` bytes. An `int` has at most 31 rounds.
unfoldable pub get_order : ℕ → ℕ
unfolding order_loop
get_order size = order_loop 31 (size / page_size) 0

pub get_buddy : ℕ → ℕ → ℕ
get_buddy i order = bit_xor i (2 ^ order)

-- Writes of one field of one frame.
abbrev pub set_next : ℕ → Option ℕ → Mm → Mm
set_next i v s = record s { pages = update s.pages i (record (s.pages i) { next = v }) }

abbrev pub set_prev : ℕ → Option ℕ → Mm → Mm
set_prev i v s = record s { pages = update s.pages i (record (s.pages i) { prev = v }) }

abbrev pub set_idx : ℕ → ℕ → Mm → Mm
set_idx i v s = record s { pages = update s.pages i (record (s.pages i) { idx = v }) }

abbrev pub set_order : ℕ → ℤ → Mm → Mm
set_order i v s = record s { pages = update s.pages i (record (s.pages i) { order = v }) }

abbrev pub set_entry : ℕ → Option ℕ → Mm → Mm
set_entry i v s = record s { pages = update s.pages i (record (s.pages i) { entry_in_list = v }) }

abbrev pub set_head : ℕ → Option ℕ → Mm → Mm
set_head k v s = record s { free_list = update s.free_list k v }

-- A write through a pointer that the code has tested against NULL.
abbrev pub set_next_at : Option ℕ → Option ℕ → Mm → Mm
set_next_at none v s = s
set_next_at (some i) v s = set_next i v s

abbrev pub set_prev_at : Option ℕ → Option ℕ → Mm → Mm
set_prev_at none v s = s
set_prev_at (some i) v s = set_prev i v s

-- The two branches of `add_to_free_list`, by the head of the list.
unfoldable pub push_front : ℕ → ℕ → Option ℕ → Mm → Mm
push_front e k none s = set_prev e none (set_next e none (set_head k (some e) s))
push_front e k (some h) s =
    set_head k (some e) (set_next e (some h) (set_prev e none (set_prev h (some e) s)))

unfoldable pub add_to_free_list : Option ℕ → ℤ → Mm → Mm
unfolding push_front
add_to_free_list none order s = s
add_to_free_list (some e) (negsuc n) s = s
add_to_free_list (some e) (pos k) s =
    if leb max_order k then s else push_front e k (s.free_list k) s

-- Unlink at the front, and in the middle.
unfoldable pub drop_front : ℕ → ℕ → Mm → Mm
drop_front e k s = set_prev_at (s.pages e).next none (set_head k (s.pages e).next s)

pub drop_middle : ℕ → Mm → Mm
drop_middle e s =
    let s' = set_next_at (s.pages e).prev (s.pages e).next s in
    set_prev_at (s'.pages e).next (s'.pages e).prev s'

unfoldable pub rm_from_free_list : Option ℕ → ℤ → Mm → Mm
unfolding drop_front drop_middle
rm_from_free_list none order s = s
rm_from_free_list (some e) (negsuc n) s = s
rm_from_free_list (some e) (pos k) s =
    if leb max_order k
    then s
    else set_prev e none (
        set_next e none (if points_to (s.free_list k) e then drop_front e k s else drop_middle e s))

-- The body of `while (i > order)`, after `i--`: the upper half goes to the list of order `i`.
pub split_step : (i block : ℕ) → Mm → Mm
split_step i block s =
    let new_entry = block + 2 ^ i in
    let s₁ = set_idx new_entry ((s.pages block).idx + 2 ^ i) s in
    let s₂ = add_to_free_list (some new_entry) (pos i) s₁ in
    let s₃ = set_order (s₂.pages new_entry).idx (pos i) s₂ in
    set_entry (s₃.pages new_entry).idx (some new_entry) s₃

-- The loop, which halves the block `rounds` times, down to order `order`.
unfoldable pub split_loop : (rounds order block : ℕ) → Mm → Mm
split_loop zero order block s = s
split_loop (suc n) order block s = split_loop n order block (split_step (order + n) block s)

-- The body of the search loop of `_alloc` at a list that is not empty: the address and the state.
unfoldable pub take_block : (i order block : ℕ) → Mm → ℕ × Mm
take_block i order block s =
    let s₁ = rm_from_free_list (some block) (pos i) s in
    let s₂ = split_loop (i - order) order block s₁ in
    let s₃ = set_order (s₂.pages block).idx (pos order) s₂ in
    let s₄ = set_entry (s₃.pages block).idx none s₃ in ((s₄.pages block).idx * page_size, s₄)

-- `for (i = order; i < MAX_ORDER; i++)`, by the rounds left
unfoldable pub alloc_loop : (rounds i order : ℕ) → Mm → ℕ × Mm
alloc_loop zero i order s = (0, s)
alloc_loop (suc n) i order s = elim (s.free_list i) [
  | none ↦ alloc_loop n (i + 1) order s
  | some block ↦ take_block i order block s
]

unfoldable pub alloc_pages : ℕ → Mm → ℕ × Mm
alloc_pages size s =
    if size == 0 || ltb max_alloc_size size
    then (0, s)
    else let order = get_order (round size) in alloc_loop (max_order - order) order order s

-- The last branch of the loop of `_free`: the block goes to the list of its order.
pub give_back : (order curr : ℕ) → Mm → Mm
give_back order curr s =
    let s₁ = add_to_free_list (some curr) (pos order) (set_idx curr curr s) in
    set_order curr (pos order) (set_entry curr (some curr) s₁)

-- The first branch, up to the next round: the buddy leaves its list, and the two are one block.
pub merge : (order curr buddy entry : ℕ) → Mm → Mm
merge order curr buddy entry s =
    let s₁ = rm_from_free_list (some entry) (pos order) s in
    let s₂ = set_order (min curr buddy) (pos (order + 1)) s₁ in
    let s₃ = set_order (max curr buddy) (negsuc 0) s₂ in set_entry (max curr buddy) none s₃

-- `while (order < MAX_ORDER - 1)`, by the rounds left
pub free_loop : (rounds order curr buddy : ℕ) → Mm → Mm
free_loop zero order curr buddy s = s
free_loop (suc n) order curr buddy s = elim (s.pages buddy).entry_in_list [
  | none ↦ give_back order curr s
  | some entry ↦ elim (eq_ℤ (s.pages buddy).order (s.pages curr).order) [
    | true ↦
        free_loop n (order + 1) (min curr buddy) (get_buddy (min curr buddy) (order + 1))
          (merge order curr buddy entry s)
    | false ↦ give_back order curr s
  ]
]

-- `_free`, by the order of the frame: with a negative one (no block begins there) the code shifts
-- by a negative count, which is undefined, and the result is none.
pub free_block : ℕ → ℤ → Mm → Option Mm
free_block i (negsuc n) s = none
free_block i (pos order) s = some (free_loop (max_order - 1 - order) order i (get_buddy i order) s)

-- The frame of an address below 2 ^ 63: the quotient is cut to an `int`, whose negative values are
-- the patterns from 2 ^ 31 on.
abbrev pub frame_of : ℕ → ℕ
frame_of ptr = ptr / page_size % 2 ^ 32

-- The check of the frame, and the rest of `_free`.
pub free_frame : ℕ → Mm → Option Mm
free_frame i s = if leb page_num i then some s else elim (s.pages i).entry_in_list [
  | none ↦ free_block i (s.pages i).order s
  | some e ↦ some s
]

pub free_pages : ℕ → Mm → Option Mm
free_pages ptr s = if ptr == 0 then some s else free_frame (frame_of ptr) s
