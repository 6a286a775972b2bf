-- ===== src/Kmem.antt =====
-- src/alloc.c: the allocator of small chunks above the page allocator, and `alloc` and `free`.
--
-- A `struct kmem_cache_entry *` is the address of the entry, none for NULL; the two words of an
-- entry are functions from addresses. A pointer that is handed out is a number, 0 for NULL. A
-- result none is a NULL or an index out of bounds that the code dereferences.
pub mod Blocks
pub mod Linking
pub mod Sound
pub mod Pages
pub mod Chunks
pub mod Orders
pub mod Release
pub mod Requests
pub mod Init
pub mod System
mod Tests
use nycu_osdi.Prelude.{
  ℕ, zero, suc, ◌+◌, ◌-◌, ◌/◌, ◌%◌, ◌^◌, ◌||◌, ◌&&◌, Bool, true, false, Option, none, some, ◌==◌,
  leb, ltb, if◌then◌else◌, ◌>>=◌, update,
}
use nycu_osdi.Prelude.Int.{ℤ, pos, negsuc, eq_ℤ}
use nycu_osdi.Mm.{Mm, page_size, page_num, order_loop, frame_of, alloc_pages, free_pages}

abbrev pub max_chunk_size : ℕ
max_chunk_size = 128

abbrev pub min_cache_order : ℕ
min_cache_order = 4

abbrev pub max_cache_order : ℕ
max_cache_order = 7

abbrev pub cache_num : ℕ
cache_num = 4

-- sizeof(struct kmem_cache_entry): two pointers
abbrev pub entry_size : ℕ
entry_size = 16

-- `simple_alloc`, by `heap_ptr`: the address and the new `heap_ptr`. The bounds of the region are
-- symbols of the linker.
pub simple_alloc : (bss_end stack_top : ℕ) → (size heap_ptr : ℕ) → ℕ × ℕ
simple_alloc bss_end stack_top size heap_ptr =
    let heap_ptr' = if heap_ptr == 0 then bss_end else heap_ptr in
    if ltb stack_top (heap_ptr' + size) then (0, heap_ptr') else (heap_ptr', heap_ptr' + size)

-- `kmem_caches`, by index, the entries, by address, and the page allocator below.
pub record Kmem : Type 0 where
  pub cache_size : ℕ → ℕ
  pub free_list : ℕ → Option ℕ
  pub prev : ℕ → Option ℕ
  pub next : ℕ → Option ℕ
  pub mm : Mm

-- `entry->prev = v` behind the test against NULL.
abbrev pub set_entry_prev : Option ℕ → Option ℕ → Kmem → Kmem
set_entry_prev none v s = s
set_entry_prev (some e) v s = record s { prev = update s.prev e v }

unfoldable pub kmem_freelist_push : (entry cache : ℕ) → Kmem → Kmem
kmem_freelist_push entry cache s =
    let s₁ = record s { next = update s.next entry (s.free_list cache) } in
    let s₂ = set_entry_prev (s₁.free_list cache) (some entry) s₁ in
    record s₂ {
      free_list = update s₂.free_list cache (some entry);
      prev = update s₂.prev entry none;
    }

-- `kmem_freelist_pop` at a list whose head is `tmp`.
unfoldable pub pop_head : (tmp cache : ℕ) → Kmem → Kmem
pop_head tmp cache s =
    let s₁ = record s { free_list = update s.free_list cache (s.next tmp) } in
    let s₂ = set_entry_prev (s₁.free_list cache) none s₁ in
    record s₂ { next = update s₂.next tmp none; prev = update s₂.prev tmp none }

unfoldable pub kmem_freelist_pop : ℕ → Kmem → Option Kmem
kmem_freelist_pop cache s = elim (s.free_list cache) [
  | none ↦ none
  | some tmp ↦ some (pop_head tmp cache s)
]

-- The loop that cuts a page: `n` chunks of `step` bytes from address `page` on.
unfoldable pub split_chunks : (n step cache page : ℕ) → Kmem → Kmem
split_chunks zero step cache page s = s
split_chunks (suc n) step cache page s =
    split_chunks n step cache (page + step) (kmem_freelist_push page cache s)

-- `page_list[page_idx].cache_order = v`
abbrev pub set_cache_order : ℕ → ℤ → Mm → Mm
set_cache_order i v m = record m {
  pages = update m.pages i (record (m.pages i) { cache_order = v });
}

-- The page belongs to a cache from now on.
abbrev pub label : (page cache : ℕ) → Mm → Kmem → Kmem
label page cache m s = record s {
  mm = set_cache_order (frame_of page) (pos (cache + min_cache_order)) m;
}

-- The rest of `request_page`, by the page that `_alloc` returns.
unfoldable pub cut_page : (cache : ℕ) → ℕ × Mm → Kmem → Kmem
cut_page cache r s =
    if r.0 == 0
    then record s { mm = r.1 }
    else let step = s.cache_size cache + entry_size in
      split_chunks (page_size / step - 1) step cache r.0 (label r.0 cache r.1 s)

unfoldable pub request_page : ℕ → Kmem → Kmem
request_page cache s = cut_page cache (alloc_pages page_size s.mm) s

-- The body of the second loop of `kmem_cache_init`, by the page; the result none is the early
-- return.
unfoldable pub init_page : (cache : ℕ) → ℕ × Mm → Kmem → Kmem
init_page cache r s =
    let step = s.cache_size cache + entry_size in
    split_chunks (page_size / step) step cache r.0
      (record (label r.0 cache r.1 s) { free_list = update s.free_list cache none })

unfoldable pub init_pages : (rounds cache : ℕ) → Kmem → Kmem
init_pages zero cache s = s
init_pages (suc n) cache s =
    let r = alloc_pages page_size s.mm in
    let rest = init_pages n (cache + 1) (init_page cache r s) in
    if r.0 == 0 then record s { mm = r.1 } else rest

-- The first loop of `kmem_cache_init`.
unfoldable pub init_caches : Kmem → Kmem
init_caches s = record s {
  cache_size = λ i. if ltb i cache_num then 2 ^ (i + 4) else s.cache_size i;
  free_list = λ i. if ltb i cache_num then none else s.free_list i;
}

unfoldable pub kmem_cache_init : Kmem → Kmem
kmem_cache_init s = init_pages cache_num 0 (init_caches s)

-- `while ((1 << order) < size) order++` from 4 on; an unsigned int has at most 28 rounds.
unfoldable pub get_chunk_order : ℕ → ℕ
get_chunk_order size = order_loop 28 size 4

-- A new page when the list is empty.
unfoldable pub refill : (cache : ℕ) → Kmem → Kmem
refill cache s = elim (s.free_list cache) [ none ↦ request_page cache s | some entry ↦ s ]

-- The end of `kmalloc`: the head of the list, behind its entry.
unfoldable pub take_chunk : (cache : ℕ) → Kmem → Option (ℕ × Kmem)
take_chunk cache s = elim (s.free_list cache) [
  | none ↦ some (0, s)
  | some entry ↦ (kmem_freelist_pop cache s >>= λ t. some (entry + entry_size, t))
]

unfoldable pub kmalloc : ℕ → Kmem → Option (ℕ × Kmem)
kmalloc size s =
    let order = get_chunk_order size in
    let rounded = 2 ^ order in
    if rounded == 0
    then some (0, s)
    else if ltb max_chunk_size rounded
    then some (0, s)
    else let cache = order - min_cache_order in take_chunk cache (refill cache s)

-- `ptr - sizeof(struct kmem_cache_entry)` on 64 bits
abbrev pub entry_of : ℕ → ℕ
entry_of ptr = (ptr + (2 ^ 64 - entry_size)) % 2 ^ 64

-- The rest of `kfree`, by the cache order of the page.
unfoldable pub kfree_order : (ptr : ℕ) → ℤ → Kmem → Kmem
kfree_order ptr (negsuc n) s = s
kfree_order ptr (pos order) s =
    if ltb order min_cache_order || ltb max_cache_order order
    then s
    else kmem_freelist_push (entry_of ptr) (order - min_cache_order) s

module _ (bss_end stack_top : ℕ) where
  -- `ptr >= &__bss_end && ptr < &__stack_top`
  unfoldable pub out_of_bounds : ℕ → Bool
  out_of_bounds ptr = leb bss_end ptr && ltb ptr stack_top

  unfoldable pub kfree : ℕ → Kmem → Option Kmem
  kfree ptr s =
      if (ptr == 0) || out_of_bounds ptr
      then some s
      else if leb page_num (frame_of ptr)
      then none
      else some (kfree_order ptr (s.mm.pages (frame_of ptr)).cache_order s)

  -- The rest of `free`, by the test of the cache order of the page.
  unfoldable pub free_by : (ptr : ℕ) → Bool → Kmem → Option Kmem
  free_by ptr true s = (free_pages ptr s.mm >>= λ m. some (record s { mm = m }))
  free_by ptr false s = kfree ptr s

  unfoldable pub free : ℕ → Kmem → Option Kmem
  free ptr s =
      if (ptr == 0) || out_of_bounds ptr
      then some s
      else if leb page_num (frame_of ptr)
      then some s
      else free_by ptr (eq_ℤ (s.mm.pages (frame_of ptr)).cache_order (negsuc 0)) s

-- `alloc`: the pages for more than a chunk, else `kmalloc`.
unfoldable pub alloc : ℕ → Kmem → Option (ℕ × Kmem)
alloc size s =
    if size == 0
    then some (0, s)
    else if ltb max_chunk_size size
    then (let r = alloc_pages size s.mm in some (r.0, record s { mm = r.1 }))
    else kmalloc size s
