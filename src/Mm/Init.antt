-- ===== src/Mm/Init.antt =====
-- src/mm.c: `mm_init`.
use nycu_osdi.Prelude.{ℕ, zero, suc, ◌+◌, ◌-◌, ◌/◌, none, some, ltb, if◌then◌else◌}
use nycu_osdi.Prelude.Int.{pos, negsuc}
use nycu_osdi.Mm.{
  Mm, PageInfo, max_order, page_num, max_block_size, set_idx, set_order, set_entry,
  add_to_free_list,
}

abbrev pub zero_page : PageInfo
zero_page = record {
  idx = 0;
  order = pos 0;
  cache_order = pos 0;
  entry_in_list = none;
  prev = none;
  next = none;
}

-- `for (i = 0; i < PAGE_NUM; i += MAX_BLOCK_SIZE)`, by the rounds left
unfoldable pub init_loop : (rounds i : ℕ) → Mm → Mm
init_loop zero i s = s
init_loop (suc n) i s =
    let s₁ = add_to_free_list (some i) (pos (max_order - 1)) (set_idx i i s) in
    let s₂ = set_entry i (some i) (set_order i (pos (max_order - 1)) s₁) in
    init_loop n (i + max_block_size) s₂

-- `mm_init`. The last loop sets one field of every frame, here by the function from indices.
unfoldable pub mm_init : Mm
mm_init =
    let s =
      init_loop (page_num / max_block_size) 0
        (record { free_list = λ k. none; pages = λ i. zero_page }) in
    record s {
      pages =
          λ i. if ltb i page_num then record (s.pages i) { cache_order = negsuc 0 } else s.pages i;
    }
