-- ===== src/Mm/Reserve.antt =====
-- src/mm.c: `split` and `reserve`, which take an interval of memory out of the free lists.
use nycu_osdi.Prelude.{
  ℕ, zero, suc, ◌+◌, ◌-◌, ◌/◌, ◌%◌, ◌^◌, true, false, Option, none, some, ◌==◌, leb, ltb,
  if◌then◌else◌,
}
use nycu_osdi.Prelude.Int.{pos, negsuc, eq_ℤ}
use nycu_osdi.Mm.{
  Mm, max_order, page_size, set_idx, set_order, set_entry, add_to_free_list, rm_from_free_list,
  get_buddy,
}

-- Cut the block at `i`, of an order from 1 on, in two.
pub split : ℕ → ℕ → Mm → Mm
split i order s =
    if leb max_order order
    then s
    else let s₁ = set_entry i none (rm_from_free_list (some i) (pos order) s) in
      let k = order - 1 in
      let s₂ = set_order i (pos k) (set_idx i i s₁) in
      let s₃ = set_entry i (some i) (add_to_free_list (some i) (pos k) s₂) in
      let b = get_buddy i k in
      let s₄ = set_order b (pos k) (set_idx b b s₃) in
      set_entry b (some b) (add_to_free_list (some b) (pos k) s₄)

-- `if (page_list[i].order == curr_order) split(i, curr_order)`
abbrev split_if : ℕ → ℕ → Mm → Mm
split_if i k s = if eq_ℤ (s.pages i).order (pos k) then split i k s else s

-- The first loop of `reserve`, from order `k` down to 1.
split_ends : (k start_idx end_idx : ℕ) → Mm → Mm
split_ends zero start_idx end_idx s = s
split_ends (suc n) start_idx end_idx s =
    let k = suc n in
    let a = start_idx - start_idx % 2 ^ k in
    let b = end_idx - end_idx % 2 ^ k in
    split_ends n start_idx end_idx
      (if a == b then split_if a k s else split_if b k (split_if a k s))

-- `if (page_list[i].entry_in_list != NULL)`, by that field
detach : ℕ → Option ℕ → Mm → Mm
detach i none s = s
detach i (some e) s = set_entry i none (rm_from_free_list (some i) (s.pages i).order s)

-- The second loop, which takes the blocks from `i` to `end_idx` off their lists. A round adds at
-- least 1 to `i`; a frame with a negative order is undefined behaviour, as in `_free`.
take_range : (rounds i end_idx : ℕ) → Mm → Option Mm
take_range zero i end_idx s = some s
take_range (suc n) i end_idx s =
    let s' = detach i (s.pages i).entry_in_list s in
    elim (ltb end_idx i) [
      | true ↦ some s
      | false ↦ elim (s'.pages i).order [
        | pos k ↦ take_range n (i + 2 ^ k) end_idx s'
        | negsuc k ↦ none
      ]
    ]

-- `start` and `end` are addresses with `start` below `end`, so that `end--` does not wrap.
pub reserve : ℕ → ℕ → Mm → Option Mm
reserve start end s =
    let a = start / page_size in
    let b = (end - 1) / page_size in take_range (b + 1 - a) a b (split_ends (max_order - 1) a b s)
