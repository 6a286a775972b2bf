-- ===== src/Timers.antt =====
-- src/timer.c and src/tasks.c: the two sorted lists, of timers by their expiration and of tasks by
-- their priority. Their insertion is the same code, and is modelled once: `key` is the field
-- `expiration` or `priority`.
--
-- A pointer is a number, none for NULL. What `alloc` gives is an argument. A loop along `next` is
-- given its number of rounds; the result none says that they did not suffice. The texts of the
-- timers are left out.
pub mod Expire
pub mod Insert
mod Tests
use nycu_osdi.Prelude.{
  ◌>>=◌, ℕ, zero, suc, ◌+◌, ◌-◌, ◌%◌, ◌^◌, Bool, true, false, Option, none, some, List, [], ◌∷◌,
  leb, ltb, if◌then◌else◌, update,
}

-- The list: its head, and the fields of all elements.
pub record Sorted : Type 0 where
  pub head : Option ℕ
  pub prev : ℕ → Option ℕ
  pub next : ℕ → Option ℕ
  pub key : ℕ → ℕ

-- `while (curr->next != NULL && curr->next->key < new->key) curr = curr->next`
unfoldable pub place_loop : (rounds curr key : ℕ) → Sorted → Option ℕ
place_loop zero curr key s = none
place_loop (suc n) curr key s = elim (s.next curr) [
  | none ↦ some curr
  | some following ↦
      let rest = place_loop n following key s in
      if ltb (s.key following) key then rest else some curr
]

-- `if (curr->next != NULL) curr->next->prev = new`, read after `curr->next = new`.
abbrev pub set_prev_of : Option ℕ → ℕ → Sorted → Sorted
set_prev_of none new s = s
set_prev_of (some i) new s = record s { prev = update s.prev i (some new) }

-- The last branch, behind `curr`.
unfoldable pub link_behind : (curr new : ℕ) → Sorted → Sorted
link_behind curr new s =
    let s₁ = record s {
      next = update (update s.next new (s.next curr)) curr (some new);
      prev = update s.prev new (some curr);
    } in
    set_prev_of (s₁.next curr) new s₁

-- The first two branches.
abbrev pub alone : (new : ℕ) → Sorted → Sorted
alone new s = record s {
  head = some new;
  prev = update s.prev new none;
  next = update s.next new none;
}

abbrev pub in_front : (first new : ℕ) → Sorted → Sorted
in_front first new s = record s {
  head = some new;
  next = update s.next new (some first);
  prev = update (update s.prev first (some new)) new none;
}

-- The insertion by the head of the list, and whether the new element is the head afterwards.
unfoldable pub insert_by : (rounds new : ℕ) → Option ℕ → Sorted → Option (Bool × Sorted)
insert_by rounds new none s = some (true, alone new s)
insert_by rounds new (some first) s =
    let behind : Option (Bool × Sorted) = (do
      curr ← place_loop rounds first (s.key new) s
      some (false, link_behind curr new s)) in
    if leb (s.key new) (s.key first) then some (true, in_front first new s) else behind

unfoldable pub insert : (rounds new : ℕ) → Sorted → Option (Bool × Sorted)
insert rounds new s = insert_by rounds new s.head s

-- `add_task`: none from `alloc` changes nothing.
unfoldable pub add_task : (rounds : ℕ) → Option ℕ → (priority : ℕ) → Sorted → Option Sorted
add_task rounds none priority s = some s
add_task rounds (some new) priority s = do
  (first, t) ← insert rounds new (record s { key = update s.key new priority })
  some t

-- `if (head) head->prev = NULL`
abbrev pub clear_prev : Option ℕ → Sorted → Sorted
clear_prev none s = s
clear_prev (some i) s = record s { prev = update s.prev i none }

-- `execute_task`: the task whose callback is run, and the list after it; none for an empty list,
-- where the code reads through NULL.
unfoldable pub execute_task : Sorted → Option (ℕ × Sorted)
execute_task s = elim s.head [
  | none ↦ none
  | some task ↦ some (task, clear_prev (s.next task) (record s { head = s.next task }))
]

-- The timers, the interrupt of the timer, and the value last written to its register.
pub record Timers : Type 0 where
  pub list : Sorted
  pub irq : Bool
  pub tval : ℕ

-- `add_timer` at the time `curr_tick`; an unsigned long long has 64 bits.
unfoldable pub add_timer : (rounds : ℕ) → Option ℕ → (curr_tick tick : ℕ) → Timers → Option Timers
add_timer rounds none curr_tick tick s = some s
add_timer rounds (some new) curr_tick tick s = do
  let expiration = (curr_tick + tick) % 2 ^ 64
  (reset, l) ← insert rounds new (record s.list { key = update s.list.key new expiration })
  some (record {
    list = l;
    irq = true;
    tval = if reset then (expiration + 2 ^ 64 - curr_tick) % 2 ^ 64 else s.tval;
  })

-- `while (timer_head != NULL && timer_head->expiration <= curr_tick)`: the timers whose callbacks
-- are run, in order, and the list after them. `callback` is what the callback of a timer does to
-- the list.
unfoldable pub expire_loop :
    (callback : ℕ → Sorted → Sorted) (rounds curr_tick : ℕ) → Sorted → Option (List ℕ × Sorted)
expire_loop callback zero curr_tick s = none
expire_loop callback (suc n) curr_tick s = elim s.head [
  | none ↦ some ([], s)
  | some timer ↦
      let popped = clear_prev (s.next timer) (record s { head = s.next timer }) in
      let rest : Option (List ℕ × Sorted) = (do
        (run, t) ← expire_loop callback n curr_tick (callback timer popped)
        some (timer ∷ run, t)) in
      if leb (s.key timer) curr_tick then rest else some ([], s)
]

-- Resetting the timer at the end of `core_timer_handler`.
abbrev pub rearm : (ran : List ℕ) → Option ℕ → (curr_tick : ℕ) → Timers → Timers
rearm [] head curr_tick s = s
rearm (x ∷ ran) none curr_tick s = s
rearm (x ∷ ran) (some first) curr_tick s = record s {
  tval = (s.list.key first + 2 ^ 64 - curr_tick) % 2 ^ 64;
  irq = true;
}

-- `core_timer_handler`, up to the call of `schedule`.
unfoldable pub core_timer_handler :
    (callback : ℕ → Sorted → Sorted) (rounds curr_tick : ℕ) → Timers → Option (List ℕ × Timers)
core_timer_handler callback rounds curr_tick s = do
  (ran, l) ← expire_loop callback rounds curr_tick s.list
  some (ran, rearm ran l.head curr_tick (record s { list = l; irq = false }))
