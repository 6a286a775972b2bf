-- ===== src/Sched.antt =====
-- src/sched.c: the three queues of threads, and the scheduler over them.
--
-- A `struct ThreadTask *` is a number, none for NULL; the queues are linked through the field
-- `next` of all threads, a function from numbers. A loop along `next` is given its number of
-- rounds, and the result none says that they did not suffice or that the code uses NULL.
pub mod Exit
pub mod Find
pub mod Kill
pub mod Life
pub mod Links
pub mod Queues
pub mod Retire
pub mod Switch
mod Tests
use nycu_osdi.Prelude.{
  ◌>>=◌, ℕ, zero, suc, Bool, true, false, Option, none, some, ◌==◌, if◌then◌else◌, update,
}

abbrev pub task_ready : ℕ
task_ready = 0

abbrev pub task_running : ℕ
task_running = 1

abbrev pub task_blocked : ℕ
task_blocked = 2

abbrev pub task_exited : ℕ
task_exited = 3

-- The fields of the threads that the scheduler reads, the queues, the thread that `get_current`
-- gives, and whether the interrupts of the processor and of the timer are on.
pub record Sched : Type 0 where
  pub next : ℕ → Option ℕ
  pub id : ℕ → ℕ
  pub state : ℕ → ℕ
  pub ready_queue : Option ℕ
  pub wait_queue : Option ℕ
  pub zombie_queue : Option ℕ
  pub current : Option ℕ
  pub irq : Bool
  pub timer_irq : Bool

-- A queue: its head and the field `next` of the threads.
abbrev pub Links : Type 0
Links = Option ℕ × (ℕ → Option ℕ)

-- `while (current->next != NULL) current = current->next`
pub last_loop : (rounds current : ℕ) → (ℕ → Option ℕ) → Option ℕ
last_loop zero current next = none
last_loop (suc n) current next = elim (next current) [
  | none ↦ some current
  | some following ↦ last_loop n following next
]

-- `current->next = task; task->next = NULL`
abbrev pub link_last : ℕ → Links → Option ℕ → Option Links
link_last task q none = none
link_last task q (some last) = some (q.0, update (update q.1 last (some task)) task none)

unfoldable pub add_thread_task : (rounds task : ℕ) → Links → Option Links
add_thread_task rounds task (none, next) = some (some task, update next task none)
add_thread_task rounds task (some first, next) =
    link_last task (some first, next) (last_loop rounds first next)

-- The thread and the queue after it, none for NULL.
abbrev pub pop_thread_task : Links → Option (ℕ × Links)
pop_thread_task (none, next) = none
pop_thread_task (some first, next) = some (first, (next first, next))

-- `current` leaves the list, by the thread in front of it.
abbrev pub bypass : Option ℕ → ℕ → Links → Links
bypass none current q = (q.1 current, q.1)
bypass (some prev) current q = (q.0, update q.1 prev (q.1 current))

pub rm_loop : ℕ → (prev current : Option ℕ) → (task : ℕ) → Links → Option Links
rm_loop rounds prev none task q = some q
rm_loop zero prev (some current) task q = none
rm_loop (suc n) prev (some current) task q =
    let rest = rm_loop n (some current) (q.1 current) task q in
    if current == task then some (bypass prev current q) else rest

unfoldable pub rm_thread_task : (rounds task : ℕ) → Links → Option Links
rm_thread_task rounds task q = rm_loop rounds none q.0 task q

-- The two loops of `get_thread_task_by_id`, which read `id`.
pub find_loop : ℕ → Option ℕ → ℕ → Sched → Option (Option ℕ)
find_loop rounds none pid s = some none
find_loop zero (some current) pid s = none
find_loop (suc n) (some current) pid s =
    let rest = find_loop n (s.next current) pid s in
    if s.id current == pid then some (some current) else rest

-- The second loop runs if the first found nothing.
unfoldable pub or_else : Option (Option ℕ) → Option (Option ℕ) → Option (Option ℕ)
or_else none second = none
or_else (some none) second = second
or_else (some (some task)) second = some (some task)

unfoldable pub get_thread_task_by_id : (rounds pid : ℕ) → Sched → Option (Option ℕ)
get_thread_task_by_id rounds pid s =
    or_else (find_loop rounds s.ready_queue pid s) (find_loop rounds s.wait_queue pid s)

-- The results of the queue operations, stored back.
abbrev pub with_ready : Links → Sched → Sched
with_ready q s = record s { ready_queue = q.0; next = q.1 }

abbrev pub with_wait : Links → Sched → Sched
with_wait q s = record s { wait_queue = q.0; next = q.1 }

abbrev pub with_zombie : Links → Sched → Sched
with_zombie q s = record s { zombie_queue = q.0; next = q.1 }

unfoldable pub add_ready : (rounds task : ℕ) → Sched → Option Sched
add_ready rounds task s = do
  q ← add_thread_task rounds task (s.ready_queue, s.next)
  some (with_ready q s)

unfoldable pub add_wait : (rounds task : ℕ) → Sched → Option Sched
add_wait rounds task s = do
  q ← add_thread_task rounds task (s.wait_queue, s.next)
  some (with_wait q s)

unfoldable pub add_zombie : (rounds task : ℕ) → Sched → Option Sched
add_zombie rounds task s = do
  q ← add_thread_task rounds task (s.zombie_queue, s.next)
  some (with_zombie q s)

abbrev pub set_state : ℕ → ℕ → Sched → Sched
set_state task v s = record s { state = update s.state task v }

abbrev pub enable : Sched → Sched
enable s = record s { irq = true; timer_irq = true }

-- The last part of `schedule`: `cpu_switch_to` makes `next` the current thread.
unfoldable pub switch_to : ℕ → Sched → Option Sched
switch_to next s = do
  (task, q) ← pop_thread_task (s.ready_queue, s.next)
  some (record (with_ready q (set_state next task_running s)) {
    timer_irq = true;
    current = some task;
  })

-- The branches on the state of the thread that ran.
unfoldable pub requeue : (rounds prev next : ℕ) → Sched → Option Sched
requeue rounds prev next s =
    let st = s.state prev in
    if st == task_running
    then (do t ← add_ready rounds prev (set_state prev task_ready s); switch_to next t)
    else if st == task_blocked
    then (do t ← add_wait rounds prev s; switch_to next t)
    else if st == task_exited
    then (do t ← add_zombie rounds prev s; switch_to next t)
    else if st == task_ready
    then switch_to next s
    else some (enable s)

-- `schedule` with a current thread, by the head of the ready queue.
unfoldable pub schedule_from : (rounds prev : ℕ) → Option ℕ → Sched → Option Sched
schedule_from rounds prev none s = some (enable s)
schedule_from rounds prev (some next) s =
    if next == prev then some (enable s) else requeue rounds prev next s

-- `schedule` without one.
unfoldable pub schedule_first : Option ℕ → Sched → Option Sched
schedule_first none s = none
schedule_first (some first) s =
    some (record (set_state first task_running s) { current = some first })

abbrev pub schedule_by : ℕ → Option ℕ → Sched → Option Sched
schedule_by rounds none s = schedule_first s.ready_queue s
schedule_by rounds (some prev) s = schedule_from rounds prev s.ready_queue s

unfoldable pub schedule : ℕ → Sched → Option Sched
schedule rounds s = schedule_by rounds s.current (record s { irq = false; timer_irq = false })
