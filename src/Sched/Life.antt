-- ===== src/Sched/Life.antt =====
-- src/sched.c: `_kill`, `_exit` and `kill_zombies`, with the queue operations on a state.
use nycu_osdi.Prelude.{
  ◌>>=◌, ℕ, zero, suc, Option, none, some, List, [], ◌∷◌, if◌then◌else◌, points_to,
}
use nycu_osdi.Prelude.Int.{ℤ, pos, negsuc}
use nycu_osdi.Sched.{
  Sched, Links, task_exited, rm_thread_task, get_thread_task_by_id, with_ready, with_wait,
  with_zombie, add_zombie, set_state, schedule,
}

unfoldable pub rm_ready : (rounds task : ℕ) → Sched → Option Sched
rm_ready rounds task s = do
  q ← rm_thread_task rounds task (s.ready_queue, s.next)
  some (with_ready q s)

unfoldable pub rm_wait : (rounds task : ℕ) → Sched → Option Sched
rm_wait rounds task s = do
  q ← rm_thread_task rounds task (s.wait_queue, s.next)
  some (with_wait q s)

-- The lines that `_exit` and `_kill` share: off the queues, and exited.
unfoldable pub retire : (rounds task : ℕ) → Sched → Option Sched
retire rounds task s = do
  s₁ ← rm_ready rounds task s
  s₂ ← rm_wait rounds task s₁
  some (set_state task task_exited s₂)

-- `_exit`, by the current thread.
unfoldable pub exit_by : ℕ → Option ℕ → Sched → Option Sched
exit_by rounds none s = some s
exit_by rounds (some curr) s = do t ← retire rounds curr s; schedule rounds t

unfoldable pub exit : ℕ → Sched → Option Sched
exit rounds s = exit_by rounds s.current s

-- `_kill`, by the result of `get_thread_task_by_id`: the return value and the state.
unfoldable pub kill_by : ℕ → Option ℕ → Sched → Option (ℤ × Sched)
kill_by rounds none s = some (negsuc 0, s)
kill_by rounds (some task) s = do
  t ← retire rounds task s
  u ← if points_to t.current task then schedule rounds t else add_zombie rounds task t
  some (pos 0, u)

unfoldable pub kill : (rounds pid : ℕ) → Sched → Option (ℤ × Sched)
kill rounds pid s = do found ← get_thread_task_by_id rounds pid s; kill_by rounds found s

-- `kill_zombies`: the threads that are given to `free` with their stacks, in order, and the queue
-- after it.
unfoldable pub zombie_loop : ℕ → Links → Option (List ℕ × Links)
zombie_loop rounds (none, next) = some ([], (none, next))
zombie_loop zero (some zombie, next) = none
zombie_loop (suc n) (some zombie, next) = do
  (freed, q) ← zombie_loop n (next zombie, next)
  some (zombie ∷ freed, q)

unfoldable pub kill_zombies : ℕ → Sched → Option (List ℕ × Sched)
kill_zombies rounds s = do
  (freed, q) ← zombie_loop rounds (s.zombie_queue, s.next)
  some (freed, with_zombie q s)
