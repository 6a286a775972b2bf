-- ===== src/Syscall/Isolation/Threads.antt =====
-- src/exception.c: `syscall_entry` leaves the threads that are neither current nor made; with `sys_fork` of
-- src/syscall.c and `thread_create` of src/sched.c.
use nycu_osdi.Prelude.{ℕ, Option, none, some}
use nycu_osdi.Syscall.{Sys}
use nycu_osdi.Syscall.Isolation.{Kept}

module _ {σ : Type 0} (t : ℕ) where
  -- The same for a call that makes a thread.
  data MadeKept (s : Sys σ) : Option (Option ℕ × Sys σ) → Type 0 where
    fault : MadeKept s none
    made : {s' : Sys σ} (o : Option ℕ) → Kept t s s' → MadeKept s (some (o, s'))
