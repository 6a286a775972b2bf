-- ===== src/Syscall.antt =====
-- src/syscall.c: the handlers of the system calls, and src/signal.c: the delivery of signals.
--
-- A register of the trap frame is a number below 2 ^ 64, and -1 is 2 ^ 64 - 1. The string that a
-- register points to is an argument, none for NULL; the bytes of other buffers are in `mem`. The
-- `thread_cnt` wraps at 2 ^ 32. The calls store through pointers that they do not check: `kernel` says
-- which addresses hold the kernel's own data, and a store there is out of the model, with the result none.
-- The mask `pending_sig` is the function of its bits. What `alloc` returns is an argument.
pub mod Create
pub mod Entry
pub mod Files
pub mod Fork
pub mod Isolation
pub mod Descriptors
pub mod Directory
pub mod Signals
mod Tests
mod EntryTests
use nycu_osdi.Prelude.{
  ℕ, zero, suc, ◌+◌, ◌-◌, ◌%◌, ◌^◌, Bool, true, false, not, Option, none, some, List, [], ◌∷◌, ◌==◌,
  ◌||◌, leb, ltb, if◌then◌else◌, ◌>>=◌, update, length,
}
use nycu_osdi.Prelude.Int.{ℤ, pos, negsuc}
use nycu_osdi.Sched.{Sched, task_ready, add_ready, get_thread_task_by_id}
use nycu_osdi.Sched.Life.{exit, kill}

abbrev pub thread_max_fd : ℕ
thread_max_fd = 16

abbrev pub sig_num : ℕ
sig_num = 32

-- The registers, the memory of the user, the threads and their tables, and the file systems. A
-- handler is an address, 0 for NULL.
pub record Sys (σ : Type 0) : Type 0 where
  pub x : ℕ → ℕ
  pub mem : ℕ → ℕ
  pub kernel : ℕ → Bool
  pub sched : Sched
  pub thread_cnt : ℕ
  pub fd_table : ℕ → ℕ → Option ℕ
  pub pending_sig : ℕ → ℕ → Bool
  pub sig_handlers : ℕ → ℕ → ℕ
  pub fs : σ

-- An int in a register of 64 bits.
abbrev pub to_register : ℤ → ℕ
to_register (pos n) = n
to_register (negsuc n) = 2 ^ 64 - 1 - n

-- A register cut to an int that is an index: the negative ones are the patterns from 2 ^ 31 on.
abbrev pub index_of : ℕ → ℕ
index_of r = r % 2 ^ 32

-- The size that `sys_uart_read` and `sys_uart_write` use, none for the early returns.
unfoldable pub uart_size : (size buf : ℕ) → Option ℕ
uart_size size buf =
    if leb (2 ^ 31) size || (size == 0)
    then none
    else if buf == 0
    then none
    else if ltb 4096 size
    then some 4096
    else some size

unfoldable pub store_bytes : ℕ → List ℕ → (ℕ → ℕ) → ℕ → ℕ
store_bytes buf [] mem = mem
store_bytes buf (b ∷ bytes) mem = store_bytes (buf + 1) bytes (update mem buf b)

unfoldable pub load_bytes : (count buf : ℕ) → (ℕ → ℕ) → List ℕ
load_bytes zero buf mem = []
load_bytes (suc n) buf mem = mem buf ∷ load_bytes n (buf + 1) mem

-- Is one of the `n` addresses from `buf` on in the kernel's own data?
unfoldable pub hits : (kernel : ℕ → Bool) → (buf n : ℕ) → Bool
hits kernel buf zero = false
hits kernel buf (suc n) = let rest = hits kernel (buf + 1) n in if kernel buf then true else rest

module _ {σ : Type 0} where
  -- `trapframe->x[0] = v`
  abbrev pub give : ℕ → Sys σ → Sys σ
  give v s = record s { x = update s.x 0 v }

  -- `trapframe->x[0] = -1`
  abbrev pub give_error : Sys σ → Sys σ
  give_error s = give (to_register (negsuc 0)) s

  -- The bytes are stored at a pointer of the user.
  unfoldable pub to_user : (buf : ℕ) → List ℕ → Sys σ → Option (Sys σ)
  to_user buf bytes s =
      if hits s.kernel buf (length bytes)
      then none
      else some (record s { mem = store_bytes buf bytes s.mem })

  -- `curr->fd_table[fd] = file`
  abbrev pub set_fd : (thread fd : ℕ) → Option ℕ → Sys σ → Sys σ
  set_fd thread fd file s = record s {
    fd_table = update s.fd_table thread (update (s.fd_table thread) fd file);
  }

  unfoldable pub sys_getpid : Sys σ → Sys σ
  sys_getpid s = elim (s.sched.current) [ none ↦ s | some curr ↦ give (s.sched.id curr) s ]

  unfoldable pub sys_exit : (rounds : ℕ) → Sys σ → Option (Sys σ)
  sys_exit rounds s = (exit rounds s.sched >>= λ t. some (record s { sched = t }))

  -- The result of `_kill` is only printed.
  unfoldable pub sys_kill : (rounds : ℕ) → Sys σ → Option (Sys σ)
  sys_kill rounds s =
      (kill rounds (index_of (s.x 0)) s.sched >>= λ r. some (record s { sched = r.1 }))

  -- `uart_getn` gives the characters that it reads for a size.
  unfoldable pub sys_uart_read : (uart_getn : ℕ → List ℕ) → Sys σ → Option (Sys σ)
  sys_uart_read uart_getn s = elim (uart_size (index_of (s.x 1)) (s.x 0)) [
    | none ↦ some s
    | some n ↦
        let bytes = uart_getn n in (to_user (s.x 0) bytes s >>= λ t. some (give (length bytes) t))
  ]

  -- `uart_putn` gives the number that it has sent.
  unfoldable pub sys_uart_write : (uart_putn : List ℕ → ℕ) → Sys σ → Sys σ
  sys_uart_write uart_putn s = elim (uart_size (index_of (s.x 1)) (s.x 0)) [
    | none ↦ s
    | some n ↦ give (uart_putn (load_bytes n (s.x 0) s.mem)) s
  ]

  unfoldable pub sys_signal : Sys σ → Sys σ
  sys_signal s = elim (s.sched.current) [
    | none ↦ s
    | some curr ↦
        let sig = index_of (s.x 0) in
        if leb sig_num sig
        then s
        else give (s.sig_handlers curr sig) (record s {
          sig_handlers = update s.sig_handlers curr (update (s.sig_handlers curr) sig (s.x 1));
        })
  ]

  -- `task->pending_sig |= 1 << sig`, and the bit taken away.
  abbrev pub set_pending : (task sig : ℕ) → Bool → Sys σ → Sys σ
  set_pending task sig b s = record s {
    pending_sig = update s.pending_sig task (update (s.pending_sig task) sig b);
  }

  unfoldable pub sigkill_task : (sig : ℕ) → Option ℕ → Sys σ → Sys σ
  sigkill_task sig none s = s
  sigkill_task sig (some task) s = if leb sig_num sig then s else set_pending task sig true s

  unfoldable pub sys_sigkill : (rounds : ℕ) → Sys σ → Option (Sys σ)
  sys_sigkill rounds s =
      (get_thread_task_by_id rounds (index_of (s.x 0)) s.sched >>= λ task.
      some (sigkill_task (index_of (s.x 1)) task s))

  -- The new thread of `sys_fork` before it is queued: `fd_table` and `cwd` are not written.
  abbrev pub fork_child : (parent child : ℕ) → Sys σ → Sys σ
  fork_child parent child s = record s {
    sched = record s.sched {
      id = update s.sched.id child s.thread_cnt;
      state = update s.sched.state child task_ready;
      next = update s.sched.next child none;
    };
    thread_cnt = (s.thread_cnt + 1) % 2 ^ 32;
    pending_sig = update s.pending_sig child (s.pending_sig parent);
    sig_handlers = update s.sig_handlers child (s.sig_handlers parent);
  }

  -- `sys_fork` by the current thread; `child`, `kernel_stack` and `user_stack` are what `alloc` returns.
  -- A failure for a stack comes after `thread_cnt++`.
  unfoldable pub fork_by :
      (rounds : ℕ) → (parent child kernel_stack user_stack : Option ℕ) → Sys σ → Option (Sys σ)
  fork_by rounds none child kernel_stack user_stack s = some s
  fork_by rounds (some parent) none kernel_stack user_stack s = some (give_error s)
  fork_by rounds (some parent) (some c) none user_stack s =
      some (give_error (record s { thread_cnt = (s.thread_cnt + 1) % 2 ^ 32 }))
  fork_by rounds (some parent) (some c) (some k) none s =
      some (give_error (record s { thread_cnt = (s.thread_cnt + 1) % 2 ^ 32 }))
  fork_by rounds (some parent) (some c) (some k) (some u) s =
      let s' = fork_child parent c s in
      (add_ready rounds c s'.sched >>= λ t. some (give s.thread_cnt (record s' { sched = t })))

  unfoldable pub sys_fork :
      (rounds : ℕ) → (child kernel_stack user_stack : Option ℕ) → Sys σ → Option (Sys σ)
  sys_fork rounds child kernel_stack user_stack s =
      fork_by rounds s.sched.current child kernel_stack user_stack s

-- What `handle_signal` does with a signal: nothing without a handler, the default handler in the
-- kernel, `_exit`, or the handler of the user, to which `eret` jumps.
pub data Delivery : Type 0 where
  ignored : ℕ → Delivery
  printed : ℕ → Delivery
  exited : ℕ → Delivery
  jumped : ℕ → Delivery

-- Does the loop go on? `eret` does not return, nor does `_exit` if another thread is ready; without one
-- `schedule` returns at once, and `_exit` does.
abbrev pub goes_on : (other_ready : Bool) → Delivery → Bool
goes_on other_ready (ignored n) = true
goes_on other_ready (printed n) = true
goes_on other_ready (exited n) = not other_ready
goes_on other_ready (jumped n) = false

module _ (default_handler default_sigkill_handler : ℕ) where
  unfoldable pub handle_signal : (sig handler : ℕ) → Delivery
  handle_signal sig handler =
      if handler == 0
      then ignored sig
      else if handler == default_handler
      then printed sig
      else if handler == default_sigkill_handler
      then exited sig
      else jumped sig

  -- The loop of `check_pending_signals` from signal `sig` on: the signals handled, and the mask. Whether
  -- another thread leads the ready queue is `other_ready`.
  unfoldable pub check_loop :
      (other_ready : Bool)
      → (rounds sig : ℕ) → (handlers : ℕ → ℕ) → (pending : ℕ → Bool) → List Delivery × (ℕ → Bool)
  check_loop other_ready zero sig handlers pending = ([], pending)
  check_loop other_ready (suc n) sig handlers pending = elim (pending sig) [
    | false ↦ check_loop other_ready n (sig + 1) handlers pending
    | true ↦
        let d = handle_signal sig (handlers sig) in
        let cleared = update pending sig false in
        let rest = check_loop other_ready n (sig + 1) handlers cleared in
        if goes_on other_ready d then (d ∷ rest.0, rest.1) else (d ∷ [], cleared)
  ]

  -- `check_pending_signals`; with an empty mask the loop does nothing either.
  unfoldable pub check_pending_signals :
      (other_ready : Bool) → (handlers : ℕ → ℕ) → (pending : ℕ → Bool) → List Delivery × (ℕ → Bool)
  check_pending_signals other_ready handlers pending =
      check_loop other_ready sig_num 0 handlers pending
