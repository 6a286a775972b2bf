-- ===== src/Syscall/Entry.antt =====
-- src/exception.c: `syscall_entry` and `el0_sync_entry`.
use nycu_osdi.Prelude.{
  ℕ, ◌/◌, ◌%◌, ◌^◌, Bool, true, false, not, Option, none, some, List, [], ◌==◌, if◌then◌else◌,
  ◌>>=◌, update,
}
use nycu_osdi.Prelude.Int.{ℤ}
use nycu_osdi.Vfs.Files.{Ops, Copies}
use nycu_osdi.Syscall.{
  Sys, sys_getpid, sys_uart_read, sys_uart_write, sys_fork, sys_exit, sys_kill, sys_signal,
  sys_sigkill, Delivery, check_pending_signals,
}
use nycu_osdi.Syscall.Files.{
  sys_open, sys_close, sys_write, sys_read, sys_mkdir, sys_mount, sys_chdir, sys_lseek64, sys_ioctl,
}
use nycu_osdi.Syscall.Create.{ThreadMemory, sys_exec, sys_mbox_call, sys_sigreturn}

-- What the handlers take from outside: the operations of the file systems, the rounds of their loops,
-- the strings by their address, none for NULL, what `alloc` and `strdup` give, the devices, the archive,
-- and the addresses of the two default handlers.
pub record Env (σ : Type 0) : Type 0 where
  pub ops : Ops σ
  pub rounds : ℕ
  pub text : ℕ → Option (List ℕ)
  pub copies : Copies
  pub copied : Bool
  pub file : Option ℕ
  pub mount : Option ℕ
  pub names : List (List ℕ)
  pub thread : ThreadMemory
  pub exec_addr : Option ℕ
  pub archive : List ℕ
  pub uart_getn : ℕ → List ℕ
  pub uart_putn : List ℕ → ℕ
  pub mailbox : ℕ → (ℕ → ℕ) → ℕ × (ℕ → ℕ)
  pub framebuffer_ioctl : ℕ → ℤ × List ℕ
  pub saved : ℕ → ℕ → ℕ
  pub default_handler : ℕ
  pub default_sigkill_handler : ℕ

module _ {σ : Type 0} (e : Env σ) where
  -- The handlers from SYS_OPEN_NUM on.
  unfoldable pub file_entry : (syscall_num : ℕ) → Sys σ → Option (Sys σ)
  file_entry syscall_num s =
      if syscall_num == 11
      then sys_open e.ops e.copies e.file (e.text (s.x 0)) s
      else if syscall_num == 12
      then some (sys_close e.ops s)
      else if syscall_num == 13
      then sys_write e.ops s
      else if syscall_num == 14
      then sys_read e.ops s
      else if syscall_num == 15
      then sys_mkdir e.ops e.copies (e.text (s.x 0)) s
      else if syscall_num == 16
      then sys_mount e.ops e.copied e.mount e.names (e.text (s.x 1)) (e.text (s.x 2)) s
      else if syscall_num == 17
      then sys_chdir e.ops e.copied (e.text (s.x 0)) s
      else if syscall_num == 18
      then sys_lseek64 e.ops s
      else if syscall_num == 19
      then sys_ioctl e.ops e.framebuffer_ioctl s
      else some s

  unfoldable pub syscall_number : (syscall_num : ℕ) → Sys σ → Option (Sys σ)
  syscall_number syscall_num s =
      if syscall_num == 0
      then some (sys_getpid s)
      else if syscall_num == 1
      then sys_uart_read e.uart_getn s
      else if syscall_num == 2
      then some (sys_uart_write e.uart_putn s)
      else if syscall_num == 3
      then sys_exec e.ops e.default_handler e.default_sigkill_handler e.rounds e.thread e.exec_addr
          e.archive (e.text (s.x 0)) s
      else if syscall_num == 4
      then sys_fork e.rounds e.thread.task e.thread.kernel_stack e.thread.user_stack s
      else if syscall_num == 5
      then sys_exit e.rounds s
      else if syscall_num == 6
      then sys_mbox_call e.mailbox s
      else if syscall_num == 7
      then sys_kill e.rounds s
      else if syscall_num == 8
      then some (sys_signal s)
      else if syscall_num == 9
      then sys_sigkill e.rounds s
      else if syscall_num == 10
      then some (sys_sigreturn e.saved s)
      else file_entry syscall_num s

  -- `x8` holds the number; an unknown one is only printed.
  unfoldable pub syscall_entry : Sys σ → Option (Sys σ)
  syscall_entry s = syscall_number (s.x 8) s

  -- `next == NULL || next == prev` of `schedule` is false.
  abbrev pub is_other : (prev : ℕ) → Option ℕ → Bool
  is_other prev none = false
  is_other prev (some next) = not (next == prev)

  -- `check_pending_signals(get_current(), trapframe)`, which dereferences the current thread.
  unfoldable pub check_current : Option ℕ → Sys σ → Option (List Delivery × Sys σ)
  check_current none s = none
  check_current (some curr) s =
      let r =
        check_pending_signals e.default_handler e.default_sigkill_handler
          (is_other curr s.sched.ready_queue) (s.sig_handlers curr) (s.pending_sig curr) in
      some (r.0, record s { pending_sig = update s.pending_sig curr r.1 })

  -- The rest of the entry runs at once if no other thread is switched to; else it waits for its thread.
  abbrev pub same_thread : Option ℕ → Option ℕ → Bool
  same_thread none none = true
  same_thread (some a) (some b) = a == b
  same_thread _ _ = false

  -- `el0_sync_entry`: the exception class 0x15 is a system call, others are only printed.
  unfoldable pub el0_sync_entry : (esr_el1 : ℕ) → Sys σ → Option (List Delivery × Sys σ)
  el0_sync_entry esr_el1 s =
      (if esr_el1 / 2 ^ 26 % 64 == 0x15 then syscall_entry s else some s) >>= λ t.
      if same_thread s.sched.current t.sched.current
      then check_current t.sched.current t
      else some ([], t)
