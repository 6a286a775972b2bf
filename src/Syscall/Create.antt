-- ===== src/Syscall/Create.antt =====
-- src/sched.c: `thread_create`; src/exec.c; src/mailbox.c; and the system calls over them. Of a new
-- thread the stacks, the registers, the priority and `cwd` are left out.
use nycu_osdi.Prelude.{
  ℕ, ◌+◌, ◌*◌, ◌/◌, ◌%◌, ◌^◌, false, Option, none, some, List, [], ◌∷◌, ◌==◌, ltb, if◌then◌else◌,
  ◌>>=◌, update,
}
use nycu_osdi.Sched.{task_ready, add_ready}
use nycu_osdi.Cpio.{cpio_get_file_size}
use nycu_osdi.Vfs.Files.{Ops, Copies, vfs_open}
use nycu_osdi.Syscall.{Sys, hits, give, set_fd}

-- What `alloc` gives for a thread: the thread, its two stacks, and the three files, with the copies of
-- their path.
pub record ThreadMemory : Type 0 where
  pub task : Option ℕ
  pub kernel_stack : Option ℕ
  pub user_stack : Option ℕ
  pub copies : Copies
  pub stdin : Option ℕ
  pub stdout : Option ℕ
  pub stderr : Option ℕ

-- SIGKILL
abbrev pub sigkill : ℕ
sigkill = 9

-- "/dev/uart"
abbrev pub dev_uart : List ℕ
dev_uart = 47 ∷ 100 ∷ 101 ∷ 118 ∷ 47 ∷ 117 ∷ 97 ∷ 114 ∷ 116 ∷ []

module _ {σ : Type 0} (default_handler default_sigkill_handler : ℕ) where
  -- The fields of the thread.
  unfoldable pub new_task : (task : ℕ) → Sys σ → Sys σ
  new_task task s = record s {
    sched = record s.sched {
      id = update s.sched.id task s.thread_cnt;
      state = update s.sched.state task task_ready;
      next = update s.sched.next task none;
    };
    thread_cnt = (s.thread_cnt + 1) % 2 ^ 32;
    pending_sig = update s.pending_sig task (λ sig. false);
    sig_handlers =
        update s.sig_handlers task
          (λ sig. if sig == sigkill then default_sigkill_handler else default_handler);
    fd_table = update s.fd_table task (λ fd. none);
  }

module _ {σ : Type 0} where
  -- `_exec` behind the loading of the file: the new thread is the current one, and stays queued. A
  -- pointer -1 is dereferenced.
  abbrev pub enter : Option ℕ × Sys σ → Option (Sys σ)
  enter (none, s) = none
  enter (some t, s) = some (record s { sched = record s.sched { current = some t } })

module _ {σ : Type 0} (ops : Ops σ) where
  -- `vfs_open("/dev/uart", 0, &task->fd_table[fd])`
  unfoldable pub open_standard : (task fd : ℕ) → Copies → (file : Option ℕ) → Sys σ → Option (Sys σ)
  open_standard task fd m file s = vfs_open ops m file (some dev_uart) 0 s.fs >>= λ r.
      some (set_fd task fd r.target (record s { fs = r.state }))

  module _ (default_handler default_sigkill_handler : ℕ) where
    -- The new thread, none for the return value -1, and the state.
    unfoldable pub create_from :
        (rounds : ℕ) (m : ThreadMemory)
        → (task kernel_stack user_stack : Option ℕ) → Sys σ
        → Option (Option ℕ × Sys σ)
    create_from rounds m none kernel_stack user_stack s = some (none, s)
    create_from rounds m (some t) none user_stack s =
        some (none, record s { thread_cnt = (s.thread_cnt + 1) % 2 ^ 32 })
    create_from rounds m (some t) (some k) none s =
        some (none, record s { thread_cnt = (s.thread_cnt + 1) % 2 ^ 32 })
    create_from rounds m (some t) (some k) (some u) s =
        open_standard t 0 m.copies m.stdin (new_task default_handler default_sigkill_handler t s)
        >>= λ s₀. open_standard t 1 m.copies m.stdout s₀ >>= λ s₁.
            open_standard t 2 m.copies m.stderr s₁ >>= λ s₂.
            add_ready rounds t s₂.sched >>= λ q. some (some t, record s₂ { sched = q })

    unfoldable pub thread_create : (rounds : ℕ) → ThreadMemory → Sys σ → Option (Option ℕ × Sys σ)
    thread_create rounds m s = create_from rounds m m.task m.kernel_stack m.user_stack s

    -- `exec_addr` is what `alloc` gives for the file; an empty or missing file, or no memory, is a
    -- return.
    unfoldable pub exec_sized :
        (rounds : ℕ)
        → ThreadMemory
        → (exec_addr : Option ℕ) → (exec_size : ℕ) → Sys σ
        → Option (Sys σ)
    exec_sized rounds m none exec_size s = some s
    exec_sized rounds m (some exec_addr) exec_size s =
        if exec_size == 0 then some s else (thread_create rounds m s >>= λ r. enter r)

    unfoldable pub exec :
        (rounds : ℕ)
        → ThreadMemory
        → (exec_addr : Option ℕ) → (archive filename : List ℕ) → Sys σ
        → Option (Sys σ)
    exec rounds m exec_addr archive filename s =
        cpio_get_file_size rounds filename archive >>= λ exec_size.
        exec_sized rounds m exec_addr exec_size s

    unfoldable pub sys_exec :
        (rounds : ℕ)
        → ThreadMemory
        → (exec_addr : Option ℕ) → (archive : List ℕ) → (name : Option (List ℕ)) → Sys σ
        → Option (Sys σ)
    sys_exec rounds m exec_addr archive none s = some s
    sys_exec rounds m exec_addr archive (some []) s = some s
    sys_exec rounds m exec_addr archive (some (c ∷ name)) s =
        exec rounds m exec_addr archive (c ∷ name) s

-- A word of four bytes in memory.
abbrev pub load_word : (ℕ → ℕ) → ℕ → ℕ
load_word mem a = mem a + mem (a + 1) * 2 ^ 8 + mem (a + 2) * 2 ^ 16 + mem (a + 3) * 2 ^ 24

-- `((unsigned int)mbox & ~0xF) | (channel & 0xF)`
abbrev pub mailbox_message : (mbox channel : ℕ) → ℕ
mailbox_message mbox channel = mbox % 2 ^ 32 / 16 * 16 + channel % 16

-- `mbox[0]` where the device reads it: the message has so many bytes.
abbrev pub message_size : (mbox : ℕ) → (ℕ → ℕ) → ℕ
message_size mbox mem = load_word mem (mailbox_message mbox 0)

-- `mailbox_call`: the device answers a message with a word, and with the memory after it; the result
-- is 1 for the answer to this message with bit 31 in `mbox[1]`.
unfoldable pub mailbox_call :
    (device : ℕ → (ℕ → ℕ) → ℕ × (ℕ → ℕ)) → (mbox channel : ℕ) → (ℕ → ℕ) → ℕ × (ℕ → ℕ)
mailbox_call device mbox channel mem =
    let msg = mailbox_message mbox channel in
    let r = device msg mem in
    if msg == r.0
    then (if load_word r.1 (mbox + 4) / 2 ^ 31 % 2 == 1 then (1, r.1) else (0, r.1))
    else (0, r.1)

module _ {σ : Type 0} where
  -- The results of `mailbox_call` for the caller. The device writes in the message, of `mbox[0]` bytes.
  abbrev pub give_mbox : (mbox : ℕ) → ℕ × (ℕ → ℕ) → Sys σ → Sys σ
  give_mbox mbox r s =
      let s' = record s { mem = r.1 } in if r.0 == 0 then s' else give (load_word r.1 (mbox + 4)) s'

  unfoldable pub sys_mbox_call : (device : ℕ → (ℕ → ℕ) → ℕ × (ℕ → ℕ)) → Sys σ → Option (Sys σ)
  sys_mbox_call device s =
      let channel = s.x 0 % 256 in
      if s.x 1 == 0
      then some s
      else if ltb 16 channel
      then some s
      else if hits s.kernel (mailbox_message (s.x 1) 0) (message_size (s.x 1) s.mem)
      then none
      else some (give_mbox (s.x 1) (mailbox_call device (s.x 1) channel s.mem) s)

  -- `saved` is the memory from the field `sig_frame` of a thread on, in registers.
  unfoldable pub sys_sigreturn : (saved : ℕ → ℕ → ℕ) → Sys σ → Sys σ
  sys_sigreturn saved s = elim (s.sched.current) [
    | none ↦ s
    | some curr ↦ record s { x = saved curr }
  ]
