-- ===== src/Syscall/Isolation/Calls.antt =====
-- src/syscall.c: the system calls on threads, signals and devices, and `sys_open` and `sys_close`, leave the
-- other threads.
use nycu_osdi.Prelude.{
  ℕ, zero, suc, ◌≤◌, ◌<◌, ◌≡◌, ◌⊎◌, ◌∙◌, ap, ◌≢◌, refl, true, Option, none, some, List, arith, ◌==◌,
  leb, ltb, update, update_ne, ◌+◌, ◌%◌,
}
use nycu_osdi.Sched.{get_thread_task_by_id}
use nycu_osdi.Sched.Life.{exit, kill}
use nycu_osdi.Vfs.Files.{Ops, Copies, Opened}
use nycu_osdi.Syscall.{
  Sys, hits, to_user, sys_getpid, sys_uart_read, sys_uart_write, sys_exit, sys_kill, sys_signal,
  sys_sigkill, sigkill_task, set_pending, index_of, uart_size,
}
use nycu_osdi.Syscall.Files.{sys_open, sys_close, is_absent, open_in, open_loop, close_fd}
use nycu_osdi.Syscall.Create.{
  mailbox_message, message_size, sys_mbox_call, sys_sigreturn, give_mbox, mailbox_call,
}
use nycu_osdi.Syscall.Isolation.{
  Kept, AllKept, Kept-trans, mem-Kept, all_hits, hits-outside, then_kept, to_user-Kept, returned,
  kept, kept_if, all_if, kept_elim, all_elim, all_bind, Other,
}

-- The device writes in the message only.
abbrev pub Contained : (ℕ → (ℕ → ℕ) → ℕ × (ℕ → ℕ)) → Type 0
Contained d =
    (mbox channel a : ℕ) (mem : ℕ → ℕ)
    → (a < mailbox_message mbox 0) ⊎ (mailbox_message mbox 0 + message_size mbox mem ≤ a)
    → (d (mailbox_message mbox channel) mem).1 a ≡ mem a

mailbox_call-mem :
    (d : ℕ → (ℕ → ℕ) → ℕ × (ℕ → ℕ)) (mbox channel : ℕ) (mem : ℕ → ℕ)
    → (mailbox_call d mbox channel mem).1 ≡ (d (mailbox_message mbox channel) mem).1
unfolding mailbox_call
mailbox_call-mem d mbox channel mem = ground arith

module _ {σ : Type 0} (t : ℕ) where
  pub sys_getpid-Kept : (s : Sys σ) → Kept t s (sys_getpid s)
  unfolding sys_getpid
  sys_getpid-Kept s =
      kept_elim t s s.sched.current s _ (kept t s _ _ _ _) (λ curr e. kept t s _ _ _ _)

  pub sys_uart_read-Kept : (g : ℕ → List ℕ) (s : Sys σ) → AllKept t s (sys_uart_read g s)
  unfolding sys_uart_read
  sys_uart_read-Kept g s =
      all_elim t s (uart_size (index_of (s.x 1)) (s.x 0)) (some s) _ (returned (kept t s _ _ _ _))
        (λ n e.
          then_kept t s (to_user (s.x 0) (g n) s) _ (to_user-Kept t (s.x 0) (g n) s)
            (λ a. kept t a _ _ _ _))

  pub sys_uart_write-Kept : (g : List ℕ → ℕ) (s : Sys σ) → Kept t s (sys_uart_write g s)
  unfolding sys_uart_write
  sys_uart_write-Kept g s =
      kept_elim t s (uart_size (index_of (s.x 1)) (s.x 0)) s _ (kept t s _ _ _ _)
        (λ n e. kept t s _ _ _ _)

  pub sys_exit-Kept : (n : ℕ) (s : Sys σ) → AllKept t s (sys_exit n s)
  unfolding sys_exit
  sys_exit-Kept n s = all_bind t s (exit n s.sched) _ (λ q e. returned (kept t s _ _ _ _))

  pub sys_kill-Kept : (n : ℕ) (s : Sys σ) → AllKept t s (sys_kill n s)
  unfolding sys_kill
  sys_kill-Kept n s =
      all_bind t s (kill n (index_of (s.x 0)) s.sched) _ (λ q e. returned (kept t s _ _ _ _))

  set_pending-Kept : (task sig : ℕ) (s : Sys σ) → Kept t s (set_pending task sig true s)
  set_pending-Kept task sig s = record {
    files = refl;
    handlers = refl;
    signals = λ g h. ground (arith, h);
    same_kernel = refl;
    memory = λ a k. refl;
  }

  sigkill_task-Kept : (sig : ℕ) (task : Option ℕ) (s : Sys σ) → Kept t s (sigkill_task sig task s)
  unfolding sigkill_task
  sigkill_task-Kept sig none s = kept t s _ _ _ _
  sigkill_task-Kept sig (some task) s =
      kept_if t s (leb 32 sig) s (set_pending task sig true s) (kept t s _ _ _ _)
        (set_pending-Kept task sig s)

  pub sys_sigkill-Kept : (n : ℕ) (s : Sys σ) → AllKept t s (sys_sigkill n s)
  unfolding sys_sigkill
  sys_sigkill-Kept n s =
      all_bind t s (get_thread_task_by_id n (index_of (s.x 0)) s.sched) _
        (λ task e. returned (sigkill_task-Kept (index_of (s.x 1)) task s))

  give_mbox-Kept :
      (s : Sys σ) (mbox : ℕ) (r : ℕ × (ℕ → ℕ))
      → ((a : ℕ) → s.kernel a ≡ true → r.1 a ≡ s.mem a)
      → Kept t s (give_mbox mbox r s)
  give_mbox-Kept s mbox r same =
      let k = mem-Kept t s r.1 same in
      kept_if t s (r.0 == 0) _ _ k (Kept-trans t k (kept t (record s { mem = r.1 }) _ _ _ _))

  pub sys_mbox_call-Kept :
      (d : ℕ → (ℕ → ℕ) → ℕ × (ℕ → ℕ)) (s : Sys σ) → Contained d → AllKept t s (sys_mbox_call d s)
  unfolding sys_mbox_call
  sys_mbox_call-Kept d s contained = all_if t s (s.x 1 == 0) _ _ (returned (kept t s _ _ _ _)) (
      all_if t s (ltb 16 (s.x 0 % 256)) _ _ (returned (kept t s _ _ _ _)) (
        all_hits t s (hits s.kernel (mailbox_message (s.x 1) 0) (message_size (s.x 1) s.mem)) _
          (λ away. returned (
            give_mbox-Kept s (s.x 1) (mailbox_call d (s.x 1) (s.x 0 % 256) s.mem) (λ a k.
              ap (λ f. f a) (mailbox_call-mem d (s.x 1) (s.x 0 % 256) s.mem)
              ∙ contained (s.x 1) (s.x 0 % 256) a s.mem (
                  hits-outside s.kernel (mailbox_message (s.x 1) 0) (message_size (s.x 1) s.mem) a
                    away k))))))

  pub sys_sigreturn-Kept : (saved : ℕ → ℕ → ℕ) (s : Sys σ) → Kept t s (sys_sigreturn saved s)
  unfolding sys_sigreturn
  sys_sigreturn-Kept saved s =
      kept_elim t s s.sched.current s _ (kept t s _ _ _ _) (λ curr e. kept t s _ _ _ _)

  module _ (s : Sys σ) (other : Other t s.sched.current) where
    pub sys_signal-Kept : Kept t s (sys_signal s)
    unfolding sys_signal
    sys_signal-Kept = kept_elim t s s.sched.current s _ (kept t s _ _ _ _) (λ curr e.
        kept_if t s (leb 32 (index_of (s.x 0))) s _ (kept t s _ _ _ _) (record {
          files = refl;
          handlers =
              update_ne s.sig_handlers curr t
                (update (s.sig_handlers curr) (index_of (s.x 0)) (s.x 1)) (other curr e);
          signals = λ sig h. h;
          same_kernel = refl;
          memory = λ a h. refl;
        }))

    module _ (ops : Ops σ) where
      open_in-Kept : (curr fd : ℕ) (r : Opened σ) → curr ≢ t → Kept t s (open_in ops curr fd r s)
      open_in-Kept curr fd r ne = record {
        files = update_ne s.fd_table curr t (update (s.fd_table curr) fd r.target) ne;
        handlers = refl;
        signals = λ sig h. h;
        same_kernel = refl;
        memory = λ a h. refl;
      }

      open_loop-Kept :
          (n fd curr : ℕ) (r : Option (Opened σ))
          → curr ≢ t
          → AllKept t s (open_loop ops n fd curr r s)
      unfolding open_loop
      open_loop-Kept zero fd curr r ne = returned (kept t s _ _ _ _)
      open_loop-Kept (suc n) fd curr r ne =
          all_elim t s (s.fd_table curr fd) _ _
            (all_bind t s r _ (λ a e. returned (open_in-Kept curr fd a ne)))
            (λ file e. open_loop-Kept n (fd + 1) curr r ne)

      pub sys_open-Kept :
          (m : Copies) (file : Option ℕ) (path : Option (List ℕ))
          → AllKept t s (sys_open ops m file path s)
      unfolding sys_open
      sys_open-Kept m file path =
          all_if t s (is_absent path) _ _ (returned (kept t s _ _ _ _))
            (all_bind t s s.sched.current _ (λ curr e. open_loop-Kept 16 0 curr _ (other curr e)))

      close_fd-Kept : (fd : ℕ) (o : Option ℕ) → Other t o → Kept t s (close_fd ops fd o s)
      close_fd-Kept fd none ne = kept t s _ _ _ _
      close_fd-Kept fd (some curr) ne = record {
        files = update_ne s.fd_table curr t (update (s.fd_table curr) fd none) (ne curr refl);
        handlers = refl;
        signals = λ sig h. h;
        same_kernel = refl;
        memory = λ a h. refl;
      }

      pub sys_close-Kept : Kept t s (sys_close ops s)
      unfolding sys_close
      sys_close-Kept =
          kept_if t s (leb 16 (index_of (s.x 0))) _ _ (kept t s _ _ _ _)
            (close_fd-Kept (index_of (s.x 0)) s.sched.current other)
