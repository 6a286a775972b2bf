-- ===== src/Syscall/Fork.antt =====
-- src/syscall.c: `sys_fork`, over the queues of src/sched.c.
use nycu_osdi.Prelude.{
  ℕ, ◌+◌, ◌%◌, ◌^◌, ◌<◌, ◌≡◌, ◌∙◌, refl, ap, none, some, List, [], ◌∷◌, ◌++◌, arith, length, count,
  count-append, update, update_self, ◌>>=◌,
}
use nycu_osdi.Prelude.Chains.{Chained-frame}
use nycu_osdi.Sched.{task_ready, with_ready}
use nycu_osdi.Sched.Queues.{Chains, Queues, runs, add_ready-Chains}
use nycu_osdi.Syscall.{Sys, give, sys_fork, fork_by, fork_child}

-- The child has the next id and what the parent has set for its signals, and is the last of the ready
-- threads; the parent still runs, and its register 0 holds the id. No table of files is written.
pub record Forked {σ : Type 0} (s t : Sys σ) (parent child : ℕ) (r w z : List ℕ) : Type 0 where
  pub id : t.sched.id child ≡ s.thread_cnt
  pub result : t.x 0 ≡ s.thread_cnt
  pub state : t.sched.state child ≡ task_ready
  pub thread_cnt : t.thread_cnt ≡ (s.thread_cnt + 1) % 2 ^ 32
  pub handlers : t.sig_handlers child ≡ s.sig_handlers parent
  pub pending : t.pending_sig child ≡ s.pending_sig parent
  pub current : t.sched.current ≡ some parent
  pub queues : Queues t.sched (r ++ (child ∷ [])) w z
  pub files : t.fd_table ≡ s.fd_table

module _ {σ : Type 0} (n parent child kernel_stack user_stack : ℕ) (s : Sys σ)
    {r w z : List ℕ} where
  -- The fields of the child are on no queue.
  child-Chains :
      Chains s.sched r w z
      → count child r + count child w + count child z ≡ 0
      → Chains (fork_child parent child s).sched r w z
  child-Chains v new =
      let next = update s.sched.next child none in
      record {
        ready =
            Chained-frame s.sched.next next s.sched.ready_queue r (λ y h. ground (arith, h, new))
              v.ready;
        wait =
            Chained-frame s.sched.next next s.sched.wait_queue w (λ y h. ground (arith, h, new))
              v.wait;
        zombie =
            Chained-frame s.sched.next next s.sched.zombie_queue z (λ y h. ground (arith, h, new))
              v.zombie;
        once = v.once;
      }

  -- With memory, and more rounds than threads are ready, `sys_fork` always returns, and makes a thread of
  -- memory that no thread uses: it has the next id (which wraps at 2 ^ 32) and the signal handlers and pending signals of its
  -- parent, and is the last of the ready threads; the parent runs on, with that id as the result.
  pub sys_fork-Forked :
      Queues s.sched r w z
      → s.sched.current ≡ some parent
      → length r < n
      → runs s.sched.current child + count child r + count child w + count child z ≡ 0
      → (t : Sys σ) × (sys_fork n (some child) (some kernel_stack) (some user_stack) s ≡ some t)
        × Forked s t parent child r w z
  unfolding sys_fork fork_by
  sys_fork-Forked v cur lt new =
      let s' = fork_child parent child s in
      let (q, done, chains) =
        add_ready-Chains n child s'.sched (child-Chains v.chains (omega (arith, new))) lt
          (omega (arith, new)) in
      (
        give s.thread_cnt (record s' { sched = with_ready q s'.sched }),
        ap (λ o. fork_by n o (some child) (some kernel_stack) (some user_stack) s) cur
            ∙ ap (λ o. o >>= λ t. some (give s.thread_cnt (record s' { sched = t }))) done,
        record {
          id = update_self s.sched.id child s.thread_cnt;
          result = update_self s.x 0 s.thread_cnt;
          state = update_self s.sched.state child task_ready;
          thread_cnt = refl;
          handlers = update_self s.sig_handlers child (s.sig_handlers parent);
          pending = update_self s.pending_sig child (s.pending_sig parent);
          current = cur;
          queues = record {
            chains = chains;
            once = λ p. ground (arith, v.once p, count-append p r (child ∷ []), new);
          };
          files = refl;
        },
      )
