-- ===== src/Sched/Retire.antt =====
-- src/sched.c: threads off the queues, as `_exit` and `_kill` take them.
use nycu_osdi.Prelude.{ℕ, ◌≤◌, ◌≡◌, ◌≢◌, ◌∙◌, refl, some, List, [], ◌∷◌, arith, erase, count}
use nycu_osdi.Sched.{Sched, task_exited, set_state, with_ready, with_wait}
use nycu_osdi.Sched.Life.{rm_ready, rm_wait, retire}
use nycu_osdi.Prelude.Chains.{Chained-frame}
use nycu_osdi.Sched.Links.{rm_thread_task-Linked}
use nycu_osdi.Sched.Queues.{Chains}
use nycu_osdi.Sched.Switch.{Enough}

pub count-erase_le : (t p : ℕ) (xs : List ℕ) → count p (erase t xs) ≤ count p xs
count-erase_le t p [] = omega arith
count-erase_le t p (x ∷ xs) = ground (arith, count-erase_le t p xs)

-- After the thread is off the queues: what changed of the rest of the state.
pub record Retired (s t : Sched) (task : ℕ) (r w z : List ℕ) : Type 0 where
  pub chains : Chains t (erase task r) (erase task w) z
  pub current : t.current ≡ s.current
  pub exited : t.state task ≡ task_exited
  pub others : (y : ℕ) → task ≢ y → t.state y ≡ s.state y
  pub id : t.id ≡ s.id

pub retire-Retired :
    (k task : ℕ) (s : Sched) {r w z : List ℕ}
    → Chains s r w z
    → Enough k r w z
    → (t : Sched) × (retire k task s ≡ some t) × Retired s t task r w z
unfolding retire rm_ready rm_wait
retire-Retired k task s {r} {w} {z} c enough =
    let (q, done, l) =
      rm_thread_task-Linked k task (s.ready_queue, s.next) r enough.ready c.ready
        (λ p. omega (arith, c.once p)) in
    let w_chained =
      Chained-frame s.next q.1 s.wait_queue w (λ y h. l.same y (omega (arith, c.once y, h)))
        c.wait in
    let (q', done', l') =
      rm_thread_task-Linked k task (s.wait_queue, q.1) w enough.wait w_chained
        (λ p. omega (arith, c.once p)) in
    let t = set_state task task_exited (with_wait q' (with_ready q s)) in
    (
      t,
      rw (done, done') refl,
      record {
        chains = record {
          ready =
              Chained-frame q.1 q'.1 q.0 (erase task r)
                (λ y h. l'.same y (omega (arith, c.once y, h, count-erase_le task y r))) l.chained;
          wait = l'.chained;
          zombie =
              Chained-frame s.next q'.1 s.zombie_queue z
                (λ y h.
                  l'.same y (omega (arith, c.once y, h)) ∙ l.same y (omega (arith, c.once y, h)))
                c.zombie;
          once = λ p. omega (arith, c.once p, count-erase_le task p r, count-erase_le task p w);
        };
        current = refl;
        exited = ground arith;
        others = λ y ne. ground arith;
        id = refl;
      },
    )
