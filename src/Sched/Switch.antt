-- ===== src/Sched/Switch.antt =====
-- src/sched.c: `schedule`.
use nycu_osdi.Prelude.{
  ℕ, zero, suc, ◌+◌, ◌≤◌, ◌<◌, ◌≡◌, ◌∙◌, refl, ap, subst, true, false, Option, some, List, [], ◌∷◌,
  ◌++◌, arith, ◌==◌, if◌then◌else◌, length, length-append, append_assoc, count, Bool-cases, inl,
  inr, ◌>>=◌,
}
use nycu_osdi.Sched.{
  Sched, task_ready, task_running, task_blocked, task_exited, set_state, with_ready, enable,
  switch_to, requeue, schedule_from, schedule_by, schedule,
}
use nycu_osdi.Sched.Queues.{
  Chains, Queues, runs, add_ready-Chains, add_wait-Chains, add_zombie-Chains,
}

-- Where a thread goes that leaves the processor in state `st`.
abbrev pub after : (st target p : ℕ) → List ℕ → List ℕ
after st target p xs = if st == target then xs ++ (p ∷ []) else xs

-- The first thread of the ready queue runs, and the one that ran is at the end of its queue.
pub record Switched (t : Sched) (st p n : ℕ) (r w z : List ℕ) : Type 0 where
  pub current : t.current ≡ some n
  pub running : t.state n ≡ task_running
  pub queues :
      Queues t (after st task_running p r) (after st task_blocked p w) (after st task_exited p z)

switch_to-Queues :
    (n : ℕ) (s : Sched) {r w z : List ℕ}
    → Chains s (n ∷ r) w z
    → (t : Sched) × (switch_to n s ≡ some t)
      × (t.current ≡ some n)
      × (t.state n ≡ task_running)
      × Queues t r w z
unfolding switch_to
switch_to-Queues n s {r} {w} {z} c = rw c.ready.0 (
  record (with_ready (s.next n, s.next) (set_state n task_running s)) {
    timer_irq = true;
    current = some n;
  },
  refl,
  refl,
  ground arith,
  record {
    chains = record {
      ready = c.ready.1;
      wait = c.wait;
      zombie = c.zombie;
      once = λ p. omega (arith, c.once p);
    };
    once = λ p. omega (arith, c.once p);
  },
)

-- The number of rounds is above the length of every queue.
pub record Enough (k : ℕ) (r w z : List ℕ) : Type 0 where
  pub ready : length r < k
  pub wait : length w < k
  pub zombie : length z < k

requeue-Switched :
    (k p n : ℕ) (s : Sched) {r w z : List ℕ}
    → Chains s (n ∷ r) w z
    → count p (n ∷ r) + count p w + count p z ≡ 0
    → Enough k (n ∷ r) w z
    → s.state p < 4
    → (t : Sched) × (requeue k p n s ≡ some t) × Switched t (s.state p) p n r w z
unfolding requeue
requeue-Switched k p n s {r} {w} {z} c new enough known =
    elim (Bool-cases (s.state p == task_running)) [
      | inl is_running ↦
          (let e : s.state p ≡ task_running = ground arith in
            let (q, done, c') =
              add_ready-Chains k p (set_state p task_ready s) {r = n ∷ r} {w = w} {z = z}
                (record { ready = c.ready; wait = c.wait; zombie = c.zombie; once = c.once })
                enough.ready new in
            let (t, switched, current, running, v) = switch_to-Queues n _ c' in
            rw e (t, rw done switched, record { current = current; running = running; queues = v }))
      | inr not_running ↦ elim (Bool-cases (s.state p == task_blocked)) [
        | inl is_blocked ↦
            (let e : s.state p ≡ task_blocked = ground arith in
              let (q, done, c') = add_wait-Chains k p s c enough.wait new in
              let (t, switched, current, running, v) = switch_to-Queues n _ c' in
              rw e
                (t, rw done switched, record { current = current; running = running; queues = v }))
        | inr not_blocked ↦ elim (Bool-cases (s.state p == task_exited)) [
          | inl is_exited ↦
              (let e : s.state p ≡ task_exited = ground arith in
                let (q, done, c') = add_zombie-Chains k p s c enough.zombie new in
                let (t, switched, current, running, v) = switch_to-Queues n _ c' in
                rw e (
                  t,
                  rw done switched,
                  record { current = current; running = running; queues = v },
                ))
          | inr not_exited ↦
              (let e : s.state p ≡ task_ready = ground arith in
                let (t, switched, current, running, v) = switch_to-Queues n s c in
                rw e (t, switched, record { current = current; running = running; queues = v }))
        ]
      ]
    ]

-- With a thread that runs and one that is ready, `schedule` switches to the first of the ready
-- queue, and puts the one that ran at the end of the queue that its state says.
pub schedule-Switched :
    (k p n : ℕ) (s : Sched) {r w z : List ℕ}
    → Queues s (n ∷ r) w z
    → s.current ≡ some p
    → s.state p < 4
    → Enough k (n ∷ r) w z
    → (t : Sched) × (schedule k s ≡ some t) × Switched t (s.state p) p n r w z
unfolding schedule schedule_from
schedule-Switched k p n s {r} {w} {z} v runs_p known enough =
    let off = record s { irq = false; timer_irq = false } in
    let chains : Chains off (n ∷ r) w z = record {
      ready = v.chains.ready;
      wait = v.chains.wait;
      zombie = v.chains.zombie;
      once = v.chains.once;
    } in
    let alone : runs (some p) p + count p (n ∷ r) + count p w + count p z ≤ 1 =
      subst (λ o. runs o p + count p (n ∷ r) + count p w + count p z ≤ 1) runs_p (v.once p) in
    let new : count p (n ∷ r) + count p w + count p z ≡ 0 = ground (arith, alone) in
    let other : (n == p) ≡ false = ground (arith, new) in
    let (t, done, switched) = requeue-Switched k p n off chains new enough known in
    (
      t,
      ap (λ (c : Option ℕ). schedule_by k c off) runs_p
          ∙ ap (λ (h : Option ℕ). schedule_from k p h off) v.chains.ready.0
          ∙ (rw other refl)
          ∙ done,
      switched,
    )

-- With no thread ready, `schedule` goes on with the one that runs, interrupts on.
pub schedule-alone :
    (k p : ℕ) (s : Sched) {w z : List ℕ}
    → Queues s [] w z
    → s.current ≡ some p
    → schedule k s ≡ some (enable s)
unfolding schedule schedule_from
schedule-alone k p s v runs_p = rw (runs_p, v.chains.ready) refl

-- `n` calls of `schedule`, each from the thread that the one before switched to.
pub schedules : (n k : ℕ) → Sched → Option Sched
schedules zero k s = some s
schedules (suc n) k s = schedule k s >>= λ t. schedules n k t

-- No thread starves: one that is ready with `length before` threads in front of it runs after one
-- call more than that, while the threads that run stay in the state running.
pub schedules-fair :
    (before behind : List ℕ) (k p n : ℕ) (s : Sched) {w z : List ℕ}
    → Queues s (before ++ (n ∷ behind)) w z
    → s.current ≡ some p
    → s.state p ≡ task_running
    → Enough k (before ++ (n ∷ behind)) w z
    → (t : Sched) × (schedules (suc (length before)) k s ≡ some t) × (t.current ≡ some n)
unfolding schedules
schedules-fair [] behind k p n s v runs_p running enough =
    let (t, done, switched) = schedule-Switched k p n s v runs_p (omega (arith, running)) enough in
    (t, rw done refl, switched.current)
schedules-fair (x ∷ before) behind k p n s {w} {z} v runs_p running enough =
    let (t, done, switched) = schedule-Switched k p x s v runs_p (omega (arith, running)) enough in
    let queues : Queues t ((before ++ (n ∷ behind)) ++ (p ∷ [])) w z =
      (rw running at switched.queues) in
    let all = append_assoc before (n ∷ behind) (p ∷ []) in
    let (u, rest, current) =
      schedules-fair before (behind ++ (p ∷ [])) k x n t (subst (λ l. Queues t l w z) all queues)
        switched.current switched.running
        (record {
          ready = omega (
            arith,
            enough.ready,
            ap (λ (l : List ℕ). length l) all,
            length-append (before ++ (n ∷ behind)) (p ∷ []),
          );
          wait = enough.wait;
          zombie = enough.zombie;
        }) in
    (u, rw done rest, current)
