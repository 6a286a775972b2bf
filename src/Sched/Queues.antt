-- ===== src/Sched/Queues.antt =====
-- The three queues of src/sched.c together, and the operations on one of them.
use nycu_osdi.Prelude.{
  ℕ, ◌+◌, ◌≤◌, ◌<◌, ◌≡◌, refl, Option, none, some, List, [], ◌∷◌, ◌++◌, arith, ◌==◌, if◌then◌else◌,
  length, count, count-append,
}
use nycu_osdi.Sched.{
  Sched, Links, with_ready, with_wait, with_zombie, add_ready, add_wait, add_zombie,
}
use nycu_osdi.Prelude.Chains.{Chained, Chained-frame}
use nycu_osdi.Sched.Links.{add_thread_task-Linked}

-- The queues are `r`, `w` and `z`, and no thread is on them twice.
pub record Chains (s : Sched) (r w z : List ℕ) : Type 0 where
  pub ready : Chained s.next s.ready_queue r
  pub wait : Chained s.next s.wait_queue w
  pub zombie : Chained s.next s.zombie_queue z
  pub once : (p : ℕ) → count p r + count p w + count p z ≤ 1

-- 1 for the thread that runs, else 0.
abbrev pub runs : Option ℕ → ℕ → ℕ
runs none p = 0
runs (some c) p = if c == p then 1 else 0

-- Besides, the thread that runs is on none of them.
pub record Queues (s : Sched) (r w z : List ℕ) : Type 0 where
  pub chains : Chains s r w z
  pub once : (p : ℕ) → runs s.current p + count p r + count p w + count p z ≤ 1

pub add_ready-Chains :
    (k task : ℕ) (s : Sched) {r w z : List ℕ}
    → Chains s r w z
    → length r < k
    → count task r + count task w + count task z ≡ 0
    → (q : Links) × (add_ready k task s ≡ some (with_ready q s))
      × Chains (with_ready q s) (r ++ (task ∷ [])) w z
unfolding add_ready
add_ready-Chains k task s {r} {w} {z} c lt new =
    let (q, done, l) =
      add_thread_task-Linked k task (s.ready_queue, s.next) r lt c.ready
        (λ p. omega (arith, c.once p)) (omega (arith, new)) in
    (
      q,
      rw done refl,
      record {
        ready = l.chained;
        wait =
            Chained-frame s.next q.1 s.wait_queue w
              (λ y h. l.same y (ground (arith, c.once y, h, new))) c.wait;
        zombie =
            Chained-frame s.next q.1 s.zombie_queue z
              (λ y h. l.same y (ground (arith, c.once y, h, new))) c.zombie;
        once = λ p. ground (arith, c.once p, count-append p r (task ∷ []), new);
      },
    )

pub add_wait-Chains :
    (k task : ℕ) (s : Sched) {r w z : List ℕ}
    → Chains s r w z
    → length w < k
    → count task r + count task w + count task z ≡ 0
    → (q : Links) × (add_wait k task s ≡ some (with_wait q s))
      × Chains (with_wait q s) r (w ++ (task ∷ [])) z
unfolding add_wait
add_wait-Chains k task s {r} {w} {z} c lt new =
    let (q, done, l) =
      add_thread_task-Linked k task (s.wait_queue, s.next) w lt c.wait
        (λ p. omega (arith, c.once p)) (omega (arith, new)) in
    (
      q,
      rw done refl,
      record {
        ready =
            Chained-frame s.next q.1 s.ready_queue r
              (λ y h. l.same y (ground (arith, c.once y, h, new))) c.ready;
        wait = l.chained;
        zombie =
            Chained-frame s.next q.1 s.zombie_queue z
              (λ y h. l.same y (ground (arith, c.once y, h, new))) c.zombie;
        once = λ p. ground (arith, c.once p, count-append p w (task ∷ []), new);
      },
    )

pub add_zombie-Chains :
    (k task : ℕ) (s : Sched) {r w z : List ℕ}
    → Chains s r w z
    → length z < k
    → count task r + count task w + count task z ≡ 0
    → (q : Links) × (add_zombie k task s ≡ some (with_zombie q s))
      × Chains (with_zombie q s) r w (z ++ (task ∷ []))
unfolding add_zombie
add_zombie-Chains k task s {r} {w} {z} c lt new =
    let (q, done, l) =
      add_thread_task-Linked k task (s.zombie_queue, s.next) z lt c.zombie
        (λ p. omega (arith, c.once p)) (omega (arith, new)) in
    (
      q,
      rw done refl,
      record {
        ready =
            Chained-frame s.next q.1 s.ready_queue r
              (λ y h. l.same y (ground (arith, c.once y, h, new))) c.ready;
        wait =
            Chained-frame s.next q.1 s.wait_queue w
              (λ y h. l.same y (ground (arith, c.once y, h, new))) c.wait;
        zombie = l.chained;
        once = λ p. ground (arith, c.once p, count-append p z (task ∷ []), new);
      },
    )
