-- ===== src/Sched/Tests.antt =====
-- Concrete queues of src/sched.c.
use nycu_osdi.Prelude.{
  ℕ, ◌<◌, ◌≡◌, ◌≢◌, ◌⊎◌, refl, true, none, some, [], ◌∷◌, ◌++◌, arith, update, count,
}
use nycu_osdi.Prelude.Int.{pos, negsuc}
use nycu_osdi.Sched.{Sched, task_running, schedule}
use nycu_osdi.Sched.Life.{exit, kill, kill_zombies}
use nycu_osdi.Sched.Queues.{Queues}
use nycu_osdi.Sched.Switch.{Enough, Switched, schedules, schedule-Switched, schedules-fair}
use nycu_osdi.Sched.Kill.{Killed, kill_lem, kill_self}
use nycu_osdi.Sched.Exit.{exit_lem, kill_zombies_lem}

-- Thread 0 runs, 1 and 2 are ready, 3 waits, and 4 is a zombie. The ids are the numbers.
abbrev five : Sched
five = record {
  next = update (λ i. none) 1 (some 2);
  id = λ i. i;
  state = update (λ i. 0) 0 1;
  ready_queue = some 1;
  wait_queue = some 3;
  zombie_queue = some 4;
  current = some 0;
  irq = true;
  timer_irq = true;
}

five-Queues : Queues five (1 ∷ 2 ∷ []) (3 ∷ []) (4 ∷ [])
five-Queues = record {
  chains = record {
    ready = (refl, (refl, refl));
    wait = (refl, refl);
    zombie = (refl, refl);
    once = λ p. ground arith;
  };
  once = λ p. ground arith;
}

five-Enough : Enough 8 (1 ∷ 2 ∷ []) (3 ∷ []) (4 ∷ [])
five-Enough = record { ready = omega arith; wait = omega arith; zombie = omega arith }

schedule-Switched_example :
    (t : Sched) × (schedule 8 five ≡ some t) × Switched t 1 0 1 (2 ∷ []) (3 ∷ []) (4 ∷ [])
schedule-Switched_example = schedule-Switched 8 0 1 five five-Queues refl (omega arith) five-Enough

schedules-fair_example : (t : Sched) × (schedules 2 8 five ≡ some t) × (t.current ≡ some 2)
schedules-fair_example = schedules-fair (1 ∷ []) [] 8 0 2 five five-Queues refl refl five-Enough

kill_lem_example :
    ((kill 8 3 five ≡ some (negsuc 0, five))
      × ((y : ℕ) → 0 < count y ((1 ∷ 2 ∷ []) ++ (3 ∷ [])) → five.id y ≢ 3))
    ⊎ ((task : ℕ) × (0 < count task ((1 ∷ 2 ∷ []) ++ (3 ∷ [])))
        × (five.id task ≡ 3)
        × (t : Sched) × (kill 8 3 five ≡ some (pos 0, t))
        × Killed five t task (1 ∷ 2 ∷ []) (3 ∷ []) (4 ∷ []))
kill_lem_example = kill_lem 8 3 five five-Queues five-Enough

kill_self_example : kill 8 0 five ≡ some (negsuc 0, five)
kill_self_example = kill_self 8 0 five five-Queues five-Enough refl (λ y e. e)

exit_lem_example :
    (t : Sched) × (exit 8 five ≡ some t)
    × (t.current ≡ some 1)
    × (t.state 1 ≡ task_running)
    × Queues t (2 ∷ []) (3 ∷ []) ((4 ∷ []) ++ (0 ∷ []))
exit_lem_example = exit_lem 8 0 1 five five-Queues refl five-Enough

kill_zombies_lem_example :
    (t : Sched) × (kill_zombies 8 five ≡ some ((4 ∷ []), t)) × Queues t (1 ∷ 2 ∷ []) (3 ∷ []) []
kill_zombies_lem_example = kill_zombies_lem 8 five five-Queues (omega arith)
