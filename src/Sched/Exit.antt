-- ===== src/Sched/Exit.antt =====
-- src/sched.c: `_exit` and `kill_zombies`.
use nycu_osdi.Prelude.{
  ℕ, zero, suc, ◌+◌, ◌≤◌, ◌<◌, ◌≡◌, ◌∙◌, refl, ap, subst, Option, none, some, List, [], ◌∷◌, ◌++◌,
  arith, length, erase, count, erase_absent,
}
use nycu_osdi.Sched.{Sched, task_running, with_zombie}
use nycu_osdi.Sched.Life.{exit_by, exit, zombie_loop, kill_zombies}
use nycu_osdi.Prelude.Chains.{Chained}
use nycu_osdi.Sched.Queues.{Chains, Queues, runs}
use nycu_osdi.Sched.Switch.{Enough, schedule-Switched}
use nycu_osdi.Sched.Retire.{retire-Retired}

-- `_exit`: the current thread becomes the last zombie, and the first ready thread runs.
pub exit_lem :
    (k p n : ℕ) (s : Sched) {r w z : List ℕ}
    → Queues s (n ∷ r) w z
    → s.current ≡ some p
    → Enough k (n ∷ r) w z
    → (t : Sched) × (exit k s ≡ some t)
      × (t.current ≡ some n)
      × (t.state n ≡ task_running)
      × Queues t r w (z ++ (p ∷ []))
unfolding exit exit_by
exit_lem k p n s {r} {w} {z} v runs_p enough =
    let mine : runs (some p) p + count p (n ∷ r) + count p w + count p z ≤ 1 =
      subst (λ o. runs o p + count p (n ∷ r) + count p w + count p z ≤ 1) runs_p (v.once p) in
    let self : runs (some p) p ≡ 1 = ground arith in
    let (t, done, x) = retire-Retired k p s v.chains enough in
    let not_ready = erase_absent p (n ∷ r) (omega (arith, mine)) in
    let not_waiting = erase_absent p w (omega (arith, mine)) in
    let same = λ (y : ℕ). ap (λ o. runs o y) x.current in
    let queues : Queues t (n ∷ r) w z = record {
      chains =
          subst (λ l. Chains t l w z) not_ready
            (subst (λ l. Chains t (erase p (n ∷ r)) l z) not_waiting x.chains);
      once = λ y. omega (arith, v.once y, same y);
    } in
    let (u, switched, s') =
      schedule-Switched k p n t queues (x.current ∙ runs_p) (omega (arith, x.exited)) enough in
    (
      u,
      ap (λ (c : Option ℕ). exit_by k c s) runs_p ∙ (rw done switched),
      s'.current,
      s'.running,
      (rw x.exited at s'.queues),
    )

-- The loop takes the zombies off their queue, in order, up to its end.
pub zombie_loop_lem :
    (n : ℕ) (p : Option ℕ) (next : ℕ → Option ℕ) (xs : List ℕ)
    → length xs < n
    → Chained next p xs
    → zombie_loop n (p, next) ≡ some (xs, (none, next))
unfolding zombie_loop
zombie_loop_lem n p next [] lt ch = rw (ch, zombie_loop) refl
zombie_loop_lem zero p next (x ∷ xs) lt ch = absurd (omega arith)
zombie_loop_lem (suc n) p next (x ∷ xs) lt ch =
    rw (ch.0, zombie_loop) (rw (zombie_loop_lem n (next x) next xs (omega arith) ch.1) refl)

-- With more rounds than zombies, `kill_zombies` frees every zombie, in order, and leaves their queue
-- empty and the others as they are.
pub kill_zombies_lem :
    (k : ℕ) (s : Sched) {r w z : List ℕ}
    → Queues s r w z
    → length z < k
    → (t : Sched) × (kill_zombies k s ≡ some (z, t)) × Queues t r w []
unfolding kill_zombies
kill_zombies_lem k s {r} {w} {z} v lt = (
  with_zombie (none, s.next) s,
  rw (zombie_loop_lem k s.zombie_queue s.next z lt v.chains.zombie) refl,
  record {
    chains = record {
      ready = v.chains.ready;
      wait = v.chains.wait;
      zombie = refl;
      once = λ p. omega (arith, v.chains.once p);
    };
    once = λ p. omega (arith, v.once p);
  },
)
