-- ===== src/Sched/Kill.antt =====
-- src/sched.c: `_kill`.
use nycu_osdi.Prelude.{
  ℕ, ◌+◌, ◌≤◌, ◌<◌, ◌≡◌, ◌≢◌, ◌⊎◌, refl, ap, subst, false, Option, none, some, List, [], ◌∷◌, ◌++◌,
  arith, ◌==◌, erase, count, count-append, count-erase_self, points_to, Bool-cases, inl, inr,
}
use nycu_osdi.Prelude.Int.{pos, negsuc}
use nycu_osdi.Sched.{Sched, task_exited, with_zombie, get_thread_task_by_id, add_zombie}
use nycu_osdi.Sched.Life.{kill_by, kill}
use nycu_osdi.Sched.Queues.{Queues, runs, add_zombie-Chains}
use nycu_osdi.Sched.Switch.{Enough}
use nycu_osdi.Sched.Retire.{retire-Retired, count-erase_le}
use nycu_osdi.Sched.Find.{Found, get_thread_task_by_id-Found}

-- `_kill` of a thread that is ready or waiting takes it off its queue, marks it as exited and puts
-- it at the end of the zombies; the other queues, the thread that runs and the other states stay.
pub record Killed (s t : Sched) (task : ℕ) (r w z : List ℕ) : Type 0 where
  pub queues : Queues t (erase task r) (erase task w) (z ++ (task ∷ []))
  pub current : t.current ≡ s.current
  pub exited : t.state task ≡ task_exited
  pub others : (y : ℕ) → task ≢ y → t.state y ≡ s.state y

not_running : (o : Option ℕ) (task : ℕ) → runs o task ≡ 0 → points_to o task ≡ false
not_running none task h = refl
not_running (some c) task h = ground (arith, h)

moved_once :
    {s : Sched} (t : Sched) (task : ℕ) (r w z : List ℕ)
    → t.current ≡ s.current
    → Queues s r w z
    → 0 < count task (r ++ w)
    → count task (erase task r) + count task (erase task w) + count task z ≡ 0
    → (p : ℕ)
    → runs t.current p
        + count p (erase task r)
        + count p (erase task w)
        + count p (z ++ (task ∷ []))
      ≤ 1
moved_once {s} t task r w z same v queued gone p =
    let at : (y : ℕ) → runs t.current y ≡ runs s.current y = λ y. ap (λ o. runs o y) same in
    elim (Bool-cases (task == p)) [
      | inl here ↦
          (let q : task ≡ p = ground arith in
            subst
              (λ (y : ℕ).
                runs t.current y
                  + count y (erase task r)
                  + count y (erase task w)
                  + count y (z ++ (task ∷ []))
                ≤ 1)
              q
              (ground (
                arith,
                at task,
                v.once task,
                queued,
                count-append task r w,
                count-append task z (task ∷ []),
                gone,
              )))
      | inr there ↦ ground (
        arith,
        at p,
        v.once p,
        count-erase_le task p r,
        count-erase_le task p w,
        count-append p z (task ∷ []),
      )
    ]

kill_by-Killed :
    (k task : ℕ) (s : Sched) {r w z : List ℕ}
    → Queues s r w z
    → Enough k r w z
    → 0 < count task (r ++ w)
    → (t : Sched) × (kill_by k (some task) s ≡ some (pos 0, t)) × Killed s t task r w z
unfolding kill_by add_zombie
kill_by-Killed k task s {r} {w} {z} v enough queued =
    let (t, done, x) = retire-Retired k task s v.chains enough in
    let in_queue = count-append task r w in
    let idle : points_to t.current task ≡ false =
      not_running t.current task (rw x.current (omega (arith, v.once task, queued, in_queue))) in
    let gone : count task (erase task r) + count task (erase task w) + count task z ≡ 0 =
      omega
        (arith, v.once task, queued, in_queue, count-erase_self task r, count-erase_self task w) in
    let (q, added, c) =
      add_zombie-Chains k task t {r = erase task r} {w = erase task w} {z = z} x.chains
        enough.zombie gone in
    (
      with_zombie q t,
      rw (done, idle) (rw added refl),
      record {
        queues = record {
          chains = c;
          once = λ p. moved_once t task r w z x.current v queued gone p;
        };
        current = x.current;
        exited = x.exited;
        others = x.others;
      },
    )

-- The two outcomes of `_kill`: -1 and nothing done, if no thread that is ready or waiting has the
-- id; else 0, and such a thread is killed.
pub kill_lem :
    (k pid : ℕ) (s : Sched) {r w z : List ℕ}
    → Queues s r w z
    → Enough k r w z
    → ((kill k pid s ≡ some (negsuc 0, s)) × ((y : ℕ) → 0 < count y (r ++ w) → s.id y ≢ pid))
      ⊎ ((task : ℕ) × (0 < count task (r ++ w))
          × (s.id task ≡ pid)
          × (t : Sched) × (kill k pid s ≡ some (pos 0, t))
          × Killed s t task r w z)
unfolding kill kill_by
kill_lem k pid s {r} {w} {z} v enough =
    let (o, done, found) = get_thread_task_by_id-Found k pid s v.chains enough in by o done found
  where
    by :
        (o : Option ℕ)
        → get_thread_task_by_id k pid s ≡ some o
        → Found s pid (r ++ w) o
        → ((kill k pid s ≡ some (negsuc 0, s)) × ((y : ℕ) → 0 < count y (r ++ w) → s.id y ≢ pid))
          ⊎ ((task : ℕ) × (0 < count task (r ++ w))
              × (s.id task ≡ pid)
              × (t : Sched) × (kill k pid s ≡ some (pos 0, t))
              × Killed s t task r w z)
    by none done found = inl (rw done refl, found.absent refl)
    by (some task) done found =
        let (queued, id) = found.here task refl in
        let (t, killed, x) = kill_by-Killed k task s v enough queued in
        inr (task, queued, id, t, rw done killed, x)

-- The thread that runs is not found by its id, and so is not killed, if no other has that id.
pub kill_self :
    (k c : ℕ) (s : Sched) {r w z : List ℕ}
    → Queues s r w z
    → Enough k r w z
    → s.current ≡ some c
    → ((y : ℕ) → s.id y ≡ s.id c → y ≡ c)
    → kill k (s.id c) s ≡ some (negsuc 0, s)
kill_self k c s {r} {w} {z} v enough runs_c unique = elim (kill_lem k (s.id c) s v enough) [
  | inl (refused, absent) ↦ refused
  | inr (task, queued, id, t, done, x) ↦
      let q : task ≡ c = unique task id in
      let own : runs s.current c ≡ runs (some c) c = ap (λ o. runs o c) runs_c in
      let self : runs (some c) c ≡ 1 = ground arith in
      let here : 0 < count c (r ++ w) = subst (λ (y : ℕ). 0 < count y (r ++ w)) q queued in
      absurd (omega (arith, v.once c, count-append c r w))
]
