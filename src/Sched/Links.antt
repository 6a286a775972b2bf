-- ===== src/Sched/Links.antt =====
-- The linked lists of src/sched.c: `add_thread_task`, `pop_thread_task` and `rm_thread_task`.
use nycu_osdi.Prelude.{
  ℕ, zero, suc, ◌≤◌, ◌<◌, ◌≡◌, ◌≢◌, ◌∙◌, refl, sym, ap, subst, true, false, Option, none, some,
  List, [], ◌∷◌, ◌++◌, arith, ◌==◌, length, erase, count, update, update_self, Bool-cases, inl, inr,
}
use nycu_osdi.Prelude.Chains.{Chained, Chained-frame}
use nycu_osdi.Sched.{Links, last_loop, add_thread_task, rm_loop, rm_thread_task}

-- The writes of `add_thread_task` behind `last`.
abbrev linked : (ℕ → Option ℕ) → (last task : ℕ) → ℕ → Option ℕ
linked next last task = update (update next last (some task)) task none

last_loop_lem :
    (n : ℕ) (next : ℕ → Option ℕ) (task c : ℕ) (xs : List ℕ)
    → length xs < n
    → Chained next (next c) xs
    → ((p : ℕ) → count p (c ∷ xs) ≤ 1)
    → count task (c ∷ xs) ≡ 0
    → (last : ℕ) × (last_loop n c next ≡ some last)
      × (count last (c ∷ xs) ≡ 1)
      × Chained (linked next last task) (linked next last task c) (xs ++ (task ∷ []))
unfolding last_loop
last_loop_lem zero next task c xs lt ch once new = absurd (omega arith)
last_loop_lem (suc n) next task c [] lt ch once new =
    (c, rw (ch, last_loop) refl, ground arith, (ground (arith, new), ground arith))
last_loop_lem (suc n) next task c (d ∷ xs) lt ch once new =
    let (last, found, is_in, chained) =
      last_loop_lem n next task d xs (omega arith) ch.1 (λ p. omega (arith, once p))
        (omega (arith, new)) in
    let apart : c ≢ last = ground (arith, once c) in
    let fresh : task ≢ c = ground (arith, new) in
    (last, rw (ch.0, last_loop) found, ground arith, (ground arith ∙ ch.0, chained))

-- The queue after an operation: its links, and the threads whose field `next` is the same.
pub record Linked (q r : Links) (spared : ℕ → ℕ) (xs : List ℕ) : Type 0 where
  pub chained : Chained r.1 r.0 xs
  pub same : (y : ℕ) → spared y ≡ 0 → r.1 y ≡ q.1 y

-- With more rounds than threads, `add_thread_task` puts a thread that is not in the queue at its
-- end, and writes `next` of threads of the queue and of the new one only.
pub add_thread_task-Linked :
    (n task : ℕ) (q : Links) (xs : List ℕ)
    → length xs < n
    → Chained q.1 q.0 xs
    → ((p : ℕ) → count p xs ≤ 1)
    → count task xs ≡ 0
    → (r : Links) × (add_thread_task n task q ≡ some r)
      × Linked q r (λ y. count y (task ∷ xs)) (xs ++ (task ∷ []))
unfolding add_thread_task
add_thread_task-Linked n task (p, next) [] lt ch once new = rw ch (
  (some task, update next task none),
  refl,
  record { chained = (refl, ground arith); same = λ y z. ground (arith, z) },
)
add_thread_task-Linked n task (p, next) (x ∷ xs) lt ch once new =
    let (last, found, is_in, chained) =
      last_loop_lem n next task x xs (omega arith) ch.1 once new in
    rw ch.0 (
      (some x, linked next last task),
      rw found refl,
      record { chained = (refl, chained); same = λ y z. ground (arith, z, is_in) },
    )

rm_loop_lem :
    (n : ℕ) (task : ℕ) (q : Links) (c : ℕ) (xs : List ℕ)
    → length xs < n
    → Chained q.1 (q.1 c) xs
    → ((p : ℕ) → count p (c ∷ xs) ≤ 1)
    → (r : Links) × (rm_loop n (some c) (q.1 c) task q ≡ some r)
      × (r.0 ≡ q.0)
      × Chained r.1 (r.1 c) (erase task xs)
      × ((y : ℕ) → count y (c ∷ xs) ≡ 0 → r.1 y ≡ q.1 y)
unfolding rm_loop
rm_loop_lem zero task q c xs lt ch once = absurd (omega arith)
rm_loop_lem (suc n) task q c [] lt ch once = (q, rw (ch, rm_loop) refl, refl, ch, λ y z. refl)
rm_loop_lem (suc n) task q c (d ∷ xs) lt ch once = elim (Bool-cases (task == d)) [
  | inl same ↦
      (let here : (d == task) ≡ true = ground arith in
        let new_next = update q.1 c (q.1 d) in
        let away : Chained new_next (q.1 d) xs =
          Chained-frame q.1 new_next (q.1 d) xs (λ y h. ground (arith, once y, h)) ch.1 in
        rw same (
          (q.0, new_next),
          ap (λ v. rm_loop (suc n) (some c) v task q) ch.0 ∙ (rw here refl),
          refl,
          subst (λ v. Chained new_next v xs) (sym (update_self q.1 c (q.1 d))) away,
          λ y z. ground (arith, z),
        ))
  | inr other ↦
      (let (r, done, head, chained, kept) =
          rm_loop_lem n task q d xs (omega arith) ch.1 (λ p. omega (arith, once p)) in
        let there : (d == task) ≡ false = ground arith in
        let outside : count c (d ∷ xs) ≡ 0 = ground (arith, once c) in
        rw other (
          r,
          ap (λ v. rm_loop (suc n) (some c) v task q) ch.0 ∙ (rw there done),
          head,
          (kept c outside ∙ ch.0, chained),
          λ y z. kept y (omega (arith, z)),
        ))
]

-- With more rounds than threads, `rm_thread_task` takes the thread out of the queue, if it is in
-- it, and writes `next` of threads of the queue only.
pub rm_thread_task-Linked :
    (n task : ℕ) (q : Links) (xs : List ℕ)
    → length xs < n
    → Chained q.1 q.0 xs
    → ((p : ℕ) → count p xs ≤ 1)
    → (r : Links) × (rm_thread_task n task q ≡ some r)
      × Linked q r (λ y. count y xs) (erase task xs)
unfolding rm_thread_task rm_loop
rm_thread_task-Linked zero task q xs lt ch once = absurd (omega arith)
rm_thread_task-Linked (suc n) task (p, next) [] lt ch once =
    rw ch ((none, next), refl, record { chained = refl; same = λ y z. refl })
rm_thread_task-Linked (suc n) task (p, next) (x ∷ xs) lt ch once = elim (Bool-cases (task == x)) [
  | inl same ↦
      (let here : (x == task) ≡ true = ground arith in
        rw (ch.0, same)
          ((next x, next), rw here refl, record { chained = ch.1; same = λ y z. refl }))
  | inr other ↦
      (let there : (x == task) ≡ false = ground arith in
        let (r, done, head, chained, kept) =
          rm_loop_lem n task (some x, next) x xs (omega arith) ch.1 once in
        rw (ch.0, other) (r, rw there done, record { chained = (head, chained); same = kept }))
]
