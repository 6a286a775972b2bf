-- ===== src/Sched/Find.antt =====
-- src/sched.c: `get_thread_task_by_id`.
use nycu_osdi.Prelude.{
  ℕ, zero, suc, ◌<◌, ◌≡◌, ◌≢◌, refl, subst, Option, none, some, List, [], ◌∷◌, ◌++◌, arith, ◌==◌,
  ltb, length, count, count-append, Bool-cases, inl, inr,
}
use nycu_osdi.Sched.{Sched, find_loop, or_else, get_thread_task_by_id}
use nycu_osdi.Prelude.Chains.{Chained}
use nycu_osdi.Sched.Queues.{Chains}
use nycu_osdi.Sched.Switch.{Enough}

-- The result of a search for a thread of the list with the given id.
pub record Found (s : Sched) (pid : ℕ) (xs : List ℕ) (o : Option ℕ) : Type 0 where
  pub here : (task : ℕ) → o ≡ some task → (0 < count task xs) × (s.id task ≡ pid)
  pub absent : o ≡ none → (y : ℕ) → 0 < count y xs → s.id y ≢ pid

some_inj : {a b : ℕ} → some a ≡ some b → a ≡ b
some_inj e = cc

find_loop-Found :
    (n pid : ℕ) (s : Sched) (p : Option ℕ) (xs : List ℕ)
    → length xs < n
    → Chained s.next p xs
    → (o : Option ℕ) × (find_loop n p pid s ≡ some o) × Found s pid xs o
unfolding find_loop
find_loop-Found n pid s p [] lt ch =
    (none, rw (ch, find_loop) refl, record { here = λ task e. cc; absent = λ e y h. ground arith })
find_loop-Found zero pid s p (x ∷ xs) lt ch = absurd (omega arith)
find_loop-Found (suc n) pid s p (x ∷ xs) lt ch =
    let (o, done, found) = find_loop-Found n pid s (s.next x) xs (omega arith) ch.1 in
    elim (Bool-cases (s.id x == pid)) [
      | inl same ↦ (
        some x,
        rw (ch.0, same, find_loop) refl,
        record {
          here = λ task e.
              let at : x ≡ task = some_inj e in
              subst (λ v. (0 < count v (x ∷ xs)) × (s.id v ≡ pid)) at (ground arith, ground arith);
          absent = λ e. cc;
        },
      )
      | inr other ↦ (
        o,
        rw (ch.0, other, find_loop) done,
        record {
          here = λ task e. (ground (arith, (found.here task e).0), (found.here task e).1);
          absent = λ e y h. elim (Bool-cases (x == y)) [
            | inl at ↦ (let q : x ≡ y = ground arith in subst (λ v. s.id v ≢ pid) q (ground arith))
            | inr away ↦ found.absent e y (ground arith)
          ];
        },
      )
    ]

-- With enough rounds, the search finds a ready or waiting thread of that id, if there is one.
pub get_thread_task_by_id-Found :
    (k pid : ℕ) (s : Sched) {r w z : List ℕ}
    → Chains s r w z
    → Enough k r w z
    → (o : Option ℕ) × (get_thread_task_by_id k pid s ≡ some o) × Found s pid (r ++ w) o
unfolding get_thread_task_by_id or_else
get_thread_task_by_id-Found k pid s {r} {w} c enough =
    let (o, done, found) = find_loop-Found k pid s s.ready_queue r enough.ready c.ready in
    let (o', done', found') = find_loop-Found k pid s s.wait_queue w enough.wait c.wait in
    first o done found o' done' found'
  where
    first :
        (o : Option ℕ)
        → find_loop k s.ready_queue pid s ≡ some o
        → Found s pid r o
        → (o' : Option ℕ) → find_loop k s.wait_queue pid s ≡ some o'
        → Found s pid w o'
        → (o : Option ℕ) × (get_thread_task_by_id k pid s ≡ some o) × Found s pid (r ++ w) o
    first none done found o' done' found' = (
      o',
      rw done done',
      record {
        here = λ task e.
            (omega (arith, (found'.here task e).0, count-append task r w), (found'.here task e).1);
        absent = λ e y h. elim (Bool-cases (ltb 0 (count y r))) [
          | inl in_r ↦ found.absent refl y (ground arith)
          | inr not_r ↦ found'.absent e y (ground (arith, count-append y r w, h))
        ];
      },
    )
    first (some x) done found o' done' found' = (
      some x,
      rw done refl,
      record {
        here = λ task e.
            (omega (arith, (found.here task e).0, count-append task r w), (found.here task e).1);
        absent = λ e. cc;
      },
    )
