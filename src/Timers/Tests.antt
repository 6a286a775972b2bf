-- ===== src/Timers/Tests.antt =====
-- Concrete lists of timers for src/timer.c.
use nycu_osdi.Prelude.{
  ℕ, ◌≤◌, ◌<◌, ◌≡◌, refl, Bool, false, count, ◌==◌, if◌then◌else◌, none, some, List, [], ◌∷◌, arith,
  update,
}
use nycu_osdi.Timers.{Sorted, insert, expire_loop}
use nycu_osdi.Timers.Insert.{Ascending, placed, Inserted, insert-Inserted}
use nycu_osdi.Timers.Expire.{Expired, expire_loop-Expired}

-- Timer 1 at 10 and timer 2 at 20; timer 3, not in the list, is for 15.
abbrev two_timers : Sorted
two_timers = record {
  head = some 1;
  prev = update (λ i. none) 2 (some 1);
  next = update (λ i. none) 1 (some 2);
  key = update (update (update (λ i. 0) 1 10) 2 20) 3 15;
}

two_timers-Ascending : Ascending two_timers.key (1 ∷ 2 ∷ [])
two_timers-Ascending = (λ y h. ground arith, (λ y h. absurd (omega (arith, h)), tt))

insert-Inserted_example :
    (first : Bool) × (t : Sorted) × (insert 5 3 two_timers ≡ some (first, t))
    × Inserted two_timers t 3 (1 ∷ 2 ∷ [])
    × Ascending t.key (placed two_timers.key 3 (1 ∷ 2 ∷ []))
insert-Inserted_example =
    insert-Inserted 5 3 two_timers (1 ∷ 2 ∷ []) (omega arith) (refl, (refl, refl))
      (λ p. ground arith) refl two_timers-Ascending

-- The callback of timer 2, which is not due, would empty the list.
abbrev emptying : ℕ → Sorted → Sorted
emptying timer u = if timer == 2 then record u { head = none } else u

first_quiet :
    (timer : ℕ) (u : Sorted)
    → 0 < count timer (1 ∷ 2 ∷ [])
    → two_timers.key timer ≤ 12
    → emptying timer u ≡ u
first_quiet timer u listed due =
    let other : (timer == 2) ≡ false = ground (arith, due) in rw other refl

expire_loop-Expired_example :
    (ran : List ℕ) × (t : Sorted) × (expire_loop emptying 5 12 two_timers ≡ some (ran, t))
    × Expired two_timers t 12 (1 ∷ 2 ∷ []) ran
expire_loop-Expired_example =
    expire_loop-Expired emptying 5 12 two_timers (1 ∷ 2 ∷ []) first_quiet (omega arith)
      (refl, (refl, refl)) two_timers-Ascending
