-- ===== src/Timers/Expire.antt =====
-- src/timer.c: the loop of `core_timer_handler` over the expired timers.
use nycu_osdi.Prelude.{
  ◌>>=◌, ℕ, zero, suc, ◌≤◌, ◌<◌, ◌≡◌, ◌∙◌, refl, sym, ap, subst, true, Option, none, some, List, [],
  ◌∷◌, ◌++◌, arith, ◌==◌, leb, length, count, Bool-cases, inl, inr,
}
use nycu_osdi.Prelude.Chains.{Chained}
use nycu_osdi.Timers.{Sorted, clear_prev, expire_loop}
use nycu_osdi.Timers.Insert.{Ascending}

clear_prev_next : (o : Option ℕ) (s : Sorted) → (clear_prev o s).next ≡ s.next
clear_prev_next none s = refl
clear_prev_next (some i) s = refl

clear_prev_head : (o : Option ℕ) (s : Sorted) → (clear_prev o s).head ≡ s.head
clear_prev_head none s = refl
clear_prev_head (some i) s = refl

clear_prev_key : (o : Option ℕ) (s : Sorted) → (clear_prev o s).key ≡ s.key
clear_prev_key none s = refl
clear_prev_key (some i) s = refl

-- The timers that ran and those that stay.
pub record Expired (s t : Sorted) (curr_tick : ℕ) (xs ran : List ℕ) : Type 0 where
  pub left : List ℕ
  pub split : xs ≡ ran ++ left
  pub due : (y : ℕ) → 0 < count y ran → s.key y ≤ curr_tick
  pub later : (y : ℕ) → 0 < count y left → curr_tick < s.key y
  pub chained : Chained t.next t.head left
  pub key : t.key ≡ s.key

first_due :
    (key : ℕ → ℕ) (curr_tick x : ℕ) (ran : List ℕ)
    → key x ≤ curr_tick
    → ((y : ℕ) → 0 < count y ran → key y ≤ curr_tick)
    → (y : ℕ) → 0 < count y (x ∷ ran)
    → key y ≤ curr_tick
first_due key curr_tick x ran now rest y h = elim (Bool-cases (x == y)) [
  | inl same ↦ (let q : x ≡ y = ground arith in subst (λ (z : ℕ). key z ≤ curr_tick) q now)
  | inr other ↦ rest y (ground (arith, h))
]

all_later :
    (key : ℕ → ℕ) (curr_tick x : ℕ) (xs : List ℕ)
    → curr_tick < key x
    → Ascending key (x ∷ xs)
    → (y : ℕ) → 0 < count y (x ∷ xs)
    → curr_tick < key y
all_later key curr_tick x xs now a y h = elim (Bool-cases (x == y)) [
  | inl same ↦ (let q : x ≡ y = ground arith in subst (λ (z : ℕ). curr_tick < key z) q now)
  | inr other ↦ ground (arith, a.0 y, h)
]

expire_step :
    (callback : ℕ → Sorted → Sorted) (n curr_tick : ℕ) (s : Sorted) (x : ℕ)
    → s.head ≡ some x
    → leb (s.key x) curr_tick ≡ true
    → expire_loop callback (suc n) curr_tick s ≡ (
        expire_loop callback n curr_tick
          (callback x (clear_prev (s.next x) (record s { head = s.next x })))
        >>= (λ r. some (x ∷ r.0, r.1)))
unfolding expire_loop
expire_step callback n curr_tick s x h now = rw (h, expire_loop) (rw now refl)

-- With more rounds than timers, a list in order, and callbacks of the timers that are due which leave
-- the list as it is, the loop ends: it runs the timers that are due, in order, and leaves those that are not.
pub expire_loop-Expired :
    (callback : ℕ → Sorted → Sorted) (n curr_tick : ℕ) (s : Sorted) (xs : List ℕ)
    → ((timer : ℕ) (u : Sorted)
        → 0 < count timer xs
        → s.key timer ≤ curr_tick
        → callback timer u ≡ u)
    → length xs < n
    → Chained s.next s.head xs
    → Ascending s.key xs
    → (ran : List ℕ) × (t : Sorted) × (expire_loop callback n curr_tick s ≡ some (ran, t))
      × Expired s t curr_tick xs ran
unfolding expire_loop
expire_loop-Expired callback zero curr_tick s xs quiet lt ch a = absurd (omega arith)
expire_loop-Expired callback (suc n) curr_tick s [] quiet lt ch a = (
  [],
  s,
  rw ch refl,
  record {
    left = [];
    split = refl;
    due = λ y h. absurd (omega (arith, h));
    later = λ y h. absurd (omega (arith, h));
    chained = ch;
    key = refl;
  },
)
expire_loop-Expired callback (suc n) curr_tick s (x ∷ xs) quiet lt ch a =
    elim (Bool-cases (leb (s.key x) curr_tick)) [
      | inr not_due ↦ (
        [],
        s,
        rw ch.0 (rw not_due refl),
        record {
          left = x ∷ xs;
          split = refl;
          due = λ y h. absurd (omega (arith, h));
          later = all_later s.key curr_tick x xs (ground arith) a;
          chained = ch;
          key = refl;
        },
      )
      | inl now ↦
          (let popped = record s { head = s.next x } in
            let u = clear_prev (s.next x) popped in
            let same_next = clear_prev_next (s.next x) popped in
            let same_head = clear_prev_head (s.next x) popped in
            let same_key = clear_prev_key (s.next x) popped in
            let rest_ch : Chained u.next u.head xs =
              subst (λ f. Chained f u.head xs) (sym same_next)
                (subst (λ h. Chained s.next h xs) (sym same_head) ch.1) in
            let (ran, t, done, e) =
              expire_loop-Expired callback n curr_tick u xs
                (λ timer v i due.
                  quiet timer v (ground (arith, i)) (subst (λ k. k timer ≤ curr_tick) same_key due))
                (omega arith) rest_ch (subst (λ k. Ascending k xs) (sym same_key) a.1) in
            (
              x ∷ ran,
              t,
              expire_step callback n curr_tick s x ch.0 now
                  ∙ (rw (quiet x u (ground arith) (ground arith)) (rw done refl)),
              record {
                left = e.left;
                split = ap (λ l. x ∷ l) e.split;
                due =
                    first_due s.key curr_tick x ran (ground arith)
                      (subst (λ k. (y : ℕ) → 0 < count y ran → k y ≤ curr_tick) same_key e.due);
                later =
                    subst (λ k. (y : ℕ) → 0 < count y e.left → curr_tick < k y) same_key e.later;
                chained = e.chained;
                key = e.key ∙ same_key;
              },
            ))
    ]
