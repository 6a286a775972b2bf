-- ===== src/Irq/Soon/Task.antt =====
-- `add_task` of src/exception.c with priority 0: the task is the head, and runs at once.
use nycu_osdi.Prelude.{
  ℕ, ◌<◌, subst, false, List, [], ◌∷◌, ◌++◌, ◌==◌, count, count-append, ◌≡◌, ◌∙◌, refl, sym, ap,
  true, Option, none, some, arith, leb, ◌>>=◌, update, update_self,
}
use nycu_osdi.Prelude.Chains.{Chained, Chained-frame}
use nycu_osdi.Timers.{Sorted, add_task, insert, insert_by, execute_task}
use nycu_osdi.Irq.{Handler, Machine, add, run, execute, soon}

-- The list after a task was at its head: the fields of that task are written, and the head has no
-- `prev`.
abbrev passed : (new : ℕ) → Option ℕ → Sorted → Sorted
passed new none s = record s {
  prev = update s.prev new none;
  next = update s.next new none;
  key = update s.key new 0;
}
passed new (some first) s = record s {
  prev = update (update (update s.prev first (some new)) new none) first none;
  next = update s.next new (some first);
  key = update s.key new 0;
}

-- The state before the handler of the task runs.
abbrev pub taken : (new : ℕ) → Handler → Machine → Machine
taken new h s = record s {
  tasks = passed new s.tasks.head s.tasks;
  callback = update s.callback new h;
}

front_key :
    (new first : ℕ) (key : ℕ → ℕ) → leb (update key new 0 new) (update key new 0 first) ≡ true
front_key new first key = ground arith

abbrev sorted : Option ℕ → (prev next : ℕ → Option ℕ) → (key : ℕ → ℕ) → Sorted
sorted head prev next key = record { head = head; prev = prev; next = next; key = key }

-- The new task is the head, and is taken from the list again.
tasks_lem :
    (rounds new : ℕ) (head : Option ℕ) (prev next : ℕ → Option ℕ) (key : ℕ → ℕ)
    → (add_task rounds (some new) 0 (sorted head prev next key) >>= λ l. execute_task l)
      ≡ some (new, passed new head (sorted head prev next key))
unfolding add_task insert insert_by execute_task
tasks_lem rounds new none prev next key = rw (update_self next new none) refl
tasks_lem rounds new (some first) prev next key =
    rw (front_key new first key, update_self next new (some first)) refl

>>=_assoc :
    {A B C : Type 0} (o : Option A) (f : A → Option B) (g : B → Option C)
    → (o >>= λ a. (f a >>= g)) ≡ ((o >>= f) >>= g)
>>=_assoc none f g = refl
>>=_assoc (some a) f g = refl

module _ (on_timer : ℕ → Sorted → Sorted) (rounds new : ℕ) (h : Handler) (s : Machine) where
  -- How `execute` goes on with the task that it takes.
  abbrev go_on : ℕ × Sorted → Option Machine
  go_on r =
      run on_timer rounds (update s.callback new h r.0)
        (record s { tasks = r.1; callback = update s.callback new h })

  soon-steps :
      soon on_timer rounds (some new) h s
      ≡ (add_task rounds (some new) 0 s.tasks >>= λ l. (execute_task l >>= go_on))
  unfolding soon add execute
  soon-steps = sym (
      >>=_assoc (add_task rounds (some new) 0 s.tasks)
        (λ l. some (record s { tasks = l; callback = update s.callback new h }))
        (execute on_timer rounds))

  -- With memory for the task, `add_task(h, 0); execute_task();` runs `h` whatever tasks there are, and
  -- these are the tasks again while it runs.
  pub soon_lem : soon on_timer rounds (some new) h s ≡ run on_timer rounds h (taken new h s)
  soon_lem =
      soon-steps
      ∙ >>=_assoc (add_task rounds (some new) 0 s.tasks) (λ l. execute_task l) go_on
      ∙ ap (λ o. o >>= go_on)
          (tasks_lem rounds new s.tasks.head s.tasks.prev s.tasks.next s.tasks.key)
      ∙ ap (λ g. run on_timer rounds g (taken new h s)) (update_self s.callback new h)

-- The head of the tasks is the same, and all fields of the tasks but the new ones.
pub record Waiting (new : List ℕ) (s t : Machine) : Type 0 where
  pub head : t.tasks.head ≡ s.tasks.head
  pub next : (y : ℕ) → count y new ≡ 0 → t.tasks.next y ≡ s.tasks.next y
  pub key : (y : ℕ) → count y new ≡ 0 → t.tasks.key y ≡ s.tasks.key y
  pub callback : (y : ℕ) → count y new ≡ 0 → t.callback y ≡ s.callback y

pub Waiting-refl : (s : Machine) → Waiting [] s s
Waiting-refl s = record {
  head = refl;
  next = λ y h. refl;
  key = λ y h. refl;
  callback = λ y h. refl;
}

pub more : {new : List ℕ} {s t : Machine} (a : ℕ) → Waiting new s t → Waiting (a ∷ new) s t
more a w = record {
  head = w.head;
  next = λ y h. w.next y (ground (arith, h));
  key = λ y h. w.key y (ground (arith, h));
  callback = λ y h. w.callback y (ground (arith, h));
}

pub wider : {s t : Machine} (new others : List ℕ) → Waiting new s t → Waiting (new ++ others) s t
wider new others w = record {
  head = w.head;
  next = λ y h. w.next y (omega (arith, h, count-append y new others));
  key = λ y h. w.key y (omega (arith, h, count-append y new others));
  callback = λ y h. w.callback y (omega (arith, h, count-append y new others));
}

pub Waiting-trans :
    {xs ys : List ℕ} {s t u : Machine} → Waiting xs s t → Waiting ys t u → Waiting (xs ++ ys) s u
Waiting-trans {xs} {ys} v w = record {
  head = w.head ∙ v.head;
  next = λ y h. w.next y (of_ys y h) ∙ v.next y (of_xs y h);
  key = λ y h. w.key y (of_ys y h) ∙ v.key y (of_xs y h);
  callback = λ y h. w.callback y (of_ys y h) ∙ v.callback y (of_xs y h);
}
  where
    of_xs : (y : ℕ) → count y (xs ++ ys) ≡ 0 → count y xs ≡ 0
    of_xs y h = omega (arith, h, count-append y xs ys)

    of_ys : (y : ℕ) → count y (xs ++ ys) ≡ 0 → count y ys ≡ 0
    of_ys y h = omega (arith, h, count-append y xs ys)

-- A list of tasks without a new one is the list still.
pub Waiting-Chained :
    {new : List ℕ} {s t : Machine}
    → Waiting new s t
    → (xs : List ℕ) → ((y : ℕ) → 0 < count y xs → count y new ≡ 0)
    → Chained s.tasks.next s.tasks.head xs
    → Chained t.tasks.next t.tasks.head xs
      × ((y : ℕ) → 0 < count y xs → (t.tasks.key y ≡ s.tasks.key y) × (t.callback y ≡ s.callback y))
Waiting-Chained {s} {t} w xs apart ch = (
  subst (λ h. Chained t.tasks.next h xs) (sym w.head)
      (Chained-frame s.tasks.next t.tasks.next s.tasks.head xs (λ y h. w.next y (apart y h)) ch),
  λ y h. (w.key y (apart y h), w.callback y (apart y h)),
)

passed-next :
    (new : ℕ) (head : Option ℕ) (s : Sorted) (y : ℕ)
    → (new == y) ≡ false
    → (passed new head s).next y ≡ s.next y
passed-next new none s y h = ground (arith, h)
passed-next new (some first) s y h = ground (arith, h)

passed-key :
    (new : ℕ) (head : Option ℕ) (s : Sorted) (y : ℕ)
    → (new == y) ≡ false
    → (passed new head s).key y ≡ s.key y
passed-key new none s y h = ground (arith, h)
passed-key new (some first) s y h = ground (arith, h)

head-passed : (new : ℕ) (head : Option ℕ) (s : Sorted) → (passed new head s).head ≡ s.head
head-passed new none s = refl
head-passed new (some first) s = refl

pub taken-Waiting :
    (new : ℕ) (h : Handler) (s : Machine) {t : Machine}
    → t.tasks ≡ passed new s.tasks.head s.tasks
    → t.callback ≡ update s.callback new h
    → Waiting (new ∷ []) s t
taken-Waiting new h s p q = record {
  head = ap (λ l. l.head) p ∙ head-passed new s.tasks.head s.tasks;
  next = λ y z. ap (λ l. l.next y) p ∙ passed-next new s.tasks.head s.tasks y (ground (arith, z));
  key = λ y z. ap (λ l. l.key y) p ∙ passed-key new s.tasks.head s.tasks y (ground (arith, z));
  callback = λ y z. ap (λ f. f y) q ∙ ground (arith, z);
}
