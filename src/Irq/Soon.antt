-- ===== src/Irq/Soon.antt =====
-- `irq_entry` of src/exception.c and `uart_irq_handler` of src/uart.c, whose tasks have priority 0.
pub mod Task
use nycu_osdi.Prelude.{
  ℕ, ◌≡◌, ◌∙◌, refl, ap, Bool, true, false, Option, none, some, List, [], ◌∷◌, ◌++◌, ◌+◌, ◌<◌,
  arith, count, ◌&&◌, ◌>>=◌, if◌then◌else◌,
}
use nycu_osdi.Timers.{Timers, core_timer_handler, Sorted, execute_task}
use nycu_osdi.Prelude.Chains.{Chained}
use nycu_osdi.Uart.{Uart, uart_irq_rx_handler, uart_irq_tx_handler}
use nycu_osdi.Irq.{
  rx, tx, timer, Machine, add, run, execute, soon, uart_irq_handler, irq_entry, disable_irq_el1,
  enable_irq_el1,
}
use nycu_osdi.Irq.Soon.Task.{
  taken, soon_lem, Waiting, Waiting-refl, Waiting-trans, wider, more, Waiting-Chained,
  taken-Waiting,
}

-- What the driver does in `uart_irq_handler`: a character is taken first, then one is sent.
abbrev pub served : (received sendable : Bool) → (c : ℕ) → Uart → Uart
served received sendable c u =
    let u' = if received then uart_irq_rx_handler c u else u in
    if sendable then uart_irq_tx_handler u' else u'

module _ (on_timer : ℕ → Sorted → Sorted) (rounds : ℕ) where
  -- A result with the driver and the timers given, and the tasks as before, but for the fields of the
  -- new ones.
  abbrev pub Ran : List ℕ → Option Machine → Uart → Timers → Machine → Type 0
  Ran new o u l s = (t : Machine) × (o ≡ some t) × (t.uart ≡ u) × (t.timers ≡ l) × Waiting new s t

  soon-rx :
      (new c : ℕ) (s : Machine)
      → Ran
          (new ∷ [])
          (soon on_timer rounds (some new) (rx c) s)
          (uart_irq_rx_handler c s.uart)
          s.timers
          s
  unfolding run
  soon-rx new c s = (
    record (taken new (rx c) s) { uart = uart_irq_rx_handler c s.uart },
    soon_lem on_timer rounds new (rx c) s,
    refl,
    refl,
    taken-Waiting new (rx c) s refl refl,
  )

  soon-tx :
      (new : ℕ) (s : Machine)
      → Ran
          (new ∷ [])
          (soon on_timer rounds (some new) tx s)
          (uart_irq_tx_handler s.uart)
          s.timers
          s
  unfolding run
  soon-tx new s = (
    record (taken new tx s) { uart = uart_irq_tx_handler s.uart },
    soon_lem on_timer rounds new tx s,
    refl,
    refl,
    taken-Waiting new tx s refl refl,
  )

  soon-timer :
      (new tick : ℕ) (s : Machine) (ran : List ℕ) (l : Timers)
      → core_timer_handler on_timer rounds tick s.timers ≡ some (ran, l)
      → Ran (new ∷ []) (soon on_timer rounds (some new) (timer tick) s) s.uart l s
  unfolding run
  soon-timer new tick s ran l e = (
    record (enable_irq_el1 (taken new (timer tick) s)) { timers = l },
    soon_lem on_timer rounds new (timer tick) s
        ∙ ap
            (λ o.
              o >>= λ r. some (record (enable_irq_el1 (taken new (timer tick) s)) { timers = r.1 }))
            e,
    refl,
    refl,
    taken-Waiting new (timer tick) s refl refl,
  )

  sent_after :
      (new : List ℕ) (sendable : Bool) (b : ℕ) (u : Uart) (l : Timers) (s t : Machine)
      → t.uart ≡ u
      → t.timers ≡ l
      → Waiting new s t
      → Ran
          (new ++ (b ∷ []))
          (if sendable then soon on_timer rounds (some b) tx t else some t)
          (if sendable then uart_irq_tx_handler u else u)
          l
          s
  sent_after new false b u l s t p q w = (t, refl, p, q, wider new (b ∷ []) w)
  sent_after new true b u l s t p q w =
      let (t', ran, p', q', w') = soon-tx b t in
      (t', ran, p' ∙ ap uart_irq_tx_handler p, q' ∙ q, Waiting-trans w w')

  uart_irq_handler-served :
      (received sendable : Bool) (a b c : ℕ) (s : Machine)
      → Ran
          (a ∷ b ∷ [])
          (uart_irq_handler on_timer rounds received sendable (some a) (some b) c s)
          (served received sendable c s.uart)
          s.timers
          s
  unfolding uart_irq_handler
  uart_irq_handler-served false sendable a b c s =
      let (t, ran, p, q, w) =
        sent_after [] sendable b s.uart s.timers s s refl refl (Waiting-refl s) in
      (t, ran, p, q, more a w)
  uart_irq_handler-served true sendable a b c s =
      let (t, ran, p, q, w) = soon-rx a c s in
      let (t', ran', p', q', w') =
        sent_after (a ∷ []) sendable b (uart_irq_rx_handler c s.uart) s.timers s t p q w in
      (
        t',
        ap (λ o. o >>= λ x. if sendable then soon on_timer rounds (some b) tx x else some x) ran
            ∙ ran',
        p',
        q',
        w',
      )

  -- With memory for its tasks that no waiting task lies in, and a handler of the timer that ends,
  -- `irq_entry` runs the handlers before it returns: on an interrupt of the timer its handler alone, else
  -- on one of the serial driver the receiving one, then the sending one, as far as their bits are set. All
  -- tasks that wait are still in the list, in their order, with their priorities and callbacks, and the
  -- interrupts are on.
  pub irq_entry-served :
      (timer_irq gpu_irq uart_irq received sendable : Bool) (a b d tick c : ℕ) (s : Machine)
      (ran xs : List ℕ) (l : Timers)
      → core_timer_handler on_timer rounds tick s.timers ≡ some (ran, l)
      → Chained s.tasks.next s.tasks.head xs
      → count a xs + count b xs + count d xs ≡ 0
      → (t : Machine) × (irq_entry on_timer rounds timer_irq gpu_irq uart_irq received sendable
            (some d)
            (some a)
            (some b)
            tick
            c
            s
          ≡ some t)
        × (t.uart ≡ (
            if timer_irq
            then s.uart
            else if gpu_irq && uart_irq
            then served received sendable c s.uart
            else s.uart))
        × (t.timers ≡ (if timer_irq then l else s.timers))
        × Chained t.tasks.next t.tasks.head xs
        × ((y : ℕ)
            → 0 < count y xs
            → (t.tasks.key y ≡ s.tasks.key y) × (t.callback y ≡ s.callback y))
        × (t.masked ≡ false)
  unfolding irq_entry
  irq_entry-served true gpu_irq uart_irq received sendable a b d tick c s ran xs l e ch new =
      let (t, run, p, q, w) = soon-timer d tick (disable_irq_el1 s) ran l e in
      let (chained, same) = Waiting-Chained w xs (λ y h. ground (arith, h, new)) ch in
      (
        enable_irq_el1 t,
        ap (λ o. o >>= λ x. some (enable_irq_el1 x)) run,
        p,
        q,
        chained,
        same,
        refl,
      )
  irq_entry-served false false uart_irq received sendable a b d tick c s ran xs l e ch new =
      (enable_irq_el1 s, refl, refl, refl, ch, (λ y h. (refl, refl)), refl)
  irq_entry-served false true false received sendable a b d tick c s ran xs l e ch new =
      (enable_irq_el1 s, refl, refl, refl, ch, (λ y h. (refl, refl)), refl)
  irq_entry-served false true true received sendable a b d tick c s ran xs l e ch new =
      let (t, run, p, q, w) = uart_irq_handler-served received sendable a b c (disable_irq_el1 s) in
      let (chained, same) = Waiting-Chained w xs (λ y h. ground (arith, h, new)) ch in
      (
        enable_irq_el1 t,
        ap (λ o. o >>= λ x. some (enable_irq_el1 x)) run,
        p,
        q,
        chained,
        same,
        refl,
      )

  -- Without memory for its task, and with none waiting, an interrupt of the timer ends in a read
  -- through NULL.
  pub irq_entry-enomem :
      (gpu_irq uart_irq received sendable : Bool) (for_rx for_tx : Option ℕ) (tick c : ℕ)
      (s : Machine)
      → s.tasks.head ≡ none
      → irq_entry on_timer rounds true gpu_irq uart_irq received sendable none for_rx for_tx tick c
          s
        ≡ none
  unfolding irq_entry soon add execute execute_task
  irq_entry-enomem gpu_irq uart_irq received sendable for_rx for_tx tick c s e =
      rw (e, execute_task) refl
