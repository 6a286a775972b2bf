-- ===== src/Irq.antt =====
-- src/exception.c: `irq_entry`, over the list of tasks of src/tasks.c, the timers of src/timer.c and the
-- handlers of src/uart.c; `uart_irq_handler` of src/uart.c.
--
-- The registers that a handler reads are arguments. What `alloc` gives for a task is an argument, and
-- that a task is freed is left out, as are the calls of `schedule` and `check_pending_signals`. A result
-- none is a NULL that the code dereferences, or rounds that do not suffice.
pub mod Soon
mod Tests
use nycu_osdi.Prelude.{
  ℕ, ◌>>=◌, Bool, true, false, ◌&&◌, Option, none, some, List, if◌then◌else◌, update,
}
use nycu_osdi.Timers.{Sorted, Timers, add_task, execute_task, core_timer_handler}
use nycu_osdi.Uart.{Uart, uart_irq_rx_handler, uart_irq_tx_handler}

-- The callbacks that are added as tasks; `rx` with the character that it reads from the device.
pub data Handler : Type 0 where
  rx : ℕ → Handler
  tx : Handler
  timer : ℕ → Handler

-- The tasks by their fields, the driver and the timers; `masked` is set while interrupts are off.
pub record Machine : Type 0 where
  pub tasks : Sorted
  pub callback : ℕ → Handler
  pub uart : Uart
  pub timers : Timers
  pub masked : Bool

abbrev pub disable_irq_el1 : Machine → Machine
disable_irq_el1 s = record s { masked = true }

abbrev pub enable_irq_el1 : Machine → Machine
enable_irq_el1 s = record s { masked = false }

-- `add_task(callback, 0)`
unfoldable pub add : (rounds : ℕ) → Option ℕ → Handler → Machine → Option Machine
add rounds none h s = some s
add rounds (some new) h s = add_task rounds (some new) 0 s.tasks >>= λ l.
    some (record s { tasks = l; callback = update s.callback new h })

module _ (on_timer : ℕ → Sorted → Sorted) (rounds : ℕ) where
  -- `core_timer_handler` turns the interrupts on at its beginning.
  unfoldable pub run : Handler → Machine → Option Machine
  run (rx c) s = some (record s { uart = uart_irq_rx_handler c s.uart })
  run tx s = some (record s { uart = uart_irq_tx_handler s.uart })
  run (timer tick) s = core_timer_handler on_timer rounds tick s.timers >>= λ r.
      some (record (enable_irq_el1 s) { timers = r.1 })

  -- `execute_task()`
  unfoldable pub execute : Machine → Option Machine
  execute s = execute_task s.tasks >>= λ r. run (s.callback r.0) (record s { tasks = r.1 })

  -- `add_task(h, 0); execute_task();`
  unfoldable pub soon : Option ℕ → Handler → Machine → Option Machine
  soon new h s = add rounds new h s >>= λ t. execute t

  abbrev pub soon_if : Bool → Option ℕ → Handler → Machine → Option Machine
  soon_if b new h s = if b then soon new h s else some s

  -- The bits 2 and 1 of `AUX_MU_IIR_REG`, each as it is read, and what `alloc` gives for each task.
  unfoldable pub uart_irq_handler :
      (received sendable : Bool) → (for_rx for_tx : Option ℕ) → (c : ℕ) → Machine → Option Machine
  uart_irq_handler received sendable for_rx for_tx c s =
      soon_if received for_rx (rx c) s >>= λ t. soon_if sendable for_tx tx t

  -- `irq_src & TIMER_IRQ`, and `(irq_src & GPU_IRQ) && (pending_1 & (1 << 29))`.
  unfoldable pub irq_entry :
      (timer_irq gpu_irq uart_irq received sendable : Bool)
      → (for_timer for_rx for_tx : Option ℕ) → (tick c : ℕ) → Machine
      → Option Machine
  irq_entry timer_irq gpu_irq uart_irq received sendable for_timer for_rx for_tx tick c s =
      (if timer_irq
        then soon for_timer (timer tick) (disable_irq_el1 s)
        else if gpu_irq && uart_irq
        then uart_irq_handler received sendable for_rx for_tx c (disable_irq_el1 s)
        else some (disable_irq_el1 s))
      >>= λ t. some (enable_irq_el1 t)
