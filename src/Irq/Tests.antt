-- ===== src/Irq/Tests.antt =====
-- A concrete machine for src/exception.c: no timers and no tasks, and an empty driver.
use nycu_osdi.Prelude.{ℕ, ◌<◌, ◌≡◌, refl, true, false, none, some, [], count}
use nycu_osdi.Prelude.Chains.{Chained}
use nycu_osdi.Timers.{Sorted, Timers, core_timer_handler, expire_loop}
use nycu_osdi.Uart.{Ring}
use nycu_osdi.Irq.{tx, Machine, irq_entry}
use nycu_osdi.Irq.Soon.{served, irq_entry-served}

abbrev no_elements : Sorted
no_elements = record { head = none; prev = λ i. none; next = λ i. none; key = λ i. 0 }

abbrev no_timers : Timers
no_timers = record { list = no_elements; irq = true; tval = 0 }

abbrev empty_ring : Ring
empty_ring = record { buffer = λ i. 0; head = 0; tail = 0 }

abbrev idle_machine : Machine
idle_machine = record {
  tasks = no_elements;
  callback = λ i. tx;
  uart = record {
    rx = empty_ring;
    tx = empty_ring;
    rx_irq = true;
    tx_irq = true;
    irq_line = true;
    sent = [];
  };
  timers = no_timers;
  masked = false;
}

irq_entry-served_example :
    (t : Machine) × (irq_entry
        (λ i s. s)
        1
        false
        true
        true
        true
        true
        (some 3)
        (some 1)
        (some 2)
        9
        65
        idle_machine
      ≡ some t)
    × (t.uart ≡ served true true 65 idle_machine.uart)
    × (t.timers ≡ no_timers)
    × Chained t.tasks.next t.tasks.head []
    × ((y : ℕ) → 0 < count y [] → (t.tasks.key y ≡ 0) × (t.callback y ≡ tx))
    × (t.masked ≡ false)
unfolding core_timer_handler expire_loop
irq_entry-served_example =
    irq_entry-served (λ i s. s) 1 false true true true true 1 2 3 9 65 idle_machine [] []
      (record no_timers { irq = false }) refl refl refl
