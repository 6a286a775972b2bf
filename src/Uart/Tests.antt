-- ===== src/Uart/Tests.antt =====
-- Concrete runs of the buffered input and output of src/uart.c.
use nycu_osdi.Prelude.{
  ℕ, zero, suc, ◌<◌, ◌≡◌, refl, true, false, List, [], ◌∷◌, ◌++◌, arith, length,
}
use nycu_osdi.Uart.{
  Ring, Uart, cr, uart_enable_tx_irq, uart_irq_rx_handler, uart_async_getc, uart_async_putc,
  uart_async_puts,
}
use nycu_osdi.Uart.Queue.{Holds, Window}
use nycu_osdi.Uart.Receive.{Run, Run-fifo, got}
use nycu_osdi.Uart.Send.{Accepted, lines, interrupts, onto, putc-refuses, putc-loses, puts-sent}

abbrev empty_ring : Ring
empty_ring = record { buffer = λ i. 0; head = 0; tail = 0 }

-- After `init_uart` and with the interrupts off.
abbrev idle : Uart
idle = record {
  rx = empty_ring;
  tx = empty_ring;
  rx_irq = false;
  tx_irq = false;
  irq_line = false;
  sent = [];
}

empty_ring-Holds : Holds empty_ring []
empty_ring-Holds = record { short = omega arith; inside = omega arith; ends = refl; window = tt }

-- One character comes in, and one call takes it.
abbrev one_in : Uart
one_in = uart_irq_rx_handler 65 idle

Run-fifo_example :
    (q : List ℕ) × Holds (uart_async_getc one_in).1.rx q
    × ((65 ∷ []) ≡ ([] ++ got (uart_async_getc one_in).0) ++ q)
Run-fifo_example =
    Run-fifo {s = idle} {t = (uart_async_getc one_in).1} empty_ring-Holds
      (Run.getc (Run.receive 65 (Run.start) refl))

puts-sent_example :
    ((uart_async_puts (72 ∷ 10 ∷ []) idle).0 ≡ true)
    × ((interrupts (length (lines (72 ∷ 10 ∷ []))) (uart_async_puts (72 ∷ 10 ∷ []) idle).1).sent
        ≡ onto (lines (72 ∷ 10 ∷ [])) [])
puts-sent_example = puts-sent (72 ∷ 10 ∷ []) idle empty_ring-Holds (omega arith)

-- A send buffer with `n` zeros waiting.
abbrev zeros : ℕ → List ℕ
zeros zero = []
zeros (suc n) = 0 ∷ zeros n

length-zeros : (n : ℕ) → length (zeros n) ≡ n
length-zeros zero = refl
length-zeros (suc n) = omega (arith, length-zeros n)

zeros-Window : (n i : ℕ) → Window (λ j. 0) i (zeros n)
zeros-Window zero i = tt
zeros-Window (suc n) i = (refl, zeros-Window n _)

abbrev loaded : ℕ → Uart
loaded n = record idle { tx = record empty_ring { head = n } }

loaded-Holds : (n : ℕ) → n < 4096 → Holds (loaded n).tx (zeros n)
loaded-Holds n lt = record {
  short = omega (arith, length-zeros n);
  inside = omega arith;
  ends = omega (arith, length-zeros n);
  window = zeros-Window n 0;
}

putc-loses_example : Accepted (loaded 4094) (uart_async_putc cr (loaded 4094)) []
putc-loses_example = putc-loses (loaded 4094) (loaded-Holds 4094 (omega arith)) (length-zeros 4094)

putc-refuses_example : uart_async_putc 65 (loaded 4095) ≡ (false, uart_enable_tx_irq (loaded 4095))
putc-refuses_example =
    putc-refuses 65 (loaded 4095) (loaded-Holds 4095 (omega arith)) (length-zeros 4095)
