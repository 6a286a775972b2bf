-- ===== src/Uart/Receive.antt =====
-- src/uart.c: the receiving side, `uart_irq_rx_handler` and `uart_async_getc`.
use nycu_osdi.Prelude.{
  append_assoc, append_nil, ℕ, ◌≡◌, ◌∙◌, refl, sym, ap, true, false, Option, none, some, List, [],
  ◌∷◌, ◌++◌, arith,
}
use nycu_osdi.Uart.{Uart, is_full, is_empty, uart_irq_rx_handler, uart_async_getc}
use nycu_osdi.Uart.Queue.{Holds, is_full-Holds, is_empty-Holds, put-Holds, skip-Holds}

-- What a call of `uart_async_getc` gives to its caller.
abbrev pub got : Option ℕ → List ℕ
got none = []
got (some c) = c ∷ []

-- Interrupts and calls in any order, with the characters that the handler took from the device and
-- those that the calls returned, both in order. With a full buffer the handler takes nothing.
pub data Run (s : Uart) : List ℕ → List ℕ → Uart → Type 0 where
  start : Run s [] [] s
  receive :
      (c : ℕ) {taken returned : List ℕ} {t : Uart}
      → Run s taken returned t
      → is_full t.rx ≡ false
      → Run s (taken ++ (c ∷ [])) returned (uart_irq_rx_handler c t)
  overrun :
      (c : ℕ) {taken returned : List ℕ} {t : Uart}
      → Run s taken returned t
      → is_full t.rx ≡ true
      → Run s taken returned (uart_irq_rx_handler c t)
  getc :
      {taken returned : List ℕ} {t : Uart}
      → Run s taken returned t
      → Run s taken (returned ++ got (uart_async_getc t).0) (uart_async_getc t).1

-- With room, the handler stores the character behind the others.
rx_handler-stores :
    (c : ℕ) (s : Uart) {q : List ℕ}
    → Holds s.rx q
    → is_full s.rx ≡ false
    → Holds (uart_irq_rx_handler c s).rx (q ++ (c ∷ []))
unfolding uart_irq_rx_handler
rx_handler-stores c s {q} h room =
    rw room (put-Holds c h (ground (arith, is_full-Holds h, h.short)))

-- Without room, it turns the interrupt off and leaves the buffer.
rx_handler-full :
    (c : ℕ) (s : Uart)
    → is_full s.rx ≡ true
    → ((uart_irq_rx_handler c s).rx ≡ s.rx) × ((uart_irq_rx_handler c s).rx_irq ≡ false)
unfolding uart_irq_rx_handler
rx_handler-full c s full = rw full (refl, refl)

-- On an empty queue nothing is returned, and the interrupt is on; else the front is returned.
pub uart_async_getc-empty :
    (s : Uart)
    → Holds s.rx []
    → ((uart_async_getc s).0 ≡ none)
      × ((uart_async_getc s).1.rx ≡ s.rx)
      × ((uart_async_getc s).1.rx_irq ≡ true)
unfolding uart_async_getc
uart_async_getc-empty s h =
    let empty : is_empty s.rx ≡ true = ground (arith, is_empty-Holds h) in
    rw empty (refl, refl, refl)

pub uart_async_getc-front :
    (s : Uart) {c : ℕ} {q : List ℕ}
    → Holds s.rx (c ∷ q)
    → ((uart_async_getc s).0 ≡ some c) × Holds (uart_async_getc s).1.rx q
unfolding uart_async_getc
uart_async_getc-front s {c} h =
    let busy : is_empty s.rx ≡ false = ground (arith, is_empty-Holds h) in
    rw busy (ap (λ (x : ℕ). some x) h.window.0, skip-Holds c h)

-- From an empty buffer on, the calls return what the handler took, in order: nothing is lost,
-- doubled or reordered, and the rest is still in the buffer.
pub Run-fifo :
    {s t : Uart} {taken returned : List ℕ}
    → Holds s.rx []
    → Run s taken returned t
    → (q : List ℕ) × Holds t.rx q × (taken ≡ returned ++ q)
Run-fifo h Run.start = ([], h, refl)
Run-fifo h (Run.receive c {taken} {returned} {t} r room) =
    let (q, v, e) = Run-fifo h r in
    (
      q ++ (c ∷ []),
      rx_handler-stores c t v room,
      ap (λ l. l ++ (c ∷ [])) e ∙ append_assoc returned q (c ∷ []),
    )
Run-fifo h (Run.overrun c {t} r full) =
    let (q, v, e) = Run-fifo h r in (q, rw (rx_handler-full c t full).0 v, e)
Run-fifo h (Run.getc {taken} {returned} {t} r) = let (q, v, e) = Run-fifo h r in returns q v e
  where
    returns :
        (q : List ℕ)
        → Holds t.rx q
        → taken ≡ returned ++ q
        → (q' : List ℕ) × Holds (uart_async_getc t).1.rx q'
          × (taken ≡ (returned ++ got (uart_async_getc t).0) ++ q')
    returns [] v e =
        let (o, same, on) = uart_async_getc-empty t v in
        ([], rw same v, rw o (e ∙ sym (append_nil (returned ++ []))))
    returns (c ∷ q) v e =
        let (o, rest) = uart_async_getc-front t v in
        (q, rest, rw o (e ∙ sym (append_assoc returned (c ∷ []) q)))
