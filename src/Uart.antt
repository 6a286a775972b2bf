-- ===== src/Uart.antt =====
-- src/uart.c: the interrupt-driven input and output over the two ring buffers.
--
-- A char is its code, from 0 to 255. Of the registers, `AUX_MU_IER_REG` is its bits 0 and 1,
-- `ENABLE_IRQS_1` its bit 29, and the writes to `AUX_MU_IO_REG` are a list, newest first; a read of
-- it is the argument of the handler. The head of a ring is where the next character goes, the tail
-- where the next one comes from.
pub mod Blocking
pub mod Queue
pub mod Receive
pub mod Send
mod Tests
use nycu_osdi.Prelude.{
  ℕ, ◌+◌, ◌%◌, Bool, true, false, Option, none, some, List, [], ◌∷◌, ◌==◌, if◌then◌else◌, update,
}

abbrev pub buffer_size : ℕ
buffer_size = 4096

pub record Ring : Type 0 where
  pub buffer : ℕ → ℕ
  pub head : ℕ
  pub tail : ℕ

pub record Uart : Type 0 where
  pub rx : Ring
  pub tx : Ring
  pub rx_irq : Bool
  pub tx_irq : Bool
  pub irq_line : Bool
  pub sent : List ℕ

-- `buffer[head] = c; head = (head + 1) % BUFFER_SIZE`
unfoldable pub put : ℕ → Ring → Ring
put c r = record r { buffer = update r.buffer r.head c; head = (r.head + 1) % buffer_size }

-- `tail = (tail + 1) % BUFFER_SIZE`
unfoldable pub skip : Ring → Ring
skip r = record r { tail = (r.tail + 1) % buffer_size }

abbrev pub is_full : Ring → Bool
is_full r = (r.head + 1) % buffer_size == r.tail

abbrev pub is_empty : Ring → Bool
is_empty r = r.head == r.tail

abbrev pub uart_enable_tx_irq : Uart → Uart
uart_enable_tx_irq s = record s { tx_irq = true; irq_line = true }

abbrev pub uart_disable_rx_irq : Uart → Uart
uart_disable_rx_irq s = record s { rx_irq = false }

abbrev pub uart_disable_tx_irq : Uart → Uart
uart_disable_tx_irq s = record s { tx_irq = false }

-- `c` is what a read of `AUX_MU_IO_REG` gives.
pub uart_irq_rx_handler : ℕ → Uart → Uart
uart_irq_rx_handler c s =
    if is_full s.rx then uart_disable_rx_irq s else record s { rx = put c s.rx }

pub uart_irq_tx_handler : Uart → Uart
uart_irq_tx_handler s =
    if is_empty s.tx
    then uart_disable_tx_irq s
    else record s { sent = s.tx.buffer s.tx.tail ∷ s.sent; tx = skip s.tx }

-- none is the return value 0, some c is 1 with c in `*ch`.
pub uart_async_getc : Uart → Option ℕ × Uart
uart_async_getc s =
    if is_empty s.rx
    then (none, record s { rx_irq = true })
    else (some (s.rx.buffer s.rx.tail), record s { rx = skip s.rx })

-- The codes of '\r' and '\n'.
abbrev pub cr : ℕ
cr = 13

abbrev pub lf : ℕ
lf = 10

-- The Boolean is the return value.
pub uart_async_putc : ℕ → Uart → Bool × Uart
uart_async_putc c s =
    if is_full s.tx
    then (false, uart_enable_tx_irq s)
    else if c == cr
    then (true, uart_enable_tx_irq (record s { tx = put lf (put cr s.tx) }))
    else (true, uart_enable_tx_irq (record s { tx = put c s.tx }))

-- A call, and the rest of the work if it returns 1.
abbrev pub and_then : Bool × Uart → (Uart → Bool × Uart) → Bool × Uart
and_then (false, s) k = (false, s)
and_then (true, s) k = k s

-- The string is the list of its characters up to the null byte.
pub uart_async_puts : List ℕ → Uart → Bool × Uart
uart_async_puts [] s = (true, s)
uart_async_puts (c ∷ str) s =
    if c == lf
    then and_then (uart_async_putc cr s)
        (λ t. and_then (uart_async_putc lf t) (λ u. uart_async_puts str u))
    else and_then (uart_async_putc c s) (λ t. uart_async_puts str t)
