-- ===== src/Uart/Blocking.antt =====
-- src/uart.c: the calls that wait for the device.
--
-- The wire is the list of the characters that come, and of those that were sent, in order. A result
-- none is a wait for a character that does not come; the wait for the transmitter always ends.
pub mod Decimal
pub mod Itoa
pub mod Lines
pub mod Reversal
mod Tests
use nycu_osdi.Prelude.{
  ℕ, zero, suc, ◌+◌, ◌-◌, ◌*◌, ◌/◌, ◌%◌, ◌^◌, Option, none, some, List, [], ◌∷◌, ◌++◌, ◌==◌, ltb,
  if◌then◌else◌, ◌>>=◌,
}
use nycu_osdi.Prelude.Int.{ℤ, pos, negsuc}
use nycu_osdi.Uart.{cr, lf}

pub record Wire : Type 0 where
  pub line : List ℕ
  pub sent : List ℕ

abbrev pub uart_putc : ℕ → Wire → Wire
uart_putc c w = record w { sent = w.sent ++ (c ∷ []) }

-- The characters that `uart_puts` sends for a string.
unfoldable pub uart_puts : List ℕ → Wire → Wire
uart_puts [] w = w
uart_puts (c ∷ str) w =
    uart_puts str (if c == lf then uart_putc lf (uart_putc cr w) else uart_putc c w)

-- The value returned is the number of characters.
unfoldable pub uart_putn : List ℕ → Wire → Wire
uart_putn [] w = w
uart_putn (c ∷ str) w = uart_putn str (uart_putc c w)

-- `uart_getc` by the characters that come.
unfoldable pub getc_from : List ℕ → Wire → Option (ℕ × Wire)
getc_from [] w = none
getc_from (c ∷ line) w = some (c, record w { line = line })

unfoldable pub uart_getc : Wire → Option (ℕ × Wire)
uart_getc w = getc_from w.line w

-- What `uart_getn` stores.
unfoldable pub uart_getn : (n : ℕ) → Wire → Option (List ℕ × Wire)
uart_getn zero w = some ([], w)
uart_getn (suc n) w = uart_getc w >>= λ r. uart_getn n r.1 >>= λ rest. some (r.0 ∷ rest.0, rest.1)

-- What `uart_gets` stores, up to the '\r'; it has no bound but the rounds here.
unfoldable pub uart_gets : (rounds : ℕ) → Wire → Option (List ℕ × Wire)
uart_gets zero w = none
uart_gets (suc n) w = uart_getc w >>= λ r.
    let rest : Option (List ℕ × Wire) =
      uart_gets n (uart_putc r.0 r.1) >>= λ more. some (r.0 ∷ more.0, more.1) in
    if r.0 == cr then some ([], uart_puts (cr ∷ lf ∷ []) r.1) else rest

-- `do { str[i++] = d % 10 + '0'; d /= 10; } while (d > 0)`: the characters of `str`, the last one first,
-- in which order they are sent. None is a write behind the end of the array of `room` bytes.
unfoldable pub digits_loop : (room d : ℕ) → List ℕ → Option (List ℕ)
digits_loop zero d str = none
digits_loop (suc n) d str =
    let str' = (d % 10 + 48) ∷ str in
    let rest = digits_loop n (d / 10) str' in if ltb 0 (d / 10) then rest else some str'

-- What `uart_int` sends for an int above the least one.
unfoldable pub int_digits : ℤ → Option (List ℕ)
int_digits (pos d) = digits_loop 12 d []
int_digits (negsuc d) = digits_loop 12 (suc d) [] >>= λ str. some (45 ∷ str)

unfoldable pub uart_int : ℤ → Wire → Option Wire
uart_int d w = int_digits d >>= λ str. some (uart_putn str w)
