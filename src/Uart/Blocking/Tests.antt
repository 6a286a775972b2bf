-- ===== src/Uart/Blocking/Tests.antt =====
-- Concrete lines and numbers for the calls of src/uart.c that wait.
use nycu_osdi.Prelude.{ℕ, ◌-◌, ◌^◌, ◌≡◌, refl, some, List, [], ◌∷◌, ◌++◌, arith}
use nycu_osdi.Prelude.Int.{negsuc}
use nycu_osdi.Numbers.{atoi, atoi_loop, itoa}
use nycu_osdi.Uart.Blocking.{uart_int, int_digits, digits_loop, uart_gets}
use nycu_osdi.Uart.Blocking.Itoa.{itoa-uart_int}
use nycu_osdi.Uart.Blocking.Decimal.{uart_int-atoi}
use nycu_osdi.Uart.Blocking.Lines.{wire, uart_gets_lem}

-- -305
uart_int-atoi_example :
    (str : List ℕ) × (uart_int (negsuc 304) (wire [] []) ≡ some (wire [] ([] ++ (45 ∷ str))))
    × (atoi str ≡ 305)
uart_int-atoi_example = uart_int-atoi (negsuc 304) (wire [] []) (omega arith)

printed : int_digits (negsuc 304) ≡ some (45 ∷ 51 ∷ 48 ∷ 53 ∷ [])
unfolding int_digits digits_loop
printed = refl

-- `atoi` knows no sign: of "-5" it makes (45 - 48) * 10 + 5 = -25.
minus_five : atoi (45 ∷ 53 ∷ []) ≡ 2 ^ 32 - 25
unfolding atoi_loop
minus_five = refl

-- "hi" and a return
uart_gets_lem_example :
    uart_gets 3 (wire (104 ∷ 105 ∷ 13 ∷ 120 ∷ []) (35 ∷ []))
    ≡ some (104 ∷ 105 ∷ [], wire (120 ∷ []) (35 ∷ 104 ∷ 105 ∷ 13 ∷ 13 ∷ 10 ∷ []))
uart_gets_lem_example = uart_gets_lem 3 (104 ∷ 105 ∷ []) (120 ∷ []) (35 ∷ []) (omega arith) refl

itoa-uart_int_example :
    (str : List ℕ) × (itoa (negsuc 304) (λ i. 7) ≡ some str) × (int_digits (negsuc 304) ≡ some str)
itoa-uart_int_example = itoa-uart_int (negsuc 304) (λ i. 7) (omega arith)
