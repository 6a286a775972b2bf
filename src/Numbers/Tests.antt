-- ===== src/Numbers/Tests.antt =====
-- Concrete numbers for src/utils.c.
use nycu_osdi.Prelude.{◌≡◌, refl, [], ◌∷◌, arith}
use nycu_osdi.Numbers.{hex_to_uint, hex_loop, digit_value, uart_hex}
use nycu_osdi.Numbers.Hex.{hex_to_uint-uart_hex}

-- "1A3"
hex_of_419 : hex_to_uint (49 ∷ 65 ∷ 51 ∷ []) ≡ 419
unfolding hex_loop digit_value
hex_of_419 = refl

hex_to_uint-uart_hex_example : hex_to_uint (uart_hex 48879) ≡ 48879
hex_to_uint-uart_hex_example = hex_to_uint-uart_hex 48879 (omega arith)
