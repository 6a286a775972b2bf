-- ===== src/Numbers/Hex.antt =====
-- src/utils.c and src/uart.c: numbers in hexadecimal digits, printed and read.
use nycu_osdi.Prelude.{ℕ, ◌+◌, ◌*◌, ◌/◌, ◌%◌, ◌^◌, ◌<◌, ◌≡◌, ◌∙◌, ap, List, [], ◌∷◌, arith}
use nycu_osdi.Numbers.{digit_value, hex_loop, hex_to_uint, hex_char, uart_hex}

-- The character of a digit has the value of the digit.
digit_value-hex_char : (n : ℕ) → n < 16 → digit_value (hex_char n) ≡ n
unfolding digit_value hex_char
digit_value-hex_char n lt = ground arith

-- One round, on the digits of `d` above the last one.
hex_round :
    (d top : ℕ) (str : List ℕ)
    → d < 2 ^ 32
    → top ≡ d / 16
    → hex_loop (hex_char (d % 16) ∷ str) top ≡ hex_loop str d
unfolding hex_loop
hex_round d top str lt e =
    ap (λ (v : ℕ). hex_loop str ((top * 16 % 2 ^ 32 + v) % 2 ^ 32))
      (digit_value-hex_char (d % 16) (omega arith))
    ∙ ap (λ (v : ℕ). hex_loop str v) (omega arith)

-- `hex_to_uint` reads the 8 digits that `uart_hex` prints for an unsigned int as that number.
pub hex_to_uint-uart_hex : (d : ℕ) → d < 2 ^ 32 → hex_to_uint (uart_hex d) ≡ d
unfolding uart_hex hex_loop
hex_to_uint-uart_hex d lt =
    let from_0 : List ℕ = hex_char (d / 2 ^ 0 % 16) ∷ [] in
    let from_4 : List ℕ = hex_char (d / 2 ^ 4 % 16) ∷ from_0 in
    let from_8 : List ℕ = hex_char (d / 2 ^ 8 % 16) ∷ from_4 in
    let from_12 : List ℕ = hex_char (d / 2 ^ 12 % 16) ∷ from_8 in
    let from_16 : List ℕ = hex_char (d / 2 ^ 16 % 16) ∷ from_12 in
    let from_20 : List ℕ = hex_char (d / 2 ^ 20 % 16) ∷ from_16 in
    let from_24 : List ℕ = hex_char (d / 2 ^ 24 % 16) ∷ from_20 in
    let whole : d / 2 ^ 0 ≡ d = omega arith in
    hex_round (d / 2 ^ 28) 0 from_24 (omega arith) (omega arith)
    ∙ hex_round (d / 2 ^ 24) (d / 2 ^ 28) from_20 (omega arith) (omega arith)
    ∙ hex_round (d / 2 ^ 20) (d / 2 ^ 24) from_16 (omega arith) (omega arith)
    ∙ hex_round (d / 2 ^ 16) (d / 2 ^ 20) from_12 (omega arith) (omega arith)
    ∙ hex_round (d / 2 ^ 12) (d / 2 ^ 16) from_8 (omega arith) (omega arith)
    ∙ hex_round (d / 2 ^ 8) (d / 2 ^ 12) from_4 (omega arith) (omega arith)
    ∙ hex_round (d / 2 ^ 4) (d / 2 ^ 8) from_0 (omega arith) (omega arith)
    ∙ hex_round (d / 2 ^ 0) (d / 2 ^ 4) [] (omega arith) (omega arith)
    ∙ whole
