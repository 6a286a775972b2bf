-- ===== src/Numbers.antt =====
-- src/utils.c: `hex_to_uint`, and `uart_hex` of src/uart.c, which prints what it reads.
pub mod Hex
mod Tests
use nycu_osdi.Prelude.Int.{ℤ, pos, negsuc}
use nycu_osdi.Prelude.{
  zero, suc, Option, some, none, Bool, ltb, ◌==◌, update, ◌>>=◌, ℕ, ◌+◌, ◌-◌, ◌*◌, ◌/◌, ◌%◌, ◌^◌,
  true, false, ◌&&◌, List, [], ◌∷◌, leb, if◌then◌else◌,
}

-- What a character adds: the value of a digit, 0 for another character.
unfoldable pub digit_value : ℕ → ℕ
digit_value c =
    if leb 48 c && leb c 57
    then c - 48
    else if leb 97 c && leb c 102
    then c - 97 + 10
    else if leb 65 c && leb c 70
    then c - 65 + 10
    else 0

-- The loop over the first `len` characters, which are the list; an unsigned int has 32 bits.
unfoldable pub hex_loop : List ℕ → ℕ → ℕ
hex_loop [] result = result
hex_loop (c ∷ str) result = hex_loop str ((result * 16 % 2 ^ 32 + digit_value c) % 2 ^ 32)

abbrev pub hex_to_uint : List ℕ → ℕ
hex_to_uint str = hex_loop str 0

-- `(d >> c) & 0xF`, as a character.
unfoldable pub hex_char : ℕ → ℕ
hex_char n = if leb n 9 then n + 48 else n - 10 + 97

-- The characters that `uart_hex` prints behind "0x": c is 28, 24 and so on down to 0.
unfoldable pub uart_hex : ℕ → List ℕ
uart_hex d =
    hex_char (d / 2 ^ 28 % 16)
    ∷ hex_char (d / 2 ^ 24 % 16)
    ∷ hex_char (d / 2 ^ 20 % 16)
    ∷ hex_char (d / 2 ^ 16 % 16)
    ∷ hex_char (d / 2 ^ 12 % 16)
    ∷ hex_char (d / 2 ^ 8 % 16)
    ∷ hex_char (d / 2 ^ 4 % 16)
    ∷ hex_char (d / 2 ^ 0 % 16)
    ∷ []

-- The bytes in the other order; `|` of parts without a common bit is their sum.
unfoldable pub be2le_u32 : ℕ → ℕ
be2le_u32 be =
    be % 2 ^ 8 * 2 ^ 24
    + be / 2 ^ 8 % 2 ^ 8 * 2 ^ 16
    + be / 2 ^ 16 % 2 ^ 8 * 2 ^ 8
    + be / 2 ^ 24 % 2 ^ 8

-- The loop of `atoi`; an int is its bit pattern of 32 bits, and sums wrap around.
unfoldable pub atoi_loop : List ℕ → ℕ → ℕ
atoi_loop [] result = result
atoi_loop (c ∷ str) result = atoi_loop str ((result * 10 + c + (2 ^ 32 - 48)) % 2 ^ 32)

abbrev pub atoi : List ℕ → ℕ
atoi str = atoi_loop str 0

-- The loop of `itoa` over the digits, from index `i` on; none is a write behind the 12 bytes of the
-- buffer.
unfoldable pub itoa_loop : (room num i : ℕ) → (ℕ → ℕ) → Option (ℕ × (ℕ → ℕ))
itoa_loop zero num i buffer = none
itoa_loop (suc n) num i buffer =
    let rest = itoa_loop n (num / 10) (i + 1) (update buffer i (num % 10 + 48)) in
    if ltb 0 num then rest else some (i, buffer)

-- `if (is_negative) buffer[i++] = '-'`
abbrev pub add_sign : (is_negative : Bool) → ℕ × (ℕ → ℕ) → Option (ℕ × (ℕ → ℕ))
add_sign true r = if ltb r.0 12 then some (r.0 + 1, update r.1 r.0 45) else none
add_sign false r = some r

-- The buffer before it is reversed, and the number of its characters.
unfoldable pub itoa_buffer : (num : ℕ) → (is_negative : Bool) → (ℕ → ℕ) → Option (ℕ × (ℕ → ℕ))
itoa_buffer num is_negative buffer =
    if num == 0
    then some (1, update buffer 0 48)
    else (itoa_loop 12 num 0 buffer >>= λ r. add_sign is_negative r)

-- The loop that exchanges `buffer[j]` and `buffer[i - j - 1]`.
unfoldable pub reverse_loop : (rounds j i : ℕ) → (ℕ → ℕ) → ℕ → ℕ
reverse_loop zero j i buffer = buffer
reverse_loop (suc n) j i buffer =
    reverse_loop n (j + 1) i (update (update buffer j (buffer (i - j - 1))) (i - j - 1) (buffer j))

-- The string from index `j` on as its readers see it, up to its NUL; none without one in `room` bytes.
unfoldable pub string_at : (room j : ℕ) → (ℕ → ℕ) → Option (List ℕ)
string_at zero j buffer = none
string_at (suc n) j buffer =
    let rest : Option (List ℕ) = string_at n (j + 1) buffer >>= λ str. some (buffer j ∷ str) in
    if buffer j == 0 then some [] else rest

-- The string of the buffer with its NUL and in the other order.
unfoldable pub itoa_text : ℕ × (ℕ → ℕ) → Option (List ℕ)
itoa_text r =
    if ltb r.0 12 then string_at 12 0 (reverse_loop (r.0 / 2) 0 r.0 (update r.1 r.0 0)) else none

-- `itoa` of an int above the least one, whose negation does not overflow; `buffer` is what the static
-- buffer holds before.
unfoldable pub itoa : ℤ → (buffer : ℕ → ℕ) → Option (List ℕ)
itoa (pos num) buffer = itoa_buffer num false buffer >>= λ r. itoa_text r
itoa (negsuc n) buffer = itoa_buffer (suc n) true buffer >>= λ r. itoa_text r
