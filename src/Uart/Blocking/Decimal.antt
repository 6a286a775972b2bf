-- ===== src/Uart/Blocking/Decimal.antt =====
-- src/uart.c: `uart_int`, against `atoi` of src/utils.c.
use nycu_osdi.Prelude.{
  ℕ, zero, suc, ◌+◌, ◌/◌, ◌%◌, ◌^◌, ◌<◌, ◌≡◌, ◌∙◌, refl, sym, ap, false, some, List, [], ◌∷◌, ◌++◌,
  arith, ltb, Bool-cases, inl, inr, ◌>>=◌, append_assoc, append_nil, pow-suc,
}
use nycu_osdi.Prelude.Int.{ℤ, pos, negsuc}
use nycu_osdi.Numbers.{atoi, atoi_loop}
use nycu_osdi.Uart.Blocking.{Wire, uart_putc, uart_putn, digits_loop, int_digits, uart_int}

last_digit :
    (d : ℕ) (acc : List ℕ)
    → ltb 0 (d / 10) ≡ false
    → atoi_loop ((d % 10 + 48) ∷ acc) 0 ≡ atoi_loop acc d
unfolding atoi_loop
last_digit d acc last = ap (atoi_loop acc) (ground (arith, last))

next_digit :
    (d : ℕ) (acc : List ℕ) → d < 2 ^ 31 → atoi_loop ((d % 10 + 48) ∷ acc) (d / 10) ≡ atoi_loop acc d
unfolding atoi_loop
next_digit d acc small = ap (atoi_loop acc) (omega (arith, small))

-- With room for the digits the loop ends, and its characters read as the number.
pub digits_loop_lem :
    (n d : ℕ) (acc : List ℕ)
    → d < 10 ^ suc n
    → d < 2 ^ 31
    → (str : List ℕ) × (digits_loop (suc n) d acc ≡ some str) × (atoi_loop str 0 ≡ atoi_loop acc d)
unfolding digits_loop
digits_loop_lem zero d acc h small =
    let last : ltb 0 (d / 10) ≡ false = ground (arith, h) in
    ((d % 10 + 48) ∷ acc, rw last refl, last_digit d acc last)
digits_loop_lem (suc n) d acc h small = elim (Bool-cases (ltb 0 (d / 10))) [
  | inr last ↦ ((d % 10 + 48) ∷ acc, rw last refl, last_digit d acc last)
  | inl more ↦
      (let fewer : d / 10 < 10 ^ suc n = omega (arith, h, pow-suc 10 (suc n)) in
        let (str, ends, reads) =
          digits_loop_lem n (d / 10) ((d % 10 + 48) ∷ acc) fewer (omega (arith, small)) in
        (str, rw more ends, reads ∙ next_digit d acc small))
]

pub uart_putn_lem : (str : List ℕ) (w : Wire) → uart_putn str w ≡ record w { sent = w.sent ++ str }
unfolding uart_putn
uart_putn_lem [] w = ap (λ l. record w { sent = l }) (sym (append_nil w.sent))
uart_putn_lem (c ∷ str) w =
    uart_putn_lem str (uart_putc c w)
    ∙ ap (λ l. record w { sent = l }) (append_assoc w.sent (c ∷ []) str)

-- The sign, for a number below zero.
abbrev pub sign : ℤ → List ℕ
sign (pos n) = []
sign (negsuc n) = 45 ∷ []

abbrev pub magnitude : ℤ → ℕ
magnitude (pos n) = n
magnitude (negsuc n) = suc n

int_digits_lem :
    (d : ℤ)
    → magnitude d < 2 ^ 31
    → (str : List ℕ) × (int_digits d ≡ some (sign d ++ str)) × (atoi str ≡ magnitude d)
unfolding int_digits atoi_loop
int_digits_lem (pos n) h = digits_loop_lem 11 n [] (omega (arith, h)) h
int_digits_lem (negsuc n) h =
    let (str, ends, reads) = digits_loop_lem 11 (suc n) [] (omega (arith, h)) h in
    (str, ap (λ o. o >>= λ s. some (45 ∷ s)) ends, reads)

-- `uart_int` of any int above the least one writes within its array, and sends the sign of a negative
-- number, and characters that `atoi` reads as its magnitude.
pub uart_int-atoi :
    (d : ℤ) (w : Wire)
    → magnitude d < 2 ^ 31
    → (str : List ℕ) × (uart_int d w ≡ some (record w { sent = w.sent ++ (sign d ++ str) }))
      × (atoi str ≡ magnitude d)
unfolding uart_int
uart_int-atoi d w h =
    let (str, ends, reads) = int_digits_lem d h in
    (
      str,
      ap (λ o. o >>= λ s. some (uart_putn s w)) ends
          ∙ ap (λ x. some x) (uart_putn_lem (sign d ++ str) w),
      reads,
    )
