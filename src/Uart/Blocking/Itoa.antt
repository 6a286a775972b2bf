-- ===== src/Uart/Blocking/Itoa.antt =====
-- `itoa` of src/utils.c, against `uart_int` of src/uart.c.
use nycu_osdi.Prelude.{
  ℕ, zero, suc, ◌+◌, ◌/◌, ◌%◌, ◌^◌, ◌≤◌, ◌<◌, ◌≡◌, ◌∙◌, refl, sym, ap, Bool, true, false, some,
  List, [], ◌∷◌, ◌==◌, arith, ltb, Bool-cases, inl, inr, ◌>>=◌, pow-suc, update, update_self,
}
use nycu_osdi.Prelude.Int.{ℤ, pos, negsuc}
use nycu_osdi.Numbers.{itoa_loop, add_sign, itoa_buffer, itoa_text, itoa}
use nycu_osdi.Uart.Blocking.{digits_loop, int_digits}
use nycu_osdi.Uart.Blocking.Decimal.{magnitude}
use nycu_osdi.Uart.Blocking.Reversal.{backwards, backwards_push, itoa_text_lem}

itoa_loop-zero : (n i : ℕ) (buffer : ℕ → ℕ) → itoa_loop (suc n) 0 i buffer ≡ some (i, buffer)
unfolding itoa_loop
itoa_loop-zero n i buffer = refl

itoa_loop-suc :
    (n num i : ℕ) (buffer : ℕ → ℕ)
    → 0 < num
    → itoa_loop (suc n) num i buffer
      ≡ itoa_loop n (num / 10) (i + 1) (update buffer i (num % 10 + 48))
unfolding itoa_loop
itoa_loop-suc n num i buffer h = let more : ltb 0 num ≡ true = ground arith in rw more refl

digits_loop-last :
    (n num : ℕ) (acc : List ℕ)
    → ltb 0 (num / 10) ≡ false
    → digits_loop (suc n) num acc ≡ some ((num % 10 + 48) ∷ acc)
unfolding digits_loop
digits_loop-last n num acc last = rw last refl

digits_loop-more :
    (n num : ℕ) (acc : List ℕ)
    → ltb 0 (num / 10) ≡ true
    → digits_loop (suc n) num acc ≡ digits_loop n (num / 10) ((num % 10 + 48) ∷ acc)
unfolding digits_loop
digits_loop-more n num acc more = rw more refl

-- No NUL is below the index.
abbrev Chars : ℕ → (ℕ → ℕ) → Type 0
Chars i buffer = (k : ℕ) → k < i → 0 < buffer k

Chars-push : (i c : ℕ) (buffer : ℕ → ℕ) → Chars i buffer → 0 < c → Chars (i + 1) (update buffer i c)
Chars-push i c buffer h pos_c k lt = ground (arith, h k, lt, pos_c)

-- The last digit.
itoa_loop-last :
    (n num i : ℕ) (buffer : ℕ → ℕ)
    → 0 < num
    → ltb 0 (num / 10) ≡ false
    → Chars i buffer
    → (r : ℕ × (ℕ → ℕ)) × (itoa_loop (suc (suc n)) num i buffer ≡ some r)
      × (r.0 ≡ i + 1)
      × Chars r.0 r.1
      × (digits_loop (suc n) num (backwards i buffer) ≡ some (backwards r.0 r.1))
itoa_loop-last n num i buffer h last chars =
    let c = num % 10 + 48 in
    let done : num / 10 ≡ 0 = ground (arith, last) in
    (
      (i + 1, update buffer i c),
      itoa_loop-suc (suc n) num i buffer h
          ∙ ap (λ q. itoa_loop (suc n) q (i + 1) (update buffer i c)) done
          ∙ itoa_loop-zero n (i + 1) (update buffer i c),
      refl,
      Chars-push i c buffer chars (omega arith),
      digits_loop-last n num (backwards i buffer) last
          ∙ ap (λ l. some l) (sym (backwards_push i c buffer)),
    )

-- The loop writes the digits that `uart_int` collects.
itoa_loop_lem :
    (n num i size : ℕ) (buffer : ℕ → ℕ)
    → 0 < num
    → num < 10 ^ suc n
    → num < 10 ^ size
    → Chars i buffer
    → (r : ℕ × (ℕ → ℕ)) × (itoa_loop (suc (suc n)) num i buffer ≡ some r)
      × (r.0 ≤ i + size)
      × Chars r.0 r.1
      × (digits_loop (suc n) num (backwards i buffer) ≡ some (backwards r.0 r.1))
itoa_loop_lem n num i zero buffer h small bound chars = absurd (omega (arith, h, bound))
itoa_loop_lem zero num i (suc size) buffer h small bound chars =
    let (r, runs, end, kept, agrees) =
      itoa_loop-last zero num i buffer h (ground (arith, small)) chars in
    (r, runs, omega (arith, end), kept, agrees)
itoa_loop_lem (suc m) num i (suc size) buffer h small bound chars =
    elim (Bool-cases (ltb 0 (num / 10))) [
      | inr last ↦
          (let (r, runs, end, kept, agrees) = itoa_loop-last (suc m) num i buffer h last chars in
            (r, runs, omega (arith, end), kept, agrees))
      | inl more ↦
          (let c = num % 10 + 48 in
            let fewer : num / 10 < 10 ^ suc m = omega (arith, small, pow-suc 10 (suc m)) in
            let shorter : num / 10 < 10 ^ size = omega (arith, bound, pow-suc 10 size) in
            let (r, runs, end, kept, agrees) =
              itoa_loop_lem m (num / 10) (i + 1) size (update buffer i c) (ground (arith, more))
                fewer shorter (Chars-push i c buffer chars (omega arith)) in
            (
              r,
              itoa_loop-suc (suc (suc m)) num i buffer h ∙ runs,
              omega (arith, end),
              kept,
              digits_loop-more (suc m) num (backwards i buffer) more
                  ∙ ap (digits_loop (suc m) (num / 10)) (sym (backwards_push i c buffer))
                  ∙ agrees,
            ))
    ]

none_ne : (num : ℕ) (acc str : List ℕ) → digits_loop 0 num acc ≡ some str → ⊥
unfolding digits_loop
none_ne num acc str e = cc e

digits_loop-room :
    (n num : ℕ) (acc str : List ℕ)
    → digits_loop n num acc ≡ some str
    → digits_loop (suc n) num acc ≡ some str
digits_loop-room zero num acc str e = absurd (none_ne num acc str e)
digits_loop-room (suc n) num acc str e = elim (Bool-cases (ltb 0 (num / 10))) [
  | inr last ↦ digits_loop-last (suc n) num acc last ∙ sym (digits_loop-last n num acc last) ∙ e
  | inl more ↦
      digits_loop-more (suc n) num acc more
      ∙ digits_loop-room n (num / 10) ((num % 10 + 48) ∷ acc) str
          (sym (digits_loop-more n num acc more) ∙ e)
]

-- What the two collect for a number above 0.
collected :
    (num : ℕ) (buffer : ℕ → ℕ)
    → 0 < num
    → num < 2 ^ 31
    → (r : ℕ × (ℕ → ℕ)) × (itoa_loop 12 num 0 buffer ≡ some r)
      × (r.0 < 11)
      × Chars r.0 r.1
      × (digits_loop 12 num [] ≡ some (backwards r.0 r.1))
collected num buffer h small =
    let (r, runs, end, kept, agrees) =
      itoa_loop_lem 10 num 0 10 buffer h (omega (arith, small)) (omega (arith, small))
        (λ k lt. absurd (omega (arith, lt))) in
    (r, runs, omega (arith, end), kept, digits_loop-room 11 num [] (backwards r.0 r.1) agrees)

itoa_buffer-some :
    (num : ℕ) (is_negative : Bool) (buffer : ℕ → ℕ) (r : ℕ × (ℕ → ℕ))
    → 0 < num
    → itoa_loop 12 num 0 buffer ≡ some r
    → itoa_buffer num is_negative buffer ≡ add_sign is_negative r
unfolding itoa_buffer
itoa_buffer-some num is_negative buffer r h e =
    let other : (num == 0) ≡ false = ground arith in
    rw other (ap (λ o. o >>= λ q. add_sign is_negative q) e)

add_sign-fits : (r : ℕ × (ℕ → ℕ)) → r.0 < 12 → add_sign true r ≡ some (r.0 + 1, update r.1 r.0 45)
add_sign-fits r h = let fits : ltb r.0 12 ≡ true = ground (arith, h) in rw fits refl

itoa_zero : (buffer : ℕ → ℕ) → (itoa_buffer 0 false buffer >>= λ r. itoa_text r) ≡ some (48 ∷ [])
unfolding itoa_buffer
itoa_zero buffer =
    itoa_text_lem 1 (update buffer 0 48) (omega arith) (λ k lt. ground (arith, lt))
    ∙ ap (λ c. some (c ∷ [])) (update_self buffer 0 48)

-- `itoa` of any int above the least one writes within its buffer, whatever that holds before, and the
-- string there, up to its NUL, is the one that `uart_int` sends.
pub itoa-uart_int :
    (d : ℤ) (buffer : ℕ → ℕ)
    → magnitude d < 2 ^ 31
    → (str : List ℕ) × (itoa d buffer ≡ some str) × (int_digits d ≡ some str)
unfolding itoa int_digits
itoa-uart_int (pos zero) buffer h =
    (48 ∷ [], itoa_zero buffer, digits_loop-room 11 0 [] (48 ∷ []) (digits_loop-last 10 0 [] refl))
itoa-uart_int (pos (suc n)) buffer h =
    let (r, runs, room, chars, agrees) = collected (suc n) buffer (omega arith) h in
    (
      backwards r.0 r.1,
      ap (λ o. o >>= λ q. itoa_text q) (itoa_buffer-some (suc n) false buffer r (omega arith) runs)
          ∙ itoa_text_lem r.0 r.1 (omega (arith, room)) chars,
      agrees,
    )
itoa-uart_int (negsuc n) buffer h =
    let (r, runs, room, chars, agrees) = collected (suc n) buffer (omega arith) h in
    (
      45 ∷ backwards r.0 r.1,
      ap (λ o. o >>= λ q. itoa_text q)
            (itoa_buffer-some (suc n) true buffer r (omega arith) runs
              ∙ add_sign-fits r (omega (arith, room)))
          ∙ itoa_text_lem (r.0 + 1) (update r.1 r.0 45) (omega (arith, room))
              (Chars-push r.0 45 r.1 chars (omega arith))
          ∙ ap (λ l. some l) (backwards_push r.0 45 r.1),
      ap (λ o. o >>= λ s. some (45 ∷ s)) agrees,
    )
