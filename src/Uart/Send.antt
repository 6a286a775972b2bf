-- ===== src/Uart/Send.antt =====
-- src/uart.c: the sending side, `uart_async_putc`, `uart_async_puts` and `uart_irq_tx_handler`.
use nycu_osdi.Prelude.{
  append_assoc, append_nil, ℕ, zero, suc, ◌+◌, ◌≤◌, ◌≡◌, ◌∙◌, refl, ap, subst, Bool, true, false,
  List, [], ◌∷◌, ◌++◌, arith, ◌==◌, if◌then◌else◌, length, length-append, Bool-cases, inl, inr,
}
use mathlib.Core.Bool.{false≢true}
use nycu_osdi.Uart.{
  Uart, put, cr, lf, is_full, is_empty, uart_enable_tx_irq, and_then, uart_async_putc,
  uart_async_puts, uart_irq_tx_handler,
}
use nycu_osdi.Uart.Queue.{
  Holds, is_full-Holds, is_empty-Holds, put-Holds, put-full, skip-Holds, length-snoc,
}

-- What one character, and a string, puts into the buffer.
abbrev pub line : ℕ → List ℕ
line c = if c == cr then cr ∷ lf ∷ [] else c ∷ []

abbrev pub lines : List ℕ → List ℕ
lines [] = []
lines (c ∷ str) = (if c == lf then cr ∷ lf ∷ lf ∷ [] else line c) ++ lines str

-- The call returned 1, left the queue `q`, and sent nothing.
pub record Accepted (s : Uart) (r : Bool × Uart) (q : List ℕ) : Type 0 where
  pub accepted : r.0 ≡ true
  pub queue : Holds r.1.tx q
  pub silent : r.1.sent ≡ s.sent

-- With room for what the character becomes, it is queued.
pub putc-Accepted :
    (c : ℕ) (s : Uart) {q : List ℕ}
    → Holds s.tx q
    → length q + length (line c) ≤ 4095
    → Accepted s (uart_async_putc c s) (q ++ line c)
unfolding uart_async_putc
putc-Accepted c s {q} h room = elim (Bool-cases (c == cr)) [
  | inl is_cr ↦
      (let fits : length q ≤ 4093 = omega (arith, (rw is_cr at room)) in
        let free : is_full s.tx ≡ false = ground (arith, is_full-Holds h) in
        rw (is_cr, free)
          (record {
            accepted = refl;
            queue =
                subst (Holds (put lf (put cr s.tx))) (append_assoc q (cr ∷ []) (lf ∷ []))
                  (put-Holds lf (put-Holds cr h (omega arith)) (omega (arith, length-snoc q cr)));
            silent = refl;
          }))
  | inr other ↦
      (let fits : length q ≤ 4094 = omega (arith, (rw other at room)) in
        let free : is_full s.tx ≡ false = ground (arith, is_full-Holds h) in
        rw (other, free)
          (record { accepted = refl; queue = put-Holds c h (omega arith); silent = refl }))
]

-- With a full buffer the character is refused, the queue stays, and the interrupt is on.
pub putc-refuses :
    (c : ℕ) (s : Uart) {q : List ℕ}
    → Holds s.tx q
    → length q ≡ 4095
    → uart_async_putc c s ≡ (false, uart_enable_tx_irq s)
unfolding uart_async_putc
putc-refuses c s h full =
    let none_free : is_full s.tx ≡ true = ground (arith, is_full-Holds h) in rw none_free refl

-- With room for one character, '\r' is accepted and the whole queue is lost.
pub putc-loses :
    (s : Uart) {q : List ℕ} → Holds s.tx q → length q ≡ 4094 → Accepted s (uart_async_putc cr s) []
unfolding uart_async_putc
putc-loses s {q} h almost =
    let free : is_full s.tx ≡ false = ground (arith, is_full-Holds h) in
    rw free (record {
      accepted = refl;
      queue = put-full lf (put-Holds cr h (omega arith)) (omega (arith, length-snoc q cr));
      silent = refl;
    })

then-Accepted :
    {s : Uart} {q q' : List ℕ} (r : Bool × Uart) (k : Uart → Bool × Uart)
    → Accepted s r q
    → ((t : Uart) → Holds t.tx q → Accepted t (k t) q')
    → Accepted s (and_then r k) q'
then-Accepted (false, t) k a b = absurd (false≢true a.accepted)
then-Accepted (true, t) k a b =
    let d = b t a.queue in
    record { accepted = d.accepted; queue = d.queue; silent = d.silent ∙ a.silent }

regroup : (q l : List ℕ) → ((q ++ (cr ∷ lf ∷ [])) ++ (lf ∷ [])) ++ l ≡ q ++ (cr ∷ lf ∷ lf ∷ l)
regroup q l =
    append_assoc (q ++ (cr ∷ lf ∷ [])) (lf ∷ []) l ∙ append_assoc q (cr ∷ lf ∷ []) (lf ∷ l)

-- With room for what the string becomes, all of it is queued.
pub puts-Accepted :
    (str : List ℕ) (s : Uart) {q : List ℕ}
    → Holds s.tx q
    → length q + length (lines str) ≤ 4095
    → Accepted s (uart_async_puts str s) (q ++ lines str)
unfolding uart_async_puts
puts-Accepted [] s {q} h room = record {
  accepted = refl;
  queue = rw (append_nil q) h;
  silent = refl;
}
puts-Accepted (c ∷ str) s {q} h room = elim (Bool-cases (c == lf)) [
  | inl is_lf ↦
      (let fits : length q + 3 + length (lines str) ≤ 4095 = omega (arith, (rw is_lf at room)) in
        rw is_lf (
          then-Accepted (uart_async_putc cr s) _ (putc-Accepted cr s h (omega arith)) λ t ht.
            then-Accepted (uart_async_putc lf t) _
              (putc-Accepted lf t ht (omega (arith, length-append q (cr ∷ lf ∷ []))))
              λ u hu. subst (Accepted u (uart_async_puts str u)) (regroup q (lines str)) (
                puts-Accepted str u hu (
                  omega (
                    arith,
                    length-append q (cr ∷ lf ∷ []),
                    length-append (q ++ (cr ∷ lf ∷ [])) (lf ∷ []),
                  )))))
  | inr other ↦
      (let fits : length q + (length (line c) + length (lines str)) ≤ 4095 =
          omega (arith, (rw other at room), length-append (line c) (lines str)) in
        rw other (
          then-Accepted (uart_async_putc c s) _ (putc-Accepted c s h (omega arith)) λ t ht.
            subst (Accepted t (uart_async_puts str t)) (append_assoc q (line c) (lines str))
              (puts-Accepted str t ht (omega (arith, length-append q (line c))))))
]

-- `n` transmit interrupts.
abbrev pub interrupts : ℕ → Uart → Uart
interrupts zero s = s
interrupts (suc n) s = interrupts n (uart_irq_tx_handler s)

-- The queue, newest first, before what was sent earlier.
abbrev pub onto : List ℕ → List ℕ → List ℕ
onto [] l = l
onto (c ∷ q) l = onto q (c ∷ l)

tx_handler-sends :
    (c : ℕ) (s : Uart) {q : List ℕ}
    → Holds s.tx (c ∷ q)
    → ((uart_irq_tx_handler s).sent ≡ c ∷ s.sent) × Holds (uart_irq_tx_handler s).tx q
unfolding uart_irq_tx_handler
tx_handler-sends c s h =
    let busy : is_empty s.tx ≡ false = ground (arith, is_empty-Holds h) in
    rw busy (ap (λ (x : ℕ). x ∷ s.sent) h.window.0, skip-Holds c h)

-- As many transmit interrupts as there are characters send the queue in order, and empty it.
pub interrupts-send :
    (q : List ℕ) (s : Uart)
    → Holds s.tx q
    → ((interrupts (length q) s).sent ≡ onto q s.sent) × Holds (interrupts (length q) s).tx []
interrupts-send [] s h = (refl, h)
interrupts-send (c ∷ q) s h =
    let (sends, rest) = tx_handler-sends c s h in
    let (all, done) = interrupts-send q (uart_irq_tx_handler s) rest in
    (all ∙ ap (λ l. onto q l) sends, done)

-- A string that fits into the empty buffer is sent whole by the interrupts that follow: the device
-- gets the characters of `lines`, in order.
pub puts-sent :
    (str : List ℕ) (s : Uart)
    → Holds s.tx []
    → length (lines str) ≤ 4095
    → ((uart_async_puts str s).0 ≡ true)
      × ((interrupts (length (lines str)) (uart_async_puts str s).1).sent ≡ onto (lines str) s.sent)
puts-sent str s h fits =
    let a = puts-Accepted str s h (omega arith) in
    let (all, done) = interrupts-send (lines str) (uart_async_puts str s).1 a.queue in
    (a.accepted, all ∙ ap (λ l. onto (lines str) l) a.silent)
