-- ===== src/Uart/Blocking/Lines.antt =====
-- src/uart.c: `uart_puts`, `uart_getn` and `uart_gets`.
use nycu_osdi.Prelude.{
  ℕ, zero, suc, ◌<◌, ◌≡◌, ◌∙◌, refl, sym, ap, false, some, List, [], ◌∷◌, ◌++◌, arith, ◌==◌, has,
  length, if◌then◌else◌, ◌>>=◌, append_assoc, append_nil, Bool-cases, inl, inr,
}
use nycu_osdi.Uart.{cr, lf}
use nycu_osdi.Uart.Blocking.{Wire, uart_puts, getc_from, uart_getc, uart_getn, uart_gets}

-- Every newline as a carriage return and a newline.
abbrev pub with_returns : List ℕ → List ℕ
with_returns [] = []
with_returns (c ∷ str) = if c == lf then cr ∷ lf ∷ with_returns str else c ∷ with_returns str

abbrev pub wire : List ℕ → List ℕ → Wire
wire line sent = record { line = line; sent = sent }

pub uart_puts_lem :
    (str line sent : List ℕ) → uart_puts str (wire line sent) ≡ wire line (sent ++ with_returns str)
unfolding uart_puts
uart_puts_lem [] line sent = ap (wire line) (sym (append_nil sent))
uart_puts_lem (c ∷ str) line sent = elim (Bool-cases (c == lf)) [
  | inl newline ↦ rw newline (
      uart_puts_lem str line ((sent ++ (cr ∷ [])) ++ (lf ∷ []))
      ∙ ap (wire line) (
          append_assoc (sent ++ (cr ∷ [])) (lf ∷ []) (with_returns str)
          ∙ append_assoc sent (cr ∷ []) (lf ∷ with_returns str)))
  | inr plain ↦ rw plain (
      uart_puts_lem str line (sent ++ (c ∷ []))
      ∙ ap (wire line) (append_assoc sent (c ∷ []) (with_returns str)))
]

pub uart_getn_lem :
    (str rest sent : List ℕ)
    → uart_getn (length str) (wire (str ++ rest) sent) ≡ some (str, wire rest sent)
unfolding uart_getn uart_getc getc_from
uart_getn_lem [] rest sent = refl
uart_getn_lem (c ∷ str) rest sent =
    ap (λ o. o >>= λ r. some (c ∷ r.0, r.1)) (uart_getn_lem str rest sent)

uart_gets-step :
    (n c : ℕ) (line sent : List ℕ)
    → (c == cr) ≡ false
    → uart_gets (suc n) (wire (c ∷ line) sent)
      ≡ (uart_gets n (wire line (sent ++ (c ∷ []))) >>= λ r. some (c ∷ r.0, r.1))
unfolding uart_gets uart_getc getc_from
uart_gets-step n c line sent other = rw other refl

-- `uart_gets` of a line that '\r' ends, with more rounds than it has characters, returns the line and
-- takes no more; it sends the line back as it came, and "\r\r\n" behind it.
pub uart_gets_lem :
    (n : ℕ) (str rest sent : List ℕ)
    → length str < n
    → has cr str ≡ false
    → uart_gets n (wire (str ++ (cr ∷ rest)) sent)
      ≡ some (str, wire rest (sent ++ (str ++ (cr ∷ cr ∷ lf ∷ []))))
unfolding uart_gets uart_getc getc_from uart_puts
uart_gets_lem zero str rest sent lt free = absurd (omega (arith, lt))
uart_gets_lem (suc n) [] rest sent lt free =
    ap (λ l. some ([], wire rest l))
      (ap (λ l. l ++ (lf ∷ [])) (append_assoc sent (cr ∷ []) (cr ∷ []))
        ∙ append_assoc sent (cr ∷ cr ∷ []) (lf ∷ []))
uart_gets_lem (suc n) (c ∷ str) rest sent lt free =
    uart_gets-step n c (str ++ (cr ∷ rest)) sent (ground (arith, free))
    ∙ ap (λ o. o >>= λ r. some (c ∷ r.0, r.1))
        (uart_gets_lem n str rest (sent ++ (c ∷ [])) (omega (arith, lt)) (ground (arith, free)))
    ∙ ap (λ l. some (c ∷ str, wire rest l))
        (append_assoc sent (c ∷ []) (str ++ (cr ∷ cr ∷ lf ∷ [])))
