-- ===== src/Dev/Streams.antt =====
-- src/dev_uart.c and src/dev_framebuffer.c: what reads and writes make of a stream of bytes.
use nycu_osdi.Prelude.{
  update, ℕ, zero, suc, ◌+◌, ◌^◌, ◌<◌, ◌≡◌, ◌∙◌, refl, sym, ap, true, false, some, Option, List, [],
  ◌∷◌, ◌++◌, arith, ◌==◌, has, length, length-append, ◌>>=◌,
}
use nycu_osdi.Prelude.Int.{pos}
use nycu_osdi.Syscall.{store_bytes}
use nycu_osdi.Uart.Blocking.{Wire, getc_from, uart_getc}
use nycu_osdi.Uart.Blocking.Decimal.{uart_putn_lem}
use nycu_osdi.Uart.Blocking.Lines.{wire}
use nycu_osdi.Dev.{
  DevFile, int_of, moved, dev_uart_write, read_loop, ReadResult, dev_uart_read, Screen,
  dev_framebuffer_write,
}

read_loop-step :
    (n c : ℕ) (line sent : List ℕ)
    → (c == 0) ≡ false
    → read_loop (suc n) (wire (c ∷ line) sent)
      ≡ (read_loop n (wire line sent) >>= λ r. some (c ∷ r.0, r.1))
unfolding read_loop uart_getc getc_from
read_loop-step n c line sent other = rw other refl

-- As many characters as asked for.
read_loop-full :
    (str rest sent : List ℕ)
    → has 0 str ≡ false
    → read_loop (length str) (wire (str ++ rest) sent) ≡ some (str, wire rest sent)
unfolding read_loop
read_loop-full [] rest sent free = refl
read_loop-full (c ∷ str) rest sent free =
    read_loop-step (length str) c (str ++ rest) sent (ground (arith, free))
    ∙ ap (λ o. o >>= λ r. some (c ∷ r.0, r.1)) (read_loop-full str rest sent (ground (arith, free)))

-- Fewer, in front of a NUL, which is taken.
read_loop-nul :
    (n : ℕ) (str rest sent : List ℕ)
    → has 0 str ≡ false
    → length str < n
    → read_loop n (wire (str ++ (0 ∷ rest)) sent) ≡ some (str, wire rest sent)
unfolding read_loop uart_getc getc_from
read_loop-nul zero str rest sent free lt = absurd (omega (arith, lt))
read_loop-nul (suc n) [] rest sent free lt = refl
read_loop-nul (suc n) (c ∷ str) rest sent free lt =
    read_loop-step n c (str ++ (0 ∷ rest)) sent (ground (arith, free))
    ∙ ap (λ o. o >>= λ r. some (c ∷ r.0, r.1))
        (read_loop-nul n str rest sent (ground (arith, free)) (omega (arith, lt)))

-- A read that returns the characters, with the line that is left.
abbrev pub read_of : DevFile → List ℕ → (rest sent : List ℕ) → ReadResult
read_of f str rest sent = record {
  code = pos (length str);
  bytes = str;
  file = some (moved (length str) f);
  wire = wire rest sent;
}

-- What `dev_uart_read` makes of the characters.
abbrev finish : DevFile → List ℕ × Wire → Option ReadResult
finish f r = some (record {
  code = int_of (length r.0);
  bytes = r.0;
  file = some (moved (length r.0) f);
  wire = r.1;
})

int_of-small : (n : ℕ) → n < 2 ^ 31 → int_of n ≡ pos n
int_of-small n h = ground (arith, h)

finished :
    (f : DevFile) (str rest sent : List ℕ)
    → length str < 2 ^ 31
    → finish f (str, wire rest sent) ≡ some (read_of f str rest sent)
finished f str rest sent h =
    ap
      (λ c. some (record {
        code = c;
        bytes = str;
        file = some (moved (length str) f);
        wire = wire rest sent;
      }))
      (int_of-small (length str) h)

dev_uart_read-loop :
    (f : DevFile) (len : ℕ) (w : Wire)
    → 0 < len
    → dev_uart_read (some f) true len w ≡ (read_loop len w >>= λ r. finish f r)
unfolding dev_uart_read
dev_uart_read-loop f zero w h = absurd (omega (arith, h))
dev_uart_read-loop f (suc n) w h = refl

-- `dev_uart_read` of `len` characters, at least one and less than 2 ^ 31, returns those that come, up to `len` or in front of
-- the first NUL, which is taken from the line too; the position moves by their number.
pub dev_uart_read_lem :
    (f : DevFile) (str rest sent : List ℕ) (len : ℕ)
    → has 0 str ≡ false
    → 0 < len
    → len < 2 ^ 31
    → (length str ≡ len
        → dev_uart_read (some f) true len (wire (str ++ rest) sent)
          ≡ some (read_of f str rest sent))
      × (length str < len
          → dev_uart_read (some f) true len (wire (str ++ (0 ∷ rest)) sent)
            ≡ some (read_of f str rest sent))
dev_uart_read_lem f str rest sent len free h small = (
  λ e.
      dev_uart_read-loop f len (wire (str ++ rest) sent) h
      ∙ ap (λ o. o >>= λ r. finish f r)
          (ap (λ n. read_loop n (wire (str ++ rest) sent)) (sym e)
            ∙ read_loop-full str rest sent free)
      ∙ finished f str rest sent (omega (arith, small, e)),
  λ lt.
      dev_uart_read-loop f len (wire (str ++ (0 ∷ rest)) sent) h
      ∙ ap (λ o. o >>= λ r. finish f r) (read_loop-nul len str rest sent free lt)
      ∙ finished f str rest sent (omega (arith, small, lt)),
)

-- `dev_uart_write` of at least one byte sends the bytes behind those sent before, and moves the position
-- by their number.
pub dev_uart_write_lem :
    (f : DevFile) (c : ℕ) (buf line sent : List ℕ)
    → dev_uart_write (some f) (some (c ∷ buf)) (wire line sent) ≡ (
      int_of (length (c ∷ buf)),
      (some (moved (length (c ∷ buf)) f), wire line (sent ++ (c ∷ buf))),
    )
unfolding dev_uart_write
dev_uart_write_lem f c buf line sent =
    ap (λ w. (int_of (length (c ∷ buf)), (some (moved (length (c ∷ buf)) f), w)))
      (uart_putn_lem (c ∷ buf) (wire line sent))

store_bytes-append :
    (a : ℕ) (xs ys : List ℕ) (mem : ℕ → ℕ)
    → store_bytes a (xs ++ ys) mem ≡ store_bytes (a + length xs) ys (store_bytes a xs mem)
unfolding store_bytes
store_bytes-append a [] ys mem = ap (λ b. store_bytes b ys mem) (omega arith)
store_bytes-append a (x ∷ xs) ys mem =
    store_bytes-append (a + 1) xs ys (update mem a x)
    ∙ ap (λ b. store_bytes b ys (store_bytes (a + 1) xs (update mem a x))) (omega arith)

-- Two writes to the frame buffer, of at least one byte each, are one write of the bytes of both.
pub dev_framebuffer_write-append :
    (f : DevFile) (a b : ℕ) (xs ys : List ℕ) (s : Screen)
    → (let r = dev_framebuffer_write (some f) (some (a ∷ xs)) s in
        (dev_framebuffer_write r.1.0 (some (b ∷ ys)) r.1.1).1)
      ≡ (dev_framebuffer_write (some f) (some (a ∷ (xs ++ (b ∷ ys)))) s).1
unfolding dev_framebuffer_write
dev_framebuffer_write-append f a b xs ys s =
    let n = length (a ∷ xs) in
    let e : f.f_pos + n + length (b ∷ ys) ≡ f.f_pos + length (a ∷ (xs ++ (b ∷ ys))) =
      omega (arith, length-append xs (b ∷ ys)) in
    ap
      (λ p. (
        some (record f { f_pos = p }),
        record s {
          mem =
              store_bytes (s.lfb + (f.f_pos + n)) (b ∷ ys)
                (store_bytes (s.lfb + f.f_pos) (a ∷ xs) s.mem);
        },
      ))
      e
    ∙ ap (λ m. (some (moved (length (a ∷ (xs ++ (b ∷ ys)))) f), record s { mem = m }))
        (ap (λ q. store_bytes q (b ∷ ys) (store_bytes (s.lfb + f.f_pos) (a ∷ xs) s.mem))
            (omega arith)
          ∙ sym (store_bytes-append (s.lfb + f.f_pos) (a ∷ xs) (b ∷ ys) s.mem))
