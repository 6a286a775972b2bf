-- ===== src/Uart/Queue.antt =====
-- The ring buffers of src/uart.c as queues.
use nycu_osdi.Prelude.{ℕ, ◌+◌, ◌%◌, ◌<◌, ◌≡◌, ◌↔◌, true, List, [], ◌∷◌, ◌++◌, arith, length, update}
use nycu_osdi.Uart.{Ring, put, skip, is_full, is_empty}

-- The characters of the buffer from index `i` on, around the end.
abbrev pub Window : (ℕ → ℕ) → ℕ → List ℕ → Type 0
Window buffer i [] = Unit {0}
Window buffer i (c ∷ q) = (buffer i ≡ c) × Window buffer ((i + 1) % 4096) q

-- The ring holds the queue `q`.
pub record Holds (r : Ring) (q : List ℕ) : Type 0 where
  pub short : length q < 4096
  pub inside : r.tail < 4096
  pub ends : r.head ≡ (r.tail + length q) % 4096
  pub window : Window r.buffer r.tail q

-- A write behind the window adds to it.
Window-append :
    (buffer : ℕ → ℕ) (i j c : ℕ) (q : List ℕ)
    → i < 4096
    → length q < 4096
    → j ≡ (i + length q) % 4096
    → Window buffer i q
    → Window (update buffer j c) i (q ++ (c ∷ []))
Window-append buffer i j c [] lt short e w = (ground arith, tt)
Window-append buffer i j c (x ∷ q) lt short e w = (
  ground (arith, w.0),
  Window-append buffer ((i + 1) % 4096) j c q (omega arith) (omega arith) (omega arith) w.1,
)

pub is_full-Holds : {r : Ring} {q : List ℕ} → Holds r q → (is_full r ≡ true) ↔ (length q ≡ 4095)
is_full-Holds {r} {q} h = ground (arith, h.short, h.inside, h.ends)

pub is_empty-Holds : {r : Ring} {q : List ℕ} → Holds r q → (is_empty r ≡ true) ↔ (length q ≡ 0)
is_empty-Holds {r} {q} h = ground (arith, h.short, h.inside, h.ends)

pub length-snoc : (q : List ℕ) (c : ℕ) → length (q ++ (c ∷ [])) ≡ length q + 1
length-snoc [] c = omega arith
length-snoc (x ∷ q) c = omega (arith, length-snoc q c)

-- With room, `put` adds at the end.
pub put-Holds :
    (c : ℕ) {r : Ring} {q : List ℕ} → Holds r q → length q < 4095 → Holds (put c r) (q ++ (c ∷ []))
unfolding put
put-Holds c {r} {q} h room = record {
  short = omega (arith, length-snoc q c);
  inside = h.inside;
  ends = omega (arith, length-snoc q c, h.ends);
  window = Window-append r.buffer r.tail r.head c q h.inside h.short h.ends h.window;
}

-- `skip` drops the front.
pub skip-Holds : (c : ℕ) {r : Ring} {q : List ℕ} → Holds r (c ∷ q) → Holds (skip r) q
unfolding skip
skip-Holds c {r} {q} h = record {
  short = omega (arith, h.short);
  inside = omega arith;
  ends = omega (arith, h.ends);
  window = h.window.1;
}

-- A write to a ring without room empties it.
pub put-full : (c : ℕ) {r : Ring} {q : List ℕ} → Holds r q → length q ≡ 4095 → Holds (put c r) []
unfolding put
put-full c {r} {q} h full = record {
  short = omega arith;
  inside = h.inside;
  ends = omega (arith, h.ends, h.inside);
  window = tt;
}
