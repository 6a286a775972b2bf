-- ===== src/Uart/Blocking/Reversal.antt =====
-- `itoa` of src/utils.c: the loop that brings the characters of the buffer into the other order.
use nycu_osdi.Prelude.{
  ℕ, zero, suc, true, false, some, ◌>>=◌, subst, add-zero, ◌+◌, ◌-◌, ◌*◌, ◌/◌, ◌≤◌, ◌<◌, ◌≡◌, ◌∙◌,
  refl, sym, ap, List, [], ◌∷◌, ◌||◌, ◌==◌, arith, ltb, leb, Bool-cases, inl, inr, update,
  update_ne, update_self, ◌≢◌, ◌⊎◌,
}
use nycu_osdi.Numbers.{reverse_loop, string_at, itoa_text}

-- The characters below index `n`, the last one first.
abbrev pub backwards : (n : ℕ) → (ℕ → ℕ) → List ℕ
backwards zero buffer = []
backwards (suc n) buffer = buffer n ∷ backwards n buffer

backwards-cong :
    (n : ℕ) (f g : ℕ → ℕ) → ((k : ℕ) → k < n → f k ≡ g k) → backwards n f ≡ backwards n g
backwards-cong zero f g h = refl
backwards-cong (suc n) f g h =
    ap (λ c. c ∷ backwards n f) (h n (omega arith))
    ∙ ap (λ l. g n ∷ l) (backwards-cong n f g (λ k lt. h k (omega (arith, lt))))

-- A write at the end is a new first character.
backwards-update :
    (n c : ℕ) (buffer : ℕ → ℕ) → backwards (suc n) (update buffer n c) ≡ c ∷ backwards n buffer
backwards-update n c buffer =
    ap (λ x. x ∷ backwards n (update buffer n c)) (ground arith)
    ∙ ap (λ l. c ∷ l) (backwards-cong n (update buffer n c) buffer (λ k lt. ground (arith, lt)))

abbrev swapped : (j i : ℕ) → (ℕ → ℕ) → ℕ → ℕ
swapped j i buffer = update (update buffer j (buffer (i - j - 1))) (i - j - 1) (buffer j)

swapped-other :
    (j i k : ℕ) (buffer : ℕ → ℕ) → k ≢ j → k ≢ i - j - 1 → swapped j i buffer k ≡ buffer k
swapped-other j i k buffer p q =
    update_ne (update buffer j (buffer (i - j - 1))) (i - j - 1) k (buffer j) (λ e. q (sym e))
    ∙ update_ne buffer j k (buffer (i - j - 1)) (λ e. p (sym e))

swapped-high : (j i : ℕ) (buffer : ℕ → ℕ) → swapped j i buffer (i - j - 1) ≡ buffer j
swapped-high j i buffer = update_self (update buffer j (buffer (i - j - 1))) (i - j - 1) (buffer j)

swapped-low : (j i : ℕ) (buffer : ℕ → ℕ) → j ≢ i - j - 1 → swapped j i buffer j ≡ buffer (i - j - 1)
swapped-low j i buffer p =
    update_ne (update buffer j (buffer (i - j - 1))) (i - j - 1) j (buffer j) (λ e. p (sym e))
    ∙ update_self buffer j (buffer (i - j - 1))

-- The indices that the loop does not exchange, and those that it does.
abbrev Outside : (n j i k : ℕ) → Type 0
Outside n j i k = (k < j) ⊎ ((j + n ≤ k) × (k + j + n < i)) ⊎ (i ≤ k + j)

abbrev Inside : (n j i k : ℕ) → Type 0
Inside n j i k = ((j ≤ k) × (k < j + n)) ⊎ ((i ≤ k + j + n) × (k + j < i))

reverse_loop-Outside :
    (n j i k : ℕ) (buffer : ℕ → ℕ)
    → 2 * (j + n) ≤ i
    → Outside n j i k
    → reverse_loop n j i buffer k ≡ buffer k
unfolding reverse_loop
reverse_loop-Outside zero j i k buffer h out = refl
reverse_loop-Outside (suc n) j i k buffer h out =
    reverse_loop-Outside n (j + 1) i k (swapped j i buffer) (omega (arith, h)) (step out)
    ∙ swapped-other j i k buffer (λ e. differs (inl e) out) (λ e. differs (inr e) out)
  where
    step : Outside (suc n) j i k → Outside n (j + 1) i k
    step (inl a) = inl (omega (arith, a))
    step (inr (inl b)) = inr (inl (omega (arith, b), omega (arith, b)))
    step (inr (inr c)) = inr (inr (omega (arith, c)))

    differs : (k ≡ j) ⊎ (k ≡ i - j - 1) → Outside (suc n) j i k → ⊥
    differs e o = omega (arith, e, o, h)

reverse_loop-Inside :
    (n j i k : ℕ) (buffer : ℕ → ℕ)
    → 2 * (j + n) ≤ i
    → Inside n j i k
    → reverse_loop n j i buffer k ≡ buffer (i - 1 - k)
unfolding reverse_loop
reverse_loop-Inside zero j i k buffer h inside = absurd (omega (arith, inside, h))
reverse_loop-Inside (suc n) j i k buffer h inside = elim (Bool-cases (k == j)) [
  | inl low ↦
      (let e : k ≡ j = ground arith in
        reverse_loop-Outside n (j + 1) i k (swapped j i buffer) (omega (arith, h))
          (inl (omega (arith, e)))
        ∙ ap (swapped j i buffer) e
        ∙ swapped-low j i buffer (λ q. omega (arith, q, h))
        ∙ ap buffer (omega (arith, e)))
  | inr not_low ↦ elim (Bool-cases (k == i - j - 1)) [
    | inl high ↦
        (let e : k ≡ i - j - 1 = ground arith in
          reverse_loop-Outside n (j + 1) i k (swapped j i buffer) (omega (arith, h))
            (inr (inr (omega (arith, e, h))))
          ∙ ap (swapped j i buffer) e
          ∙ swapped-high j i buffer
          ∙ ap buffer (omega (arith, e, h)))
    | inr not_high ↦
        (let p : k ≢ j = ground arith in
          let q : k ≢ i - j - 1 = ground arith in
          reverse_loop-Inside n (j + 1) i k (swapped j i buffer) (omega (arith, h))
            (omega (arith, inside, p, q, h))
          ∙ swapped-other j i (i - 1 - k) buffer (λ e. omega (arith, e, inside, q, h))
              (λ e. omega (arith, e, inside, p, h)))
  ]
]

-- The middle of an odd number of characters stays.
reverse_loop-all :
    (i k : ℕ) (buffer : ℕ → ℕ) → k < i → reverse_loop (i / 2) 0 i buffer k ≡ buffer (i - 1 - k)
reverse_loop-all i k buffer lt = elim (Bool-cases (ltb k (i / 2) || leb i (k + i / 2))) [
  | inl exchanged ↦
      reverse_loop-Inside (i / 2) 0 i k buffer (omega arith) (ground (arith, exchanged, lt))
  | inr middle ↦
      reverse_loop-Outside (i / 2) 0 i k buffer (omega arith) (ground (arith, middle, lt))
      ∙ ap buffer (ground (arith, middle, lt))
]

-- The `n` characters from index `j` on.
abbrev text_at : (j n : ℕ) → (ℕ → ℕ) → List ℕ
text_at j zero buffer = []
text_at j (suc n) buffer = buffer j ∷ text_at (j + 1) n buffer

-- Characters in front of a NUL are the string.
string_at-text :
    (n room j : ℕ) (f : ℕ → ℕ)
    → n < room
    → ((k : ℕ) → j ≤ k → k < j + n → 0 < f k)
    → f (j + n) ≡ 0
    → string_at room j f ≡ some (text_at j n f)
unfolding string_at
string_at-text n zero j f lt h e = absurd (omega (arith, lt))
string_at-text zero (suc room) j f lt h e =
    let nul : (f j == 0) ≡ true = ground (arith, ap f (add-zero j), e) in rw nul refl
string_at-text (suc n) (suc room) j f lt h e =
    let char : (f j == 0) ≡ false = ground (arith, h j (omega arith) (omega arith)) in
    let rest =
      string_at-text n room (j + 1) f (omega (arith, lt))
        (λ k a b. h k (omega (arith, a)) (omega (arith, b))) (ap f (omega arith) ∙ e) in
    rw char (ap (λ o. o >>= λ str. some (f j ∷ str)) rest)

text_at-backwards :
    (n j : ℕ) (f g : ℕ → ℕ)
    → ((k : ℕ) → k < n → f (j + k) ≡ g (n - 1 - k))
    → text_at j n f ≡ backwards n g
text_at-backwards zero j f g h = refl
text_at-backwards (suc n) j f g h =
    ap (λ c. c ∷ text_at (j + 1) n f) (ap f (omega arith) ∙ h 0 (omega arith) ∙ ap g (omega arith))
    ∙ ap (λ l. g n ∷ l)
        (text_at-backwards n (j + 1) f g
          (λ k lt. ap f (omega arith) ∙ h (k + 1) (omega (arith, lt)) ∙ ap g (omega (arith, lt))))

pub backwards_push :
    (i c : ℕ) (buffer : ℕ → ℕ) → backwards (i + 1) (update buffer i c) ≡ c ∷ backwards i buffer
backwards_push i c buffer =
    let e : i + 1 ≡ suc i = omega arith in
    ap (λ n. backwards n (update buffer i c)) e ∙ backwards-update i c buffer

zero_add : (k : ℕ) → 0 + k ≡ k
zero_add k = omega arith

pub itoa_text_lem :
    (i : ℕ) (buffer : ℕ → ℕ)
    → i < 12
    → ((k : ℕ) → k < i → 0 < buffer k)
    → itoa_text (i, buffer) ≡ some (backwards i buffer)
unfolding itoa_text
itoa_text_lem i buffer room chars =
    let closed = update buffer i 0 in
    let turned = reverse_loop (i / 2) 0 i closed in
    let at : (k : ℕ) → k < i → turned k ≡ buffer (i - 1 - k) = λ k lt.
      reverse_loop-all i k closed lt
      ∙ update_ne buffer i (i - 1 - k) 0 (λ e. omega (arith, e, lt)) in
    let nul : turned (0 + i) ≡ 0 =
      ap turned (zero_add i)
      ∙ reverse_loop-Outside (i / 2) 0 i i closed (omega arith) (inr (inr (omega arith)))
      ∙ update_self buffer i 0 in
    let fits : ltb i 12 ≡ true = ground (arith, room) in
    rw fits (
      string_at-text i 12 0 turned room
        (λ k a b.
          subst (λ c. 0 < c) (sym (at k (omega (arith, b)))) (chars (i - 1 - k) (omega (arith, b))))
        nul
      ∙ ap (λ l. some l)
          (text_at-backwards i 0 turned buffer (λ k lt. ap turned (zero_add k) ∙ at k lt)))
