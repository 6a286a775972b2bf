-- ===== src/Mm/Buddy.antt =====
-- `round`, `get_order` and `get_buddy` of src/mm.c.
use Prim.Native.Nat.{bit_xor, digits, differ, bit_xor-bitwise, min, max}
use mathlib.Core.Path.{ap₂}
use native.Mathlib.Nat.{one-le-pow, add-zero}
use nycu_osdi.Prelude.{
  ℕ, zero, suc, ◌+◌, ◌-◌, ◌*◌, ◌/◌, ◌%◌, ◌^◌, ◌≤◌, ◌<◌, ◌≡◌, ◌⊎◌, inl, inr, refl, arith, ◌==◌,
  pow-suc, ap, ◌∙◌, Bool-cases,
}
use nycu_osdi.Mm.{get_buddy}

abbrev xor_digits : ℕ → ℕ → ℕ → ℕ
xor_digits n a b = digits (λ b. b) differ n a b

-- A number has no more binary digits than its value.
xor_digits_fuel : (n m a b : ℕ) → a ≤ n → a ≤ m → xor_digits n a b ≡ xor_digits m a b
xor_digits_fuel zero zero a b p q = refl
xor_digits_fuel zero (suc m) zero b p q = refl
xor_digits_fuel zero (suc m) (suc a) b p q = absurd (omega arith)
xor_digits_fuel (suc n) zero zero b p q = refl
xor_digits_fuel (suc n) zero (suc a) b p q = absurd (omega arith)
xor_digits_fuel (suc n) (suc m) zero b p q = refl
xor_digits_fuel (suc n) (suc m) (suc a) b p q =
    omega (arith, xor_digits_fuel n m (suc a / 2) (b / 2) (omega arith) (omega arith))

zero-bit_xor : (b : ℕ) → bit_xor 0 b ≡ b
zero-bit_xor b = bit_xor-bitwise 0 b

-- The law for the lowest digit.
bit_xor_step : (a b : ℕ) → bit_xor a b ≡ bit_xor (a / 2) (b / 2) * 2 + differ (a % 2) (b % 2)
bit_xor_step zero b = omega (arith, zero-bit_xor b, zero-bit_xor (b / 2))
bit_xor_step (suc a) b = omega (
  arith,
  bit_xor-bitwise (suc a) b,
  bit_xor-bitwise (suc a / 2) (b / 2),
  xor_digits_fuel a (suc a / 2) (suc a / 2) (b / 2) (omega arith) (omega arith),
)

differ-zero : (d : ℕ) → differ d 0 ≡ d
differ-zero zero = refl
differ-zero (suc d) = refl

differ-one : (d : ℕ) → d < 2 → differ d 1 ≡ 1 - d
differ-one zero h = refl
differ-one (suc zero) h = refl
differ-one (suc (suc d)) h = absurd (omega arith)

bit_xor-zero_fuel : (n a : ℕ) → a ≤ n → bit_xor a 0 ≡ a
bit_xor-zero_fuel n zero h = zero-bit_xor 0
bit_xor-zero_fuel zero (suc a) h = absurd (omega arith)
bit_xor-zero_fuel (suc n) (suc a) h = omega (
  arith,
  bit_xor_step (suc a) 0,
  bit_xor-zero_fuel n (suc a / 2) (omega arith),
  differ-zero (suc a % 2),
)

bit_xor-one : (q : ℕ) → bit_xor q 1 ≡ q / 2 * 2 + (1 - q % 2)
bit_xor-one q = omega (
  arith,
  bit_xor_step q 1,
  bit_xor-zero_fuel (q / 2) (q / 2) (omega arith),
  differ-one (q % 2) (omega arith),
)

-- Flipping bit `k` of a number acts on its quotient by 2 ^ k.
bit_xor-pow : (k q r : ℕ) → r < 2 ^ k → bit_xor (q * 2 ^ k + r) (2 ^ k) ≡ bit_xor q 1 * 2 ^ k + r
bit_xor-pow zero q r h = let e : q * 1 + r ≡ q = omega arith in rw e (omega arith)
bit_xor-pow (suc k) q r h =
    let halve : (q * 2 ^ suc k + r) / 2 ≡ q * 2 ^ k + r / 2 =
      omega (arith, ap (λ (t : ℕ). q * t) (pow-suc 2 k)) in
    let mod_two : 2 ^ suc k % 2 ≡ 0 = omega (arith, pow-suc 2 k) in
    let mask : 2 ^ suc k / 2 ≡ 2 ^ k = omega (arith, pow-suc 2 k) in
    omega (
      arith,
      ap (λ (t : ℕ). q * t) (pow-suc 2 k),
      ap (λ (t : ℕ). bit_xor q 1 * t) (pow-suc 2 k),
      bit_xor_step (q * 2 ^ suc k + r) (2 ^ suc k),
      ap₂ bit_xor halve mask,
      bit_xor-pow k q (r / 2) (omega (arith, pow-suc 2 k)),
      ap (λ (d : ℕ). differ ((q * 2 ^ suc k + r) % 2) d) (mod_two),
      differ-zero ((q * 2 ^ suc k + r) % 2),
    )

-- The block at frame `i` has order `k`: its frames are a multiple of 2 ^ k up to the next.
abbrev pub Aligned : ℕ → ℕ → Type 0
Aligned i k = (q : ℕ) × (i ≡ q * 2 ^ k)

-- The buddy of block number `q` is the block number `q ^ 1`.
buddy_value : (k i q : ℕ) → i ≡ q * 2 ^ k → get_buddy i k ≡ (q / 2 * 2 + (1 - q % 2)) * 2 ^ k
unfolding get_buddy
buddy_value k i q e =
    rw (e, ← add-zero (q * 2 ^ k))
      (bit_xor-pow k q 0 (one-le-pow k 2 (omega arith))
        ∙ (add-zero _ ∙ ap (λ (t : ℕ). t * 2 ^ k) (bit_xor-one q)))

div_two : (q : ℕ) → q ≡ 2 * (q / 2) + q % 2
div_two q = omega arith

-- Merging with the buddy: the smaller of the two frames begins a block of the next order, and the
-- bigger is 2 ^ k behind it.
pub get_buddy_lem :
    (k i : ℕ)
    → Aligned i k
    → Aligned (min i (get_buddy i k)) (suc k)
      × (max i (get_buddy i k) ≡ min i (get_buddy i k) + 2 ^ k)
      × ((min i (get_buddy i k) ≡ i) ⊎ (max i (get_buddy i k) ≡ i))
get_buddy_lem k i (q, e) =
    let b = buddy_value k i q e in
    let h = q / 2 in
    let twice : h * 2 ^ suc k ≡ 2 * (h * 2 ^ k) =
      omega (arith, ap (λ (t : ℕ). h * t) (pow-suc 2 k)) in
    let parts : q * 2 ^ k ≡ 2 * (h * 2 ^ k) + q % 2 * 2 ^ k =
      omega (arith, ap (λ (t : ℕ). t * 2 ^ k) (div_two q)) in
    elim (Bool-cases (q % 2 == 0)) [
      | inl even ↦
          (let z : q % 2 ≡ 0 = ground arith in
            let b' : get_buddy i k ≡ (h * 2 + (1 - 0)) * 2 ^ k = rw z at b in
            let p' : q * 2 ^ k ≡ 2 * (h * 2 ^ k) + 0 * 2 ^ k = rw z at parts in
            ((h, omega arith), omega arith, inl (omega arith)))
      | inr odd ↦
          (let z : q % 2 ≡ 1 = ground arith in
            let b' : get_buddy i k ≡ (h * 2 + (1 - 1)) * 2 ^ k = rw z at b in
            let p' : q * 2 ^ k ≡ 2 * (h * 2 ^ k) + 1 * 2 ^ k = rw z at parts in
            ((h, omega arith), omega arith, inr (omega arith)))
    ]
