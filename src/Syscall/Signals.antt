-- ===== src/Syscall/Signals.antt =====
-- src/signal.c: which signals `check_pending_signals` delivers, and which stay pending.
use nycu_osdi.Prelude.{
  ℕ, zero, suc, ◌+◌, ◌≤◌, ◌≡◌, ◌∙◌, refl, ap, Bool, false, List, [], ◌∷◌, arith, map, if◌then◌else◌,
  has, update, Bool-cases, inl, inr,
}
use nycu_osdi.Syscall.{
  Delivery, ignored, printed, exited, jumped, handle_signal, goes_on, check_loop,
  check_pending_signals,
}

abbrev pub signal_of : Delivery → ℕ
signal_of (ignored n) = n
signal_of (printed n) = n
signal_of (exited n) = n
signal_of (jumped n) = n

-- Up to the first that does not return.
unfoldable pub returning : (other_ready : Bool) → List Delivery → List Delivery
returning ready [] = []
returning ready (x ∷ xs) = if goes_on ready x then x ∷ returning ready xs else x ∷ []

module _ (d k : ℕ) (handlers : ℕ → ℕ) where
  -- What each pending signal from `sig` on calls for, in ascending order.
  unfoldable pub due : (n sig : ℕ) → (ℕ → Bool) → List Delivery
  due zero sig pending = []
  due (suc n) sig pending =
      if pending sig
      then handle_signal d k sig (handlers sig) ∷ due n (sig + 1) pending
      else due n (sig + 1) pending

  due-same :
      (n sig : ℕ) (p q : ℕ → Bool) → ((j : ℕ) → sig ≤ j → q j ≡ p j) → due n sig q ≡ due n sig p
  unfolding due
  due-same zero sig p q same = refl
  due-same (suc n) sig p q same = rw (same sig (omega arith)) (elim (Bool-cases (p sig)) [
    | inl e ↦ rw e (
        ap (λ l. handle_signal d k sig (handlers sig) ∷ l)
          (due-same n (sig + 1) p q (λ j le. same j (omega (arith, le)))))
    | inr e ↦ rw e (due-same n (sig + 1) p q (λ j le. same j (omega (arith, le))))
  ])

  signal_of-handle : (sig h : ℕ) → signal_of (handle_signal d k sig h) ≡ sig
  unfolding handle_signal
  signal_of-handle sig h = ground arith

  -- The loop delivers what is due up to the first that does not return, and clears just those.
  abbrev Delivered : (ready : Bool) → (n sig : ℕ) → (ℕ → Bool) → List Delivery × (ℕ → Bool) → Type 0
  Delivered ready n sig pending r =
      (r.0 ≡ returning ready (due n sig pending))
      × ((j : ℕ) → r.1 j ≡ (if has j (map signal_of r.0) then false else pending j))

  check_loop-Delivered :
      (ready : Bool) (n sig : ℕ) (pending : ℕ → Bool)
      → Delivered ready n sig pending (check_loop d k ready n sig handlers pending)
  unfolding check_loop due returning
  check_loop-Delivered ready zero sig pending = (refl, λ j. refl)
  check_loop-Delivered ready (suc n) sig pending = elim (Bool-cases (pending sig)) [
    | inr off ↦ rw (off, check_loop) (check_loop-Delivered ready n (sig + 1) pending)
    | inl on ↦
        (let x = handle_signal d k sig (handlers sig) in
          let cleared = update pending sig false in
          let (list, mask) = check_loop-Delivered ready n (sig + 1) cleared in
          let same : due n (sig + 1) cleared ≡ due n (sig + 1) pending =
            due-same n (sig + 1) pending cleared (λ j le. ground (arith, le)) in
          let at : signal_of x ≡ sig = signal_of-handle sig (handlers sig) in
          elim (Bool-cases (goes_on ready x)) [
            | inl more ↦
                rw (on, check_loop)
                  (rw more (
                    ap (λ l. x ∷ l) (list ∙ ap (returning ready) same),
                    λ j. ground (arith, mask j, at),
                  ))
            | inr stop ↦ rw (on, check_loop) (rw stop (refl, λ j. ground (arith, at)))
          ])
  ]

  -- `check_pending_signals` delivers the pending signals in ascending order, up to the first whose
  -- handler does not return: one of the user, or, if another thread is ready, the one that exits. It
  -- clears those that it delivers and leaves the others pending.
  pub check_pending_signals_lem :
      (ready : Bool) (pending : ℕ → Bool)
      → (let r = check_pending_signals d k ready handlers pending in
          (r.0 ≡ returning ready (due 32 0 pending))
          × ((j : ℕ) → r.1 j ≡ (if has j (map signal_of r.0) then false else pending j)))
  unfolding check_pending_signals
  check_pending_signals_lem ready pending = check_loop-Delivered ready 32 0 pending
