-- ===== src/Syscall/Descriptors.antt =====
-- src/syscall.c: which entry of the table of files `sys_open` and `sys_close` use.
use nycu_osdi.Prelude.{
  ℕ, zero, suc, ◌+◌, ◌<◌, ◌≡◌, ◌≢◌, ◌∙◌, refl, ap, true, false, Option, none, some, List, ◌∷◌,
  arith, ◌==◌, leb, if◌then◌else◌, ◌>>=◌, update, update_self, update_ne, Bool-cases, inl, inr,
}
use nycu_osdi.Prelude.Int.{pos, eq_ℤ}
use nycu_osdi.Vfs.Files.{Ops, Copies, Opened, vfs_open}
use nycu_osdi.Syscall.{Sys, to_register, index_of, set_fd}
use nycu_osdi.Syscall.Files.{negated, open_in, open_loop, close_fd, sys_open, sys_close}

-- Every entry below `fd` is in use.
abbrev pub UsedBelow : {σ : Type 0} → (curr fd : ℕ) → Sys σ → Type 0
UsedBelow curr fd s = (j : ℕ) → j < fd → (a : ℕ) × (s.fd_table curr j ≡ some a)

set_fd_self :
    {σ : Type 0} (curr fd : ℕ) (f : Option ℕ) (s : Sys σ)
    → (set_fd curr fd f s).fd_table curr fd ≡ f
set_fd_self curr fd f s =
    ap (λ g. g fd) (update_self s.fd_table curr (update (s.fd_table curr) fd f))
    ∙ update_self (s.fd_table curr) fd f

set_fd_others :
    {σ : Type 0} (curr fd : ℕ) (f : Option ℕ) (s : Sys σ) (thread j : ℕ)
    → ((thread == curr) ≡ true → (j == fd) ≡ false)
    → (set_fd curr fd f s).fd_table thread j ≡ s.fd_table thread j
set_fd_others curr fd f s thread j ne = elim (Bool-cases (thread == curr)) [
  | inl q ↦
      (let e : curr ≡ thread = ground arith in
        let apart : fd ≢ j = ground (arith, ne q) in
        rw (← e) (
          ap (λ g. g j) (update_self s.fd_table curr (update (s.fd_table curr) fd f))
          ∙ update_ne (s.fd_table curr) fd j f apart))
  | inr q ↦
      (let apart : curr ≢ thread = ground arith in
        ap (λ g. g j) (update_ne s.fd_table curr thread (update (s.fd_table curr) fd f) apart))
]

module _ {σ : Type 0} (ops : Ops σ) where
  open_loop-some :
      (n fd curr a : ℕ) (result : Option (Opened σ)) (s : Sys σ)
      → s.fd_table curr fd ≡ some a
      → open_loop ops (suc n) fd curr result s ≡ open_loop ops n (fd + 1) curr result s
  unfolding open_loop
  open_loop-some n fd curr a result s e = rw (e, open_loop) refl

  open_loop-none :
      (n fd curr : ℕ) (r : Opened σ) (s : Sys σ)
      → s.fd_table curr fd ≡ none
      → open_loop ops (suc n) fd curr (some r) s ≡ some (open_in ops curr fd r s)
  unfolding open_loop
  open_loop-none n fd curr r s e = rw (e, open_loop) refl

  -- The loop passes the entries in use, and stops at the first that is free.
  open_loop_lem :
      (k fd n curr : ℕ) (r : Opened σ) (s : Sys σ)
      → k < n
      → ((j : ℕ) → j < fd + k → (a : ℕ) × (s.fd_table curr j ≡ some a))
      → s.fd_table curr (fd + k) ≡ none
      → open_loop ops n fd curr (some r) s ≡ some (open_in ops curr (fd + k) r s)
  open_loop_lem k fd zero curr r s lt below free = absurd (omega (arith, lt))
  open_loop_lem zero fd (suc n) curr r s lt below free =
      let e : fd + 0 ≡ fd = omega arith in rw e (open_loop-none n fd curr r s (rw e at free))
  open_loop_lem (suc k) fd (suc n) curr r s lt below free =
      let e : fd + 1 + k ≡ fd + suc k = omega arith in
      let (a, q) = below fd (omega arith) in
      open_loop-some n fd curr a (some r) s q
      ∙ (open_loop_lem k (fd + 1) n curr r s (omega (arith, lt)) (λ j l. below j (omega (arith, l)))
            (ap (s.fd_table curr) e ∙ free)
          ∙ ap (λ i. some (open_in ops curr i r s)) e)

  open_loop-full :
      (n fd curr : ℕ) (result : Option (Opened σ)) (s : Sys σ)
      → ((j : ℕ) → j < fd + n → (a : ℕ) × (s.fd_table curr j ≡ some a))
      → open_loop ops n fd curr result s ≡ some s
  unfolding open_loop
  open_loop-full zero fd curr result s below = refl
  open_loop-full (suc n) fd curr result s below =
      let (a, q) = below fd (omega arith) in
      open_loop-some n fd curr a result s q
      ∙ open_loop-full n (fd + 1) curr result s (λ j l. below j (omega (arith, l)))

  -- What `sys_open` leaves when `vfs_open` has given `r`: the register, the entry `fd`, and the
  -- other entries and file systems.
  pub record OpenedAt (s t : Sys σ) (curr fd : ℕ) (r : Opened σ) : Type 0 where
    pub given : t.x 0 ≡ (if eq_ℤ r.code (pos 0) then fd else to_register (negated r.code))
    pub entry : t.fd_table curr fd ≡ r.target
    pub others :
        (thread j : ℕ)
        → ((thread == curr) ≡ true → (j == fd) ≡ false)
        → t.fd_table thread j ≡ s.fd_table thread j
    pub fs : t.fs ≡ r.state

  open_in-OpenedAt :
      (curr fd : ℕ) (r : Opened σ) (s : Sys σ) → OpenedAt s (open_in ops curr fd r s) curr fd r
  open_in-OpenedAt curr fd r s = record {
    given = refl;
    entry = set_fd_self curr fd r.target s;
    others = λ thread j ne. set_fd_others curr fd r.target s thread j ne;
    fs = refl;
  }

  -- With a path and a current thread, `sys_open` uses the first entry that is free: there is where
  -- `vfs_open` puts its file, and the register gets the index of the entry, or the error negated.
  pub sys_open_lem :
      (m : Copies) (file : Option ℕ) (c : ℕ) (path : List ℕ) (curr fd : ℕ) (r : Opened σ)
      (s : Sys σ)
      → s.sched.current ≡ some curr
      → fd < 16
      → UsedBelow curr fd s
      → s.fd_table curr fd ≡ none
      → vfs_open ops m file (some (c ∷ path)) (index_of (s.x 1)) s.fs ≡ some r
      → (t : Sys σ) × (sys_open ops m file (some (c ∷ path)) s ≡ some t) × OpenedAt s t curr fd r
  unfolding sys_open
  sys_open_lem m file c path curr fd r s now lt below free opened = (
    open_in ops curr fd r s,
    ap
          (λ o. o >>= λ k.
            open_loop ops 16 0 k (vfs_open ops m file (some (c ∷ path)) (index_of (s.x 1)) s.fs) s)
          now
        ∙ (ap (λ o. open_loop ops 16 0 curr o s) opened
            ∙ (open_loop_lem fd 0 16 curr r s lt (λ j l. below j (omega (arith, l)))
                  (ap (s.fd_table curr) zero_plus ∙ free)
                ∙ ap (λ i. some (open_in ops curr i r s)) zero_plus)),
    open_in-OpenedAt curr fd r s,
  )
    where
      zero_plus : 0 + fd ≡ fd
      zero_plus = omega arith

  -- With every entry in use `sys_open` does nothing: the register still has the path.
  pub sys_open-full :
      (m : Copies) (file : Option ℕ) (c : ℕ) (path : List ℕ) (curr : ℕ) (s : Sys σ)
      → s.sched.current ≡ some curr
      → UsedBelow curr 16 s
      → sys_open ops m file (some (c ∷ path)) s ≡ some s
  unfolding sys_open
  sys_open-full m file c path curr s now below =
      ap
        (λ o. o >>= λ k.
          open_loop ops 16 0 k (vfs_open ops m file (some (c ∷ path)) (index_of (s.x 1)) s.fs) s)
        now
      ∙ open_loop-full 16 0 curr _ s below

  sys_close_table :
      (curr fd : ℕ) (s : Sys σ)
      → s.sched.current ≡ some curr
      → index_of (s.x 0) ≡ fd
      → fd < 16
      → (sys_close ops s).fd_table ≡ (set_fd curr fd none s).fd_table
  unfolding sys_close
  sys_close_table curr fd s now at lt =
      let ok : leb 16 (index_of (s.x 0)) ≡ false = ground (arith, at) in
      rw ok (
        ap (λ o. (close_fd ops (index_of (s.x 0)) o s).fd_table) now
        ∙ ap (λ i. (set_fd curr i none s).fd_table) at)

  -- After `sys_close` of an entry below which all are in use, `sys_open` uses that entry again.
  pub sys_open-sys_close :
      (m : Copies) (file : Option ℕ) (c : ℕ) (path : List ℕ) (curr fd : ℕ) (r : Opened σ)
      (s u : Sys σ)
      → s.sched.current ≡ some curr
      → index_of (s.x 0) ≡ fd
      → fd < 16
      → UsedBelow curr fd s
      → u.fd_table ≡ (sys_close ops s).fd_table
      → u.sched.current ≡ some curr
      → vfs_open ops m file (some (c ∷ path)) (index_of (u.x 1)) u.fs ≡ some r
      → (t : Sys σ) × (sys_open ops m file (some (c ∷ path)) u ≡ some t) × OpenedAt u t curr fd r
  sys_open-sys_close m file c path curr fd r s u now at lt below same now' opened =
      let table = same ∙ sys_close_table curr fd s now at lt in
      sys_open_lem m file c path curr fd r u now' lt
        (λ j l.
          let (a, q) = below j l in
          (
            a,
            ap (λ f. f curr j) table
                ∙ (set_fd_others curr fd none s curr j (λ e. ground (arith, l)) ∙ q),
          ))
        (ap (λ f. f curr fd) table ∙ set_fd_self curr fd none s) opened
