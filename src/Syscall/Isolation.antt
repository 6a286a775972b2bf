-- ===== src/Syscall/Isolation.antt =====
-- src/exception.c and src/syscall.c: what is left of the threads that a system call does not concern,
-- and the rules for it.
pub mod Calls
pub mod Files
pub mod Threads
use nycu_osdi.Prelude.{
  ℕ, zero, suc, ◌≤◌, ◌<◌, ◌⊎◌, inl, inr, Bool-cases, ==_iff, ◌≡◌, ◌≢◌, refl, ap, ◌∙◌, Bool, true,
  false, Option, none, some, List, [], ◌∷◌, length, arith, ◌==◌, if◌then◌else◌, ◌>>=◌, update,
  update_ne, ◌+◌,
}
use nycu_osdi.Sched.{Sched}
use nycu_osdi.Vfs.{at}
use nycu_osdi.Syscall.{Sys, hits, store_bytes, to_user, set_fd}

-- The current thread, or one that is made, is not this one.
abbrev pub Other : ℕ → Option ℕ → Type 0
Other t o = (c : ℕ) → o ≡ some c → c ≢ t

-- An address of the kernel's own data is outside of what does not hit them.
pub hits-outside :
    (kernel : ℕ → Bool) (buf n a : ℕ)
    → hits kernel buf n ≡ false
    → kernel a ≡ true
    → (a < buf) ⊎ (buf + n ≤ a)
unfolding hits
hits-outside kernel buf zero a h k = omega arith
hits-outside kernel buf (suc n) a h k = elim (Bool-cases (buf == a)) [
  | inl same ↦
      (let q : kernel buf ≡ true = ap kernel ((==_iff buf a).0 same) ∙ k in
        absurd (ground (arith, rw q at h)))
  | inr other ↦
      (let rest : hits kernel (buf + 1) n ≡ false = ground (arith, h) in
        ground (arith, hits-outside kernel (buf + 1) n a rest k))
]

store_bytes-outside :
    (buf a : ℕ) (bytes : List ℕ) (mem : ℕ → ℕ)
    → (a < buf) ⊎ (buf + length bytes ≤ a)
    → store_bytes buf bytes mem a ≡ mem a
unfolding store_bytes
store_bytes-outside buf a [] mem out = refl
store_bytes-outside buf a (c ∷ bytes) mem out =
    store_bytes-outside (buf + 1) a bytes (update mem buf c) (ground (arith, out))
    ∙ ground (arith, out)

module _ {σ : Type 0} (t : ℕ) where
  -- Thread `t` keeps its files and its handlers, no pending signal of it is lost, and the kernel's own
  -- data in memory stay.
  pub record Kept (s s' : Sys σ) : Type 0 where
    pub files : s'.fd_table t ≡ s.fd_table t
    pub handlers : s'.sig_handlers t ≡ s.sig_handlers t
    pub signals : (sig : ℕ) → s.pending_sig t sig ≡ true → s'.pending_sig t sig ≡ true
    pub same_kernel : s'.kernel ≡ s.kernel
    pub memory : (a : ℕ) → s.kernel a ≡ true → s'.mem a ≡ s.mem a

  -- The same where a call returns.
  pub data AllKept (s : Sys σ) : Option (Sys σ) → Type 0 where
    lost : AllKept s none
    returned : {s' : Sys σ} → Kept s s' → AllKept s (some s')

  -- The other fields do not matter.
  pub kept :
      (s : Sys σ) (x : ℕ → ℕ) (sched : Sched) (cnt : ℕ) (fs : σ)
      → Kept s (record s { x = x; sched = sched; thread_cnt = cnt; fs = fs })
  kept s x sched cnt fs = record {
    files = refl;
    handlers = refl;
    signals = λ sig h. h;
    same_kernel = refl;
    memory = λ a h. refl;
  }

  pub Kept-trans : {s s' s'' : Sys σ} → Kept s s' → Kept s' s'' → Kept s s''
  Kept-trans a b = record {
    files = b.files ∙ a.files;
    handlers = b.handlers ∙ a.handlers;
    signals = λ sig h. b.signals sig (a.signals sig h);
    same_kernel = b.same_kernel ∙ a.same_kernel;
    memory = λ x h. b.memory x (ap (λ f. f x) a.same_kernel ∙ h) ∙ a.memory x h;
  }

  pub AllKept-trans : {s s' : Sys σ} (o : Option (Sys σ)) → Kept s s' → AllKept s' o → AllKept s o
  AllKept-trans none a b = lost
  AllKept-trans (some s'') a (returned b) = returned (Kept-trans a b)

  pub kept_if :
      (s : Sys σ) (b : Bool) (x y : Sys σ) → Kept s x → Kept s y → Kept s (if b then x else y)
  kept_if s true x y p q = p
  kept_if s false x y p q = q

  pub all_if :
      (s : Sys σ) (b : Bool) (x y : Option (Sys σ))
      → AllKept s x
      → AllKept s y
      → AllKept s (if b then x else y)
  all_if s true x y p q = p
  all_if s false x y p q = q

  pub kept_elim :
      {A : Type 0} (s : Sys σ) (o : Option A) (n : Sys σ) (f : A → Sys σ)
      → Kept s n
      → ((a : A) → o ≡ some a → Kept s (f a))
      → Kept s (elim o [ none ↦ n | some a ↦ f a ])
  kept_elim s none n f p q = p
  kept_elim s (some a) n f p q = q a refl

  pub all_elim :
      {A : Type 0} (s : Sys σ) (o : Option A) (n : Option (Sys σ)) (f : A → Option (Sys σ))
      → AllKept s n
      → ((a : A) → o ≡ some a → AllKept s (f a))
      → AllKept s (elim o [ none ↦ n | some a ↦ f a ])
  all_elim s none n f p q = p
  all_elim s (some a) n f p q = q a refl

  pub all_bind :
      {A : Type 0} (s : Sys σ) (o : Option A) (f : A → Option (Sys σ))
      → ((a : A) → o ≡ some a → AllKept s (f a))
      → AllKept s (o >>= f)
  all_bind s none f q = lost
  all_bind s (some a) f q = q a refl

  -- Other bytes in memory, none of them in the kernel's own data.
  pub mem-Kept :
      (s : Sys σ) (mem : ℕ → ℕ)
      → ((a : ℕ) → s.kernel a ≡ true → mem a ≡ s.mem a)
      → Kept s (record s { mem = mem })
  mem-Kept s mem same = record {
    files = refl;
    handlers = refl;
    signals = λ sig h. h;
    same_kernel = refl;
    memory = same;
  }

  pub all_hits :
      (s : Sys σ) (b : Bool) (x : Option (Sys σ))
      → (b ≡ false → AllKept s x)
      → AllKept s (if b then none else x)
  all_hits s true x h = lost
  all_hits s false x h = h refl

  pub to_user-Kept : (buf : ℕ) (bytes : List ℕ) (s : Sys σ) → AllKept s (to_user buf bytes s)
  unfolding to_user
  to_user-Kept buf bytes s = all_hits s (hits s.kernel buf (length bytes)) _ (λ away. returned (
      mem-Kept s (store_bytes buf bytes s.mem) (λ a k.
        store_bytes-outside buf a bytes s.mem (hits-outside s.kernel buf (length bytes) a away k))))

  pub then_kept :
      (s : Sys σ) (o : Option (Sys σ)) (f : Sys σ → Sys σ)
      → AllKept s o
      → ((a : Sys σ) → Kept a (f a))
      → AllKept s (o >>= λ a. some (f a))
  then_kept s none f k q = lost
  then_kept s (some a) f (returned k) q = returned (Kept-trans k (q a))

  -- A write for another thread.
  pub set_fd-Kept :
      (thread fd : ℕ) (file : Option ℕ) (s : Sys σ) → thread ≢ t → Kept s (set_fd thread fd file s)
  set_fd-Kept thread fd file s ne = record {
    files = update_ne s.fd_table thread t (update (s.fd_table thread) fd file) ne;
    handlers = refl;
    signals = λ sig h. h;
    same_kernel = refl;
    memory = λ a h. refl;
  }
