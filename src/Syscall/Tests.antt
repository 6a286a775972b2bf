-- ===== src/Syscall/Tests.antt =====
-- Concrete system calls and signals for src/syscall.c and src/signal.c.
use nycu_osdi.Prelude.{
  ℕ, ◌+◌, ◌≡◌, refl, Bool, true, false, Option, none, some, [], ◌∷◌, arith, map, has, ◌==◌, ◌||◌,
  ltb, if◌then◌else◌,
}
use nycu_osdi.Prelude.Int.{pos}
use nycu_osdi.Strings.{strcmp, scan}
use nycu_osdi.Sched.{Sched}
use nycu_osdi.Vfs.{
  Vfs, at, einterr, step_component, vfs_lookup, lookup_from, walk, get_next_component, skip_slashes,
}
use nycu_osdi.Vfs.Files.{Ops, Opened, vfs_open, vfs_close, open_at, open_file, opened_by}
use nycu_osdi.Vfs.Files.Making.{with_memory}
use nycu_osdi.Vfs.Files.Opening.{place_of}
use nycu_osdi.Syscall.{
  Sys, jumped, printed, handle_signal, to_register, check_pending_signals, check_loop, uart_size,
}
use nycu_osdi.Syscall.Files.{sys_open, sys_close, sys_chdir}
use nycu_osdi.Syscall.Descriptors.{OpenedAt, sys_open_lem, sys_open-sys_close}
use nycu_osdi.Syscall.Directory.{sys_chdir-relative}
use nycu_osdi.Syscall.Signals.{signal_of, due, returning, check_pending_signals_lem}

-- Every name is found; the state of the file systems is the working directory.
abbrev pub view : Option ℕ → Vfs
view c = record {
  mount = λ i. none;
  mount_root = λ i. 0;
  parent = λ i. some 0;
  lookup = λ i. some (λ name. (pos 0, some 7));
  root = 0;
  cwd = c;
}

abbrev pub simple : Ops (Option ℕ)
simple = record {
  view = view;
  create = λ s p. none;
  mkdir = λ s p. none;
  open_vnode = λ s v. some (λ file. record { code = pos 0; target = file; state = s });
  close = λ s file. some (pos 0, s);
  write = λ s file. none;
  read = λ s file. none;
  lseek64 = λ s file. none;
  set_flags = λ file flags s. s;
  set_f_ops = λ file f_ops s. s;
  parent_is_mount = λ s v. false;
  setup_mount = λ s fs. none;
  set_mount = λ v m s. s;
  set_parent = λ v p s. s;
  set_cwd = λ c s. c;
}

-- Thread 1 runs, with the entries 0 and 1 in use; register 0 holds the given number.
abbrev pub threads : Sched
threads = record {
  next = λ t. none;
  id = λ t. t;
  state = λ t. 1;
  ready_queue = none;
  wait_queue = none;
  zombie_queue = none;
  current = some 1;
  irq = true;
  timer_irq = true;
}

abbrev pub with_x0 : ℕ → Sys (Option ℕ)
with_x0 r = record {
  x = λ i. if i == 0 then r else 0;
  mem = λ a. 0;
  kernel = λ a. ltb a 0x100000;
  sched = threads;
  thread_cnt = 2;
  fd_table = λ t fd. if ltb fd 2 then some (100 + fd) else none;
  pending_sig = λ t sig. false;
  sig_handlers = λ t sig. 0;
  fs = some 5;
}

abbrev opened : Opened (Option ℕ)
opened = record { code = pos 0; target = some 300; state = some 5 }

-- "/a" opens.
opens : vfs_open simple with_memory (some 300) (some (47 ∷ 97 ∷ [])) 0 (some 5) ≡ some opened
unfolding vfs_open vfs_lookup lookup_from open_at open_file opened_by step_component strcmp walk
    get_next_component skip_slashes scan
opens = refl

sys_open_lem_example :
    (t : Sys (Option ℕ)) × (sys_open simple with_memory (some 300) (some (47 ∷ 97 ∷ [])) (with_x0 9)
      ≡ some t)
    × OpenedAt simple (with_x0 9) t 1 2 opened
sys_open_lem_example =
    sys_open_lem simple with_memory (some 300) 47 (97 ∷ []) 1 2 opened (with_x0 9) refl
      (omega arith) (λ j lt. (100 + j, ground (arith, lt))) refl opens

sys_open-sys_close_example :
    (t : Sys (Option ℕ)) × (sys_open simple with_memory
        (some 300)
        (some (47 ∷ 97 ∷ []))
        (sys_close simple (with_x0 1))
      ≡ some t)
    × OpenedAt simple (sys_close simple (with_x0 1)) t 1 1 opened
unfolding sys_close vfs_close
sys_open-sys_close_example =
    sys_open-sys_close simple with_memory (some 300) 47 (97 ∷ []) 1 1 opened (with_x0 1)
      (sys_close simple (with_x0 1)) refl refl (omega arith) (λ j lt. (100 + j, ground (arith, lt)))
      refl refl opens

-- "a" is found from the directory 5, and still `sys_chdir` fails.
relative_found : place_of (97 ∷ []) (view (some 5)) ≡ at 7
unfolding step_component strcmp
relative_found = refl

sys_chdir-relative_example :
    (t : Sys (Option ℕ)) × (sys_chdir simple true (some (97 ∷ [])) (with_x0 9) ≡ some t)
    × (t.x 0 ≡ to_register einterr)
    × ((view t.fs).cwd ≡ none)
sys_chdir-relative_example = sys_chdir-relative simple 97 [] 1 (with_x0 9) (λ c s. refl) refl refl

-- The address 1000 is the default handler, 2000 that of SIGKILL, any other a handler of the user.
abbrev handlers : ℕ → ℕ
handlers sig = if sig == 9 then 2000 else if sig == 5 then 3000 else 1000

abbrev mask : ℕ → Bool
mask sig = (sig == 3) || ((sig == 5) || (sig == 9))

check_pending_signals_lem_example :
    ((check_pending_signals 1000 2000 true handlers mask).0
      ≡ returning true (due 1000 2000 handlers 32 0 mask))
    × ((j : ℕ)
        → (check_pending_signals 1000 2000 true handlers mask).1 j ≡ (
            if has j (map signal_of (check_pending_signals 1000 2000 true handlers mask).0)
            then false
            else mask j))
check_pending_signals_lem_example = check_pending_signals_lem 1000 2000 handlers true mask

-- Signal 3 is printed, signal 5 goes to the user, and signal 9 waits.
delivered_two : (check_pending_signals 1000 2000 true handlers mask).0 ≡ printed 3 ∷ jumped 5 ∷ []
unfolding check_pending_signals check_loop handle_signal
delivered_two = refl

large_size : uart_size 5000 1 ≡ some 4096
unfolding uart_size
large_size = refl
