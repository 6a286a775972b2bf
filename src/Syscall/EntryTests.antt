-- ===== src/Syscall/EntryTests.antt =====
-- A concrete call through src/exception.c: thread 1 closes its file 1, beside thread 5.
use nycu_osdi.Prelude.{some, refl, ◌≡◌, ℕ, Option, none, [], true, update, arith}
use nycu_osdi.Prelude.Int.{pos}
use nycu_osdi.Vfs.Files.Making.{with_memory}
use nycu_osdi.Sched.Queues.{Queues}
use nycu_osdi.Syscall.{Sys, sys_fork}
use nycu_osdi.Syscall.Fork.{Forked, sys_fork-Forked}
use nycu_osdi.Syscall.Create.{ThreadMemory}
use nycu_osdi.Syscall.Entry.{Env}
use nycu_osdi.Syscall.Tests.{simple, with_x0, threads}

abbrev no_memory : ThreadMemory
no_memory = record {
  task = none;
  kernel_stack = none;
  user_stack = none;
  copies = with_memory;
  stdin = none;
  stdout = none;
  stderr = none;
}

abbrev env : Env (Option ℕ)
env = record {
  ops = simple;
  rounds = 3;
  text = λ a. none;
  copies = with_memory;
  copied = true;
  file = none;
  mount = none;
  names = [];
  thread = no_memory;
  exec_addr = none;
  archive = [];
  uart_getn = λ n. [];
  uart_putn = λ bytes. 0;
  mailbox = λ msg mem. (0, mem);
  framebuffer_ioctl = λ a. (pos 0, []);
  saved = λ t i. 0;
  default_handler = 1000;
  default_sigkill_handler = 2000;
}

-- The number of `sys_close` is in register 8.
abbrev closing : Sys (Option ℕ)
closing = record (with_x0 1) { x = update (with_x0 1).x 8 12 }

empty-Queues : Queues threads [] [] []
empty-Queues = record {
  chains = record { ready = refl; wait = refl; zombie = refl; once = λ p. omega arith };
  once = λ p. ground arith;
}

-- Thread 1 forks, with memory at 9 for the child.
sys_fork-Forked_example :
    (t : Sys (Option ℕ)) × (sys_fork 1 (some 9) (some 20) (some 21) (with_x0 4) ≡ some t)
    × Forked (with_x0 4) t 1 9 [] [] []
sys_fork-Forked_example =
    sys_fork-Forked 1 1 9 20 21 (with_x0 4) empty-Queues refl (omega arith) refl
