-- ===== src/Lib.antt =====
-- A small operating system kernel for the Raspberry Pi 3: its page allocator, its serial driver,
-- its scheduler, its timers, its strings, its file systems, its system calls and interrupts, and its
-- boot loader.
--
-- The parts and the files that model them (paths from the root of the repository):
--   Mm       src/mm.c, include/mm.h     the buddy system: page_list and free_list as the record
--                                       `Mm`, _alloc as alloc_pages, _free as free_pages
--   Kmem     src/alloc.c                the caches of small chunks as the record `Kmem`, above Mm;
--                                       kmalloc, kfree, alloc and free, kmem_cache_init
--   Uart     src/uart.c                 the ring buffers between the interrupt handlers and the
--                                       asynchronous calls, as the record `Uart`; in Uart.Blocking
--                                       the calls that wait for the device, over a `Wire`
--   Sched    src/sched.c                the queues linked through the threads, schedule, _kill as
--                                       kill, _exit as exit, kill_zombies
--   Strings  src/string.c               strcmp, strlen and strtok
--   Tmpfs    src/fs_tmpfs.c             nodes and vnodes as the record `Fs`, lookup, creation, and
--                                       the operations on open files
--   Vfs      src/fs_vfs.c               the registration of file systems, and vfs_lookup; in Vfs.Files
--                                       vfs_open, vfs_mkdir, vfs_mount and the calls on files
--   Syscall  src/syscall.c, src/signal.c  the handlers of the system calls over Sched and Vfs, as
--                                       changes of the record `Sys`; the delivery of signals; in
--                                       Syscall.Entry syscall_entry of src/exception.c, in
--                                       Syscall.Create thread_create, _exec and mailbox_call
--   Irq      src/exception.c            irq_entry and uart_irq_handler, over the tasks, the timers
--                                       and the serial driver as the record `Machine`
--   Rootfs   src/fs_tmpfs.c             the tables of tmpfs under Vfs, as an instance of `Ops`
--   Initramfs src/fs_initramfs.c        the operations on the read-only file system
--   Cpio     src/cpio.c, src/fs_initramfs.c  the walk through the archive, initramfs_init
--   Numbers  src/utils.c, src/uart.c    hex_to_uint and uart_hex, atoi, itoa, be2le_u32
--   Dev      src/dev_uart.c, src/dev_framebuffer.c  the files of the two devices
--   Fdt      src/devicetree.c           the walk through a device tree, and the addresses of the
--                                       archive that initramfs_callback takes from it
--   Boot     bootloader/src/load.c, send_kernel.py  load_kernel, and the program that sends a kernel
--   Shell    src/shell.c                parse_cmd, over strtok
--   Timers   src/timer.c, src/tasks.c   the sorted lists of timers and of tasks
--   Prelude                             tests, lists, integers and arrays that the parts share
--
-- The virtual file system reaches tmpfs through tables of functions; vfs_lookup is modelled over
-- the results of those calls, and Vfs.Files over the record `Ops`, which stands for the tables and for
-- the writes of single fields, with a state of any type. The system calls take the same record.
--
-- The page allocator serves the others through alloc.c. In the parts other than Kmem, what a call of
-- `alloc` or `strdup` returns is an argument of the operation, and memory given back is not tracked. The
-- scheduler switches threads in assembly; the model takes the switch as the change of the current
-- thread.
--
-- The system calls store through pointers of their callers without a test. The record `Sys` says which
-- addresses hold the kernel's own data, and a store there is out of the model: the result is none.
--
-- State is passed explicitly: an operation takes the state and returns it with its result. Pointers
-- are numbers, none for NULL, and arrays and fields are functions from them. A result none is
-- undefined behaviour of the code, such as the overflow of a counter, or a loop that did not end within its rounds. The loops of mm.c
-- are given the rounds that their counters allow; those along a queue of threads take their number
-- as an argument, and the theorems ask for more of them than there are threads. The doubling of a
-- file's buffer has 64 rounds, as a size_t has no more. Theorems on files keep sizes below 2 ^ 63,
-- so that no sum wraps. The loops over the tokens of a device tree, the characters of a line and the
-- words of a command take their rounds as an argument, and the theorems ask for as many as there are
-- of these.
--
-- Not modelled: output to the console, device registers beyond the bits that the serial driver
-- tests, the commands of the shell and the tests of src/main.c,
-- the stacks and registers of threads, sched_init, vfs_init, memset, memcpy and strdup.
pub mod Boot
pub mod Cpio
pub mod Dev
pub mod Fdt
pub mod Initramfs
pub mod Irq
pub mod Kmem
pub mod Mm
pub mod Numbers
pub mod Prelude
pub mod Rootfs
pub mod Sched
pub mod Shell
pub mod Strings
pub mod Syscall
pub mod Timers
pub mod Tmpfs
pub mod Uart
pub mod Vfs
