-- ===== src/Dev.antt =====
-- src/dev_uart.c and src/dev_framebuffer.c: the operations on the files of the two devices.
--
-- A file is its vnode and its position, which stays below 2 ^ 63; none for NULL. A buffer is its bytes,
-- none for NULL, and `len` is their number. What `alloc` gives is an argument; that a file is freed is
-- left out. A result none is a wait for a character that does not come.
pub mod Streams
mod Tests
use nycu_osdi.Prelude.{
  ℕ, zero, suc, ◌+◌, ◌-◌, ◌%◌, ◌^◌, Bool, true, false, not, ◌&&◌, Option, none, some, List, [], ◌∷◌,
  ltb, ◌==◌, get_or, length, if◌then◌else◌, ◌>>=◌,
}
use nycu_osdi.Prelude.Int.{ℤ, pos, negsuc, ◌+ℤ◌}
use nycu_osdi.Vfs.{enomem, einval}
use nycu_osdi.Syscall.{store_bytes}
use nycu_osdi.Uart.Blocking.{Wire, uart_getc, uart_putn}

pub record DevFile : Type 0 where
  pub vnode : ℕ
  pub f_pos : ℕ

-- The return value and the file that `*target` points to; `memory` says whether `alloc` gives one.
unfoldable pub dev_uart_open :
    (file_node : Option ℕ) → (has_target memory : Bool) → ℤ × Option DevFile
dev_uart_open none has_target memory = (einval, none)
dev_uart_open (some v) false memory = (einval, none)
dev_uart_open (some v) true false = (enomem, none)
dev_uart_open (some v) true true = (pos 0, some (record { vnode = v; f_pos = 0 }))

unfoldable pub dev_framebuffer_open :
    (file_node : Option ℕ) → (has_target memory : Bool) → ℤ × Option DevFile
dev_framebuffer_open none has_target memory = (einval, none)
dev_framebuffer_open (some v) false memory = (einval, none)
dev_framebuffer_open (some v) true false = (enomem, none)
dev_framebuffer_open (some v) true true = (pos 0, some (record { vnode = v; f_pos = 0 }))

unfoldable pub dev_uart_close : Option DevFile → ℤ
dev_uart_close none = einval
dev_uart_close (some f) = pos 0

unfoldable pub dev_framebuffer_close : Option DevFile → ℤ
dev_framebuffer_close none = einval
dev_framebuffer_close (some f) = pos 0

-- A size_t as the int that is returned.
abbrev pub int_of : ℕ → ℤ
int_of n = if ltb (n % 2 ^ 32) (2 ^ 31) then pos (n % 2 ^ 32) else negsuc (2 ^ 32 - 1 - n % 2 ^ 32)

-- `file->f_pos += n`
abbrev pub moved : ℕ → DevFile → DevFile
moved n f = record f { f_pos = f.f_pos + n }

-- The return value, the file and the wire.
unfoldable pub dev_uart_write :
    Option DevFile → (buf : Option (List ℕ)) → Wire → ℤ × (Option DevFile × Wire)
dev_uart_write none buf w = (einval, (none, w))
dev_uart_write (some f) none w = (einval, (some f, w))
dev_uart_write (some f) (some []) w = (einval, (some f, w))
dev_uart_write (some f) (some (c ∷ buf)) w =
    let n = length (c ∷ buf) in (int_of n, (some (moved n f), uart_putn (c ∷ buf) w))

-- The loop over `len` characters, which a NUL ends.
unfoldable pub read_loop : (len : ℕ) → Wire → Option (List ℕ × Wire)
read_loop zero w = some ([], w)
read_loop (suc n) w = uart_getc w >>= λ r.
    let rest : Option (List ℕ × Wire) = read_loop n r.1 >>= λ more. some (r.0 ∷ more.0, more.1) in
    if r.0 == 0 then some ([], r.1) else rest

-- What a read leaves: the return value, the bytes in `buf`, the file and the wire.
pub record ReadResult : Type 0 where
  pub code : ℤ
  pub bytes : List ℕ
  pub file : Option DevFile
  pub wire : Wire

unfoldable pub dev_uart_read :
    Option DevFile → (has_buf : Bool) → (len : ℕ) → Wire → Option ReadResult
dev_uart_read none has_buf len w =
    some (record { code = einval; bytes = []; file = none; wire = w })
dev_uart_read (some f) false len w =
    some (record { code = einval; bytes = []; file = some f; wire = w })
dev_uart_read (some f) true zero w =
    some (record { code = einval; bytes = []; file = some f; wire = w })
dev_uart_read (some f) true (suc n) w = read_loop (suc n) w >>= λ r. some (record {
  code = int_of (length r.0);
  bytes = r.0;
  file = some (moved (length r.0) f);
  wire = r.1;
})

-- The position that SEEK_SET, SEEK_CUR and SEEK_END stand for; none for another `whence`.
abbrev pub new_pos : ℤ → (whence : ℕ) → DevFile → Option ℤ
new_pos offset whence f =
    if whence == 0
    then some offset
    else if whence == 1
    then some (pos f.f_pos +ℤ offset)
    else if whence == 2
    then some (pos f.f_pos)
    else none

abbrev pub seek_to : Option ℤ → DevFile → ℤ × Option DevFile
seek_to none f = (einval, some f)
seek_to (some (negsuc n)) f = (einval, some f)
seek_to (some (pos n)) f = (pos n, some (record f { f_pos = n }))

unfoldable pub dev_uart_lseek64 : Option DevFile → ℤ → (whence : ℕ) → ℤ × Option DevFile
dev_uart_lseek64 none offset whence = (einval, none)
dev_uart_lseek64 (some f) offset whence = seek_to (new_pos offset whence f) f

unfoldable pub dev_framebuffer_lseek64 : Option DevFile → ℤ → (whence : ℕ) → ℤ × Option DevFile
dev_framebuffer_lseek64 none offset whence = (einval, none)
dev_framebuffer_lseek64 (some f) offset whence = seek_to (new_pos offset whence f) f

-- The static variables of the frame buffer, and the memory.
pub record Screen : Type 0 where
  pub width : ℕ
  pub height : ℕ
  pub pitch : ℕ
  pub isrgb : ℕ
  pub lfb : ℕ
  pub mem : ℕ → ℕ

-- The return value, the file and the screen; the code compares nothing with the size of the screen.
unfoldable pub dev_framebuffer_write :
    Option DevFile → (buf : Option (List ℕ)) → Screen → ℤ × (Option DevFile × Screen)
dev_framebuffer_write none buf s = (einval, (none, s))
dev_framebuffer_write (some f) none s = (einval, (some f, s))
dev_framebuffer_write (some f) (some []) s = (einval, (some f, s))
dev_framebuffer_write (some f) (some (c ∷ buf)) s =
    let n = length (c ∷ buf) in
    (int_of n, (some (moved n f), record s { mem = store_bytes (s.lfb + f.f_pos) (c ∷ buf) s.mem }))

unfoldable pub dev_framebuffer_read : Option DevFile → ℤ
dev_framebuffer_read f = negsuc 0

-- `mbox` as it is sent: the size and the tags of a screen of 1024 by 768 with 32 bits, in RGB.
abbrev pub request : List ℕ
request =
    140 ∷ 0 ∷ 0x48003 ∷ 8 ∷ 8 ∷ 1024 ∷ 768 ∷ 0x48004 ∷ 8 ∷ 8 ∷ 1024 ∷ 768 ∷ 0x48009 ∷ 8 ∷ 8 ∷ 0 ∷ 0
    ∷ 0x48005 ∷ 4 ∷ 4 ∷ 32 ∷ 0x48006 ∷ 4 ∷ 4 ∷ 1 ∷ 0x40001 ∷ 8 ∷ 8 ∷ 4096 ∷ 0 ∷ 0x40008 ∷ 4 ∷ 4 ∷ 0
    ∷ 0 ∷ []

-- `mailbox_call(...) && mbox[20] == 32 && mbox[28] != 0`
abbrev pub accepted : Bool × List ℕ → Bool
accepted r = r.0 && ((get_or r.1 20 0 == 32) && not (get_or r.1 28 0 == 0))

-- The screen that an answer describes; the mask cuts an address of the GPU to one of the processor.
abbrev pub described : List ℕ → Screen → Screen
described mbox s = record s {
  width = get_or mbox 5 0;
  height = get_or mbox 6 0;
  pitch = get_or mbox 33 0;
  isrgb = get_or mbox 24 0;
  lfb = get_or mbox 28 0 % 2 ^ 30;
}

-- `struct framebuffer_info`
pub record FramebufferInfo : Type 0 where
  pub width : ℕ
  pub height : ℕ
  pub pitch : ℕ
  pub isrgb : ℕ

abbrev pub info_of : Screen → FramebufferInfo
info_of s = record { width = s.width; height = s.height; pitch = s.pitch; isrgb = s.isrgb }

-- The return value, `*info`, none for NULL, and the screen. `mailbox` gives the result of `mailbox_call`
-- and what it leaves in `mbox`. That the screen could not be set is only printed.
unfoldable pub dev_framebuffer_ioctl :
    (mailbox : List ℕ → Bool × List ℕ)
    → Option FramebufferInfo
    → Screen
    → ℤ × (Option FramebufferInfo × Screen)
dev_framebuffer_ioctl mailbox none s = (einval, (none, s))
dev_framebuffer_ioctl mailbox (some info) s =
    let r = mailbox request in
    let s' = if accepted r then described r.1 s else s in (pos 0, (some (info_of s'), s'))
