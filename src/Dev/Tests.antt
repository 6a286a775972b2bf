-- ===== src/Dev/Tests.antt =====
-- A concrete line for src/dev_uart.c.
use nycu_osdi.Prelude.{ℕ, ◌<◌, ◌≡◌, refl, true, some, [], ◌∷◌, arith}
use nycu_osdi.Prelude.Int.{negsuc, ◌+ℤ◌}
use nycu_osdi.Vfs.{einval}
use nycu_osdi.Uart.Blocking.Lines.{wire}
use nycu_osdi.Dev.{DevFile, dev_uart_read, dev_uart_lseek64}
use nycu_osdi.Dev.Streams.{read_of, dev_uart_read_lem}

abbrev opened : DevFile
opened = record { vnode = 4; f_pos = 10 }

dev_uart_read_lem_example :
    (◌≡◌ {A = ℕ} 2 5
      → dev_uart_read (some opened) true 5 (wire (104 ∷ 105 ∷ 7 ∷ []) [])
        ≡ some (read_of opened (104 ∷ 105 ∷ []) (7 ∷ []) []))
    × (2 < 5
        → dev_uart_read (some opened) true 5 (wire (104 ∷ 105 ∷ 0 ∷ 7 ∷ []) [])
          ≡ some (read_of opened (104 ∷ 105 ∷ []) (7 ∷ []) []))
dev_uart_read_lem_example =
    dev_uart_read_lem opened (104 ∷ 105 ∷ []) (7 ∷ []) [] 5 refl (omega arith) (omega arith)

-- A position below 0 is refused.
below_zero : dev_uart_lseek64 (some opened) (negsuc 10) 1 ≡ (einval, some opened)
unfolding dev_uart_lseek64 ◌+ℤ◌
below_zero = refl
