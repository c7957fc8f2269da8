-- ===== src/Keyboard.antt =====
-- The PL050 driver for the keyboard and the mouse, device/PL050.c, on a line as the one of Uart.antt:
-- bit 0x10 of STAT is set while a byte waits; the transmit register empties by itself, so the wait on
-- bit 0x40 ends.
use armcortex_a7os.Base.{ℕ, ◌++◌, some}
use armcortex_a7os.Uart.{Peer, Io, receive}

-- `none` where it waits for ever for a byte.
unfoldable pub pl050_getc : {P : Type 0} → Io P ℕ
pl050_getc d = receive d.input d

unfoldable pub pl050_putc : {P : Type 0} → Peer P → ℕ → Io P (Unit {0})
pl050_putc dev x d =
    let (bs, p) = dev x d.peer in some (tt, record d { input = d.input ++ bs; peer = p })
