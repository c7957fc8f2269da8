-- ===== src/Uart.antt =====
-- The PL011 UART driver, device/PL011.c, and the byte loops over it in user/libc.c.
-- A port is what the driver sees of the device: the bytes that wait to be received and the state of
-- the other end of the line. The flag register FR is read off it: bit 0x10 is set while no byte waits.
-- The transmitter drains by itself: bit 0x20 is not set, and the wait on it ends. The program always asks the
-- driver to wait (`f` is true).
pub mod Hex
pub mod Flags
use Prim.Native.Nat.{bit_or, bit_and}
use armcortex_a7os.Base.{
  ℕ, ◌+◌, ◌-◌, ◌*◌, ◌/◌, ◌%◌, ◌&&◌, List, [], ◌∷◌, ◌++◌, Option, none, some, leb, ◌==◌, Bool,
  if◌then◌else◌, minus_one,
}

-- `char` is unsigned on this processor; the result is an `int`.
unfoldable pub xtoi : ℕ → ℕ
xtoi x =
    if leb b'0' x && leb x b'9'
    then x - b'0'
    else if leb b'a' x && leb x b'f'
    then 10 + (x - b'a')
    else if leb b'A' x && leb x b'F'
    then 10 + (x - b'A')
    else minus_one

-- The result is a `char`, so that -1 is 255. A negative argument fails both tests.
unfoldable pub itox : ℕ → ℕ
itox x = if leb x 9 then b'0' + x else if leb 10 x && leb x 15 then b'A' + (x - 10) else 255

-- What stands at the other end of the line: it is fed each byte that is transmitted, and may send
-- bytes back.
abbrev pub Peer : Type 0 → Type 0
Peer P = ℕ → P → List ℕ × P

-- The bytes that wait in the receiver, oldest first, and the state of the other end.
pub record Port (P : Type 0) : Type 0 where
  pub input : List ℕ
  pub peer : P

-- A driver call: `none` where it waits for ever for a byte.
abbrev pub Io : Type 0 → Type 0 → Type 0
Io P A = Port P → Option (A × Port P)

infixl 5 ◌>>=◌ ◌>>◌
abbrev pub ◌>>=◌ : {P A B : Type 0} → Io P A → (A → Io P B) → Io P B
◌>>=◌ m f d = elim (m d) [ none ↦ none | some (a, d') ↦ f a d' ]

abbrev pub ◌>>◌ : {P A B : Type 0} → Io P A → Io P B → Io P B
m >> k = m >>= λ _. k

abbrev pub return : {P A : Type 0} → A → Io P A
return a d = some (a, d)

-- A read of the data register where the bytes `bs` wait.
abbrev pub receive : {P : Type 0} → List ℕ → Io P ℕ
receive [] d = none
receive (b ∷ bs) d = some (b, record d { input = bs })

-- The flag register `FR`.
abbrev pub flags : {P : Type 0} → Port P → ℕ
flags d = elim d.input [ [] ↦ 0x10 | b ∷ bs ↦ 0 ]

unfoldable pub pl011_can_putc : {P : Type 0} → Port P → Bool
pl011_can_putc d = bit_and (flags d) 0x20 == 0

unfoldable pub pl011_can_getc : {P : Type 0} → Port P → Bool
pl011_can_getc d = bit_and (flags d) 0x10 == 0

unfoldable pub pl011_getc : {P : Type 0} → Io P ℕ
pl011_getc d = receive d.input d

unfoldable pub pl011_geth : {P : Type 0} → Io P ℕ
unfolding pl011_getc xtoi
pl011_geth = do a ← pl011_getc; b ← pl011_getc; return (bit_or (xtoi a * 16 % 256) (xtoi b) % 256)

module _ {P : Type 0} (dev : Peer P) where
  unfoldable pub pl011_putc : ℕ → Io P (Unit {0})
  pl011_putc x d =
      let (bs, p) = dev x d.peer in some (tt, record d { input = d.input ++ bs; peer = p })

  unfoldable pub pl011_puth : ℕ → Io P (Unit {0})
  unfolding pl011_putc itox
  pl011_puth x = do pl011_putc (itox (x / 16 % 16)); pl011_putc (itox (x % 16))

  -- `print`: the first `n` bytes of a text.
  unfoldable pub print : List ℕ → Io P (Unit {0})
  unfolding pl011_putc
  print [] = return tt
  print (c ∷ cs) = pl011_putc c >> print cs
