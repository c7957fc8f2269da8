-- ===== src/Disk.antt =====
-- The disk driver, device/disk.h and device/disk.c: a request and an acknowledgement for each call,
-- as lines of hexadecimal text over UART2.
pub mod Protocol
pub mod Reading
pub mod Server
mod Tests
use armcortex_a7os.Base.{ℕ, zero, suc, ◌+◌, ◌*◌, ◌/◌, ◌%◌, ◌^◌, List, [], ◌∷◌, get_or, minus_one}
use armcortex_a7os.Uart.{
  Peer, Io, ◌>>=◌, ◌>>◌, return, pl011_getc, pl011_geth, pl011_putc, pl011_puth,
}

abbrev pub disk_retry : ℕ
disk_retry = 3

abbrev pub disk_success : ℕ
disk_success = 0

abbrev pub disk_failure : ℕ
disk_failure = minus_one

-- `data_geth`: the `n` bytes that it stores.
unfoldable pub data_geth : {P : Type 0} → ℕ → Io P (List ℕ)
data_geth zero = return []
data_geth (suc n) = do b ← pl011_geth; bs ← data_geth n; return (b ∷ bs)

-- The number in the four bytes from index `i` on, lowest first.
abbrev pub word_at : List ℕ → ℕ → ℕ
word_at x i =
    get_or x i 0
    + get_or x (i + 1) 0 * 2 ^ 8
    + get_or x (i + 2) 0 * 2 ^ 16
    + get_or x (i + 3) 0 * 2 ^ 24

-- What an attempt of `disk_wr` does with the first byte of the answer; `again` is the next attempt.
unfoldable pub wr_answer : {P : Type 0} → ℕ → Io P ℕ → Io P ℕ
wr_answer zero again = pl011_getc >> return disk_success
wr_answer (suc c) again = pl011_getc >> again

module _ {P : Type 0} (dev : Peer P) where
  unfoldable pub addr_puth : ℕ → Io P (Unit {0})
  addr_puth x = do
    pl011_puth dev (x % 256)
    pl011_puth dev (x / 2 ^ 8 % 256)
    pl011_puth dev (x / 2 ^ 16 % 256)
    pl011_puth dev (x / 2 ^ 24 % 256)

  unfoldable pub data_puth : List ℕ → Io P (Unit {0})
  data_puth [] = return tt
  data_puth (b ∷ bs) = pl011_puth dev b >> data_puth bs

  -- The loops of the four calls, with the attempts that are left.
  unfoldable pub query_loop : ℕ → ℕ → Io P ℕ
  query_loop zero i = return disk_failure
  query_loop (suc k) i = do
    pl011_puth dev 0x00
    pl011_putc dev b'\n'
    c ← pl011_geth
    elim c [
      | zero ↦ do pl011_getc; x ← data_geth 8; pl011_getc; return (word_at x i)
      | suc _ ↦ pl011_getc >> query_loop k i
    ]

  unfoldable pub disk_get_block_num : Io P ℕ
  unfolding query_loop
  disk_get_block_num = query_loop disk_retry 0

  unfoldable pub disk_get_block_len : Io P ℕ
  unfolding query_loop
  disk_get_block_len = query_loop disk_retry 4

  unfoldable pub wr_loop : ℕ → ℕ → List ℕ → Io P ℕ
  wr_loop zero a x = return disk_failure
  wr_loop (suc k) a x = do
    pl011_puth dev 0x01
    pl011_putc dev b' '
    addr_puth a
    pl011_putc dev b' '
    data_puth x
    pl011_putc dev b'\n'
    c ← pl011_geth
    wr_answer c (wr_loop k a x)

  unfoldable pub disk_wr : ℕ → List ℕ → Io P ℕ
  unfolding wr_loop wr_answer
  disk_wr a x = wr_loop disk_retry a x

  -- The result, and the buffer `x` of `n` bytes afterwards.
  unfoldable pub rd_loop : ℕ → ℕ → ℕ → List ℕ → Io P (ℕ × List ℕ)
  rd_loop zero a n x = return (disk_failure, x)
  rd_loop (suc k) a n x = do
    pl011_puth dev 0x02
    pl011_putc dev b' '
    addr_puth a
    pl011_putc dev b'\n'
    c ← pl011_geth
    elim c [
      | zero ↦ do pl011_getc; y ← data_geth n; pl011_getc; return (disk_success, y)
      | suc _ ↦ pl011_getc >> rd_loop k a n x
    ]

  unfoldable pub disk_rd : ℕ → ℕ → List ℕ → Io P (ℕ × List ℕ)
  unfolding rd_loop
  disk_rd a n x = rd_loop disk_retry a n x
