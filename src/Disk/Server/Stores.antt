-- ===== src/Disk/Server/Stores.antt =====
-- The driver of device/disk.c with the server of device/disk.py at the other end of its line: an array
-- of blocks.
use armcortex_a7os.Base.{
  ℕ, ◌+◌, ◌-◌, ◌*◌, ◌/◌, ◌%◌, ◌^◌, min, ◌<◌, ◌≤◌, ◌≡◌, refl, sym, ◌∙◌, ap, subst, true, false, ◌&&◌,
  List, [], ◌∷◌, ◌++◌, some, length, leb, ltb, ◌==◌, ==_ne, ==_self, ==_iff, if◌then◌else◌,
  ℕ_discrete, arith, minus_one, all_below, all_below_at, inl, inr, Bool-cases,
}
use armcortex_a7os.Uart.{xtoi, Port}
use armcortex_a7os.Uart.Hex.{unhex}
use armcortex_a7os.Disk.{disk_wr, disk_rd}
use armcortex_a7os.Disk.Protocol.{
  AllBytes, Spells, Answers, wr_request, accepted, refused, given_up, disk_wr_lem,
}
use armcortex_a7os.Disk.Reading.{served, disk_rd_lem}
use armcortex_a7os.Disk.Server.{
  Server, ack_okay, ack_fail, answer, lower_digit, hexlify, read_bytes, write_bytes, wr_block,
  rd_block, serve,
}
use armcortex_a7os.Disk.Server.Requests.{up, sent, wr_request-answer, rd_request-answer}
use armcortex_a7os.Disk.Server.Image.{
  length-read_bytes, read-write, read-write_outside, blocks_apart, block_below,
}

-- The line between requests: the server runs, and nothing waits at either end.
abbrev pub ready : Server → Port Server
ready s = sent ([], up s [])

-- The block at an address, and the server with another block there.
abbrev pub block : ℕ → Server → List ℕ
block a s = read_bytes s.block_len (a * s.block_len) s.image

abbrev pub store : ℕ → List ℕ → Server → Server
store a x s =
    let end = a * s.block_len + length x in
    record s {
      image = write_bytes (a * s.block_len) x s.image;
      size = if leb end s.size then s.size else end;
    }

-- The address is one of the disk's, as the server counts them and as a signed number.
pub record InDisk (a : ℕ) (s : Server) : Type 0 where
  pub below : a < s.block_num
  pub positive : a < 2 ^ 31

wr_block-store :
    (a : ℕ) (x : List ℕ) (s : Server)
    → InDisk a s
    → length x ≡ s.block_len
    → wr_block a x (up s []) ≡ some (ack_okay, up (store a x s) [])
unfolding wr_block
wr_block-store a x s h e =
    let c₁ : (ltb a (2 ^ 31) && leb s.block_num a) ≡ false = ground (arith, h.below) in
    let c₂ : (length x == s.block_len) ≡ true = ground (arith, e) in
    let c₃ : leb (2 ^ 31) a ≡ false = ground (arith, h.positive) in rw (c₁, c₂, c₃) refl

digits_lower : all_below 256 (λ b. unhex (lower_digit (b / 16)) (lower_digit (b % 16)) == b) ≡ true
unfolding all_below xtoi
digits_lower = refl

pub hexlify-Spells : (bs : List ℕ) → AllBytes bs → Spells (hexlify bs) bs
unfolding hexlify
hexlify-Spells [] h = tt
hexlify-Spells (b ∷ bs) (l, h) = (
  (==_iff _ b).0 (
      all_below_at 256 (λ b. unhex (lower_digit (b / 16)) (lower_digit (b % 16)) == b) b
        digits_lower l),
  hexlify-Spells bs h,
)

pub zero_zero : unhex b'0' b'0' ≡ 0
unfolding xtoi
zero_zero = refl

zero_one : unhex b'0' b'1' ≡ 1
unfolding xtoi
zero_one = refl

-- The driver writes a block: the server stores it, and the line is ready again.
pub disk_wr-store :
    (a b : ℕ) (x : List ℕ) (s : Server)
    → InDisk a s
    → length (b ∷ x) ≡ s.block_len
    → AllBytes (b ∷ x)
    → disk_wr serve a (b ∷ x) (ready s) ≡ some (0, ready (store a (b ∷ x) s))
disk_wr-store a b x s h e l = disk_wr_lem serve (
    accepted (
      b'0',
      b'0',
      b'\n',
      wr_request-answer a b x s (omega (arith, h.positive)) l
          ∙ ap (λ o. sent (answer (up s []) o)) (wr_block-store a (b ∷ x) s h e),
      zero_zero,
    ))

wr_block-refused :
    (a : ℕ) (x : List ℕ) (s : Server)
    → s.block_num ≤ a
    → a < 2 ^ 31
    → wr_block a x (up s []) ≡ some (ack_fail, up s [])
unfolding wr_block
wr_block-refused a x s h l =
    let c : (ltb a (2 ^ 31) && leb s.block_num a) ≡ true = ground (arith, h, l) in rw c refl

-- A write of at least one byte at an address that the disk has not, below 2 ^ 31, is refused each of
-- three times: `disk_wr` gives -1, and the server and the line are as before.
pub disk_wr-refused :
    (a b : ℕ) (x : List ℕ) (s : Server)
    → s.block_num ≤ a
    → a < 2 ^ 31
    → AllBytes (b ∷ x)
    → disk_wr serve a (b ∷ x) (ready s) ≡ some (minus_one, ready s)
disk_wr-refused a b x s h l k =
    let no : Answers serve (wr_request serve a (b ∷ x)) (ready s) 1 (ready s) = (
      b'0',
      b'1',
      b'\n',
      wr_request-answer a b x s (omega (arith, l)) k
          ∙ ap (λ o. sent (answer (up s []) o)) (wr_block-refused a (b ∷ x) s h l),
      zero_one,
    ) in
    disk_wr_lem serve (refused 0 no (refused 0 no (refused 0 no given_up)))

rd_block-block :
    (a : ℕ) (s : Server)
    → InDisk a s
    → a * s.block_len + s.block_len ≤ s.size
    → rd_block a (up s []) ≡ some (ack_okay ++ (b' ' ∷ hexlify (block a s)), up s [])
unfolding rd_block
rd_block-block a s h l =
    let at = a * s.block_len in
    let c₁ : (ltb a (2 ^ 31) && leb s.block_num a) ≡ false = ground (arith, h.below) in
    let c₂ : leb (2 ^ 31) a ≡ false = ground (arith, h.positive) in
    let whole : min s.block_len (s.size - at) ≡ s.block_len = omega arith in
    rw (c₁, c₂, whole, length-read_bytes s.block_len at s.image, ==_self s.block_len) refl

-- The driver reads a block: it gets just the bytes that the server has there.
pub disk_rd-block :
    (a n : ℕ) (buffer : List ℕ) (s : Server)
    → InDisk a s
    → a * s.block_len + s.block_len ≤ s.size
    → n ≡ s.block_len
    → AllBytes (block a s)
    → disk_rd serve a n buffer (ready s) ≡ some ((0, block a s), ready s)
disk_rd-block a n buffer s h l e k =
    ap (λ (m : ℕ). disk_rd serve a m buffer (ready s))
      (e ∙ sym (length-read_bytes s.block_len (a * s.block_len) s.image))
    ∙ disk_rd_lem serve a buffer (block a s) (0, block a s) (ready s) (ready s)
        (served b'0' b'0' b' ' b'\n' (hexlify (block a s))
          (rd_request-answer a s (omega (arith, h.positive))
            ∙ ap (λ o. sent (answer (up s []) o)) (rd_block-block a s h l))
          (hexlify-Spells (block a s) k) zero_zero)

-- The block at each address once one was written.
pub block-store :
    (a b : ℕ) (x : List ℕ) (s : Server)
    → length x ≡ s.block_len
    → block b (store a x s) ≡ (if a == b then x else block b s)
block-store a b x s e = elim (ℕ_discrete a b) [
  | yes q ↦
      rw (q, ==_self b)
        (ap (λ (n : ℕ). read_bytes n (b * s.block_len) (write_bytes (b * s.block_len) x s.image))
            (sym e)
          ∙ read-write (b * s.block_len) x s.image)
  | no ne ↦ rw (==_ne a b ne) (
      read-write_outside s.block_len (b * s.block_len) (a * s.block_len) x s.image
        (elim (blocks_apart a b s.block_len ne) [
          | inl l ↦ inl l
          | inr l ↦ inr (omega (arith, l, e))
        ]))
]

-- The image holds all of the disk's blocks, of bytes.
pub record IsWhole (s : Server) : Type 0 where
  pub full : s.block_num * s.block_len ≤ s.size
  pub bytes : (a : ℕ) → a < s.block_num → AllBytes (block a s)

pub store-IsWhole :
    (a : ℕ) (x : List ℕ) (s : Server)
    → length x ≡ s.block_len
    → AllBytes x
    → IsWhole s
    → IsWhole (store a x s)
store-IsWhole a x s e h w = record {
  full = ground (arith, w.full);
  bytes = λ b l.
      subst AllBytes (sym (block-store a b x s e))
        (elim (Bool-cases (a == b)) [ inl q ↦ rw q h | inr q ↦ rw q (w.bytes b l) ]);
}

-- With the server at the other end of the line, the driver's disk is an array of blocks. From a server
-- whose image holds all of its blocks, of bytes, a block of the disk's length, of at least one byte,
-- written at an address of the disk, is the block that is read there, and every other block is as it
-- was; both calls succeed, and the server and the line are ready for the next request each time.
pub disk_wr-disk_rd :
    (a c b : ℕ) (x buffer : List ℕ) (s : Server)
    → IsWhole s
    → InDisk a s
    → InDisk c s
    → length (b ∷ x) ≡ s.block_len
    → AllBytes (b ∷ x)
    → (t : Server) × (disk_wr serve a (b ∷ x) (ready s) ≡ some (0, ready t))
      × IsWhole t
      × (disk_rd serve c s.block_len buffer (ready t)
          ≡ some ((0, if a == c then b ∷ x else block c s), ready t))
disk_wr-disk_rd a c b x buffer s w h k e l =
    let t = store a (b ∷ x) s in
    let w' = store-IsWhole a (b ∷ x) s e l w in
    let k' : InDisk c t = record { below = k.below; positive = k.positive } in
    (
      t,
      disk_wr-store a b x s h e l,
      w',
      disk_rd-block c s.block_len buffer t k'
            (omega (arith, w'.full, block_below c s.block_num s.block_len k.below)) refl
            (w'.bytes c k.below)
          ∙ ap (λ (y : List ℕ). some ((0, y), ready t)) (block-store a c (b ∷ x) s e),
    )
