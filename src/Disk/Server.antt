-- ===== src/Disk/Server.antt =====
-- The disk server, device/disk.py, as the other end of the driver's line: it gathers a line, and answers
-- at the end of it. The disk image is a file: a byte for each offset, and a size. An exception, such as
-- of `unhexlify` or of `lseek`, ends the server. A write of the file takes all of its bytes; the log is
-- left out.
pub mod Lines
pub mod Requests
pub mod Image
pub mod Stores
pub mod Geometry
mod Tests
use armcortex_a7os.Base.{
  ℕ, zero, suc, ◌+◌, ◌-◌, ◌*◌, ◌/◌, ◌%◌, ◌^◌, min, Bool, true, false, ◌&&◌, ◌||◌, not, List, [],
  ◌∷◌, ◌++◌, Option, none, some, length, leb, ltb, ◌==◌, if◌then◌else◌, le32, of_le32,
}
use armcortex_a7os.Uart.{Peer}

-- `args.block_num`, `args.block_len`, the file behind `fd`, and what has been received of the line.
pub record Server : Type 0 where
  pub block_num : ℕ
  pub block_len : ℕ
  pub image : ℕ → ℕ
  pub size : ℕ
  pub line : List ℕ
  pub alive : Bool

-- White space, as `strip` takes it off.
unfoldable pub is_space : ℕ → Bool
is_space c = c == b' ' || (leb 9 c && leb c 13)

abbrev pub is_empty : List ℕ → Bool
is_empty [] = true
is_empty (c ∷ cs) = false

unfoldable pub rstrip : List ℕ → List ℕ
rstrip [] = []
rstrip (c ∷ cs) = let rest = rstrip cs in if is_space c && is_empty rest then [] else c ∷ rest

unfoldable pub lstrip : List ℕ → List ℕ
lstrip [] = []
lstrip (c ∷ cs) = let rest = lstrip cs in if is_space c then rest else c ∷ cs

-- A word in front of the first of the words.
abbrev pub onto_first : ℕ → List (List ℕ) → List (List ℕ)
onto_first c [] = (c ∷ []) ∷ []
onto_first c (w ∷ ws) = (c ∷ w) ∷ ws

-- `split( ' ' )`
unfoldable pub split : List ℕ → List (List ℕ)
split [] = [] ∷ []
split (c ∷ cs) = let rest = split cs in if c == b' ' then [] ∷ rest else onto_first c rest

unfoldable pub digit : ℕ → Option ℕ
digit c =
    if leb b'0' c && leb c b'9'
    then some (c - b'0')
    else if leb b'a' c && leb c b'f'
    then some (10 + (c - b'a'))
    else if leb b'A' c && leb c b'F'
    then some (10 + (c - b'A'))
    else none

-- One byte of two digits, in front of others.
abbrev pub byte_onto : Option ℕ → Option ℕ → Option (List ℕ) → Option (List ℕ)
byte_onto (some h) (some l) (some bs) = some ((h * 16 + l) ∷ bs)
byte_onto (some h) (some l) none = none
byte_onto (some h) none r = none
byte_onto none o r = none

unfoldable pub unhexlify : List ℕ → Option (List ℕ)
unfolding digit
unhexlify [] = some []
unhexlify (h ∷ []) = none
unhexlify (h ∷ l ∷ rest) = byte_onto (digit h) (digit l) (unhexlify rest)

abbrev pub lower_digit : ℕ → ℕ
lower_digit d = if leb d 9 then b'0' + d else b'a' + (d - 10)

unfoldable pub hexlify : List ℕ → List ℕ
hexlify [] = []
hexlify (b ∷ bs) = lower_digit (b / 16) ∷ lower_digit (b % 16) ∷ hexlify bs

-- `struct.unpack( '<l', … )`, with the bit pattern of the result.
abbrev pub unpack : List ℕ → Option ℕ
unpack (a ∷ b ∷ c ∷ d ∷ []) = some (of_le32 a b c d)
unpack bs = none

-- An acknowledgement: `none` is an exception.
abbrev pub Ack : Type 0
Ack = Option (List ℕ × Server)

-- `struct.pack( '<l', … )` raises for a number that is not below 2 ^ 31.
abbrev pub pack : ℕ → Option (List ℕ)
pack n = if ltb n (2 ^ 31) then some (le32 n) else none

abbrev pub conf_with : Option (List ℕ) → Option (List ℕ) → Server → Ack
conf_with none l s = none
conf_with (some n) none s = none
conf_with (some n) (some l) s = some (b'0' ∷ b'0' ∷ b' ' ∷ hexlify (n ++ l), s)

unfoldable pub conf : Server → Ack
unfolding hexlify
conf s = conf_with (pack s.block_num) (pack s.block_len) s

abbrev pub ack_okay : List ℕ
ack_okay = b'0' ∷ b'0' ∷ []

abbrev pub ack_fail : List ℕ
ack_fail = b'0' ∷ b'1' ∷ []

-- `n` bytes from an offset on.
unfoldable pub read_bytes : ℕ → ℕ → (ℕ → ℕ) → List ℕ
read_bytes zero at m = []
read_bytes (suc n) at m = m at ∷ read_bytes n (at + 1) m

unfoldable pub write_bytes : ℕ → List ℕ → (ℕ → ℕ) → ℕ → ℕ
write_bytes at [] m = m
write_bytes at (b ∷ bs) m = write_bytes (at + 1) bs (λ i. if i == at then b else m i)

-- `wr` once the address and the data are known. A negative address passes the first test, and `lseek`
-- refuses it.
unfoldable pub wr_block : ℕ → List ℕ → Server → Ack
unfolding write_bytes
wr_block address bytes s =
    if ltb address (2 ^ 31) && leb s.block_num address
    then some (ack_fail, s)
    else if not (length bytes == s.block_len)
    then some (ack_fail, s)
    else if leb (2 ^ 31) address
    then none
    else let at = address * s.block_len in
      let end = at + length bytes in
      some (
        ack_okay,
        record s {
          image = write_bytes at bytes s.image;
          size = if leb end s.size then s.size else end;
        },
      )

unfoldable pub rd_block : ℕ → Server → Ack
unfolding read_bytes hexlify
rd_block address s =
    if ltb address (2 ^ 31) && leb s.block_num address
    then some (ack_fail, s)
    else if leb (2 ^ 31) address
    then none
    else let at = address * s.block_len in
      let bytes = read_bytes (min s.block_len (s.size - at)) at s.image in
      if not (length bytes == s.block_len)
      then some (ack_fail, s)
      else some (ack_okay ++ (b' ' ∷ hexlify bytes), s)

abbrev pub wr_with : Option (List ℕ) → Option (List ℕ) → Server → Ack
wr_with none bytes s = none
wr_with (some x) none s = none
wr_with (some x) (some bytes) s = elim (unpack x) [ none ↦ none | some a ↦ wr_block a bytes s ]

abbrev pub rd_with : Option (List ℕ) → Server → Ack
rd_with none s = none
rd_with (some x) s = elim (unpack x) [ none ↦ none | some a ↦ rd_block a s ]

-- The arguments of a request, `req[ 1 ]` and `req[ 2 ]`.
unfoldable pub wr : List (List ℕ) → Server → Ack
unfolding wr_block unhexlify
wr (x ∷ y ∷ rest) s = wr_with (unhexlify x) (unhexlify y) s
wr args s = none

unfoldable pub rd : List (List ℕ) → Server → Ack
unfolding rd_block unhexlify
rd (x ∷ rest) s = rd_with (unhexlify x) s
rd [] s = none

-- `REQ_CONF`, `REQ_WR`, `REQ_RD`, or another word.
pub data Request : Type 0 where
  req_conf req_wr req_rd req_other : Request

unfoldable pub request : List ℕ → Request
request (a ∷ b ∷ []) =
    if not (a == b'0')
    then req_other
    else if b == b'0'
    then req_conf
    else if b == b'1'
    then req_wr
    else if b == b'2'
    then req_rd
    else req_other
request w = req_other

abbrev pub handle : Request → List (List ℕ) → Server → Ack
handle req_conf args s = conf s
handle req_wr args s = wr args s
handle req_rd args s = rd args s
handle req_other args s = some (ack_fail, s)

abbrev pub process : List (List ℕ) → Server → Ack
process [] s = none
process (w ∷ args) s = handle (request w) args s

-- The answer to a line, and the server afterwards.
abbrev pub answer : Server → Ack → List ℕ × Server
answer s none = ([], record s { alive = false })
answer s (some (ack, s')) = (ack ++ (b'\n' ∷ []), s')

unfoldable pub at_end_of_line : Server → List ℕ × Server
unfolding rstrip lstrip split conf wr rd request
at_end_of_line s =
    let t = record s { line = [] } in answer t (process (split (lstrip (rstrip s.line))) t)

unfoldable pub serve : Peer Server
unfolding at_end_of_line
serve b s =
    if not s.alive
    then ([], s)
    else if b == b'\n'
    then at_end_of_line s
    else ([], record s { line = s.line ++ (b ∷ []) })
