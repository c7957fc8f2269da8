-- ===== src/Disk/Server/Geometry.antt =====
-- The queries of device/disk.c for the size of the disk, and addresses that end the server.
use armcortex_a7os.Base.{
  ℕ, zero, suc, ◌^◌, ◌<◌, ◌≤◌, ◌≡◌, refl, sym, ◌∙◌, ap, true, false, List, [], ◌∷◌, ◌++◌, some, ◌⊎◌,
  inl, inr, Bool-cases, none, length, leb, ltb, ◌==◌, le32, arith,
}
use armcortex_a7os.Uart.{
  itox, Port, Io, ◌>>=◌, ◌>>◌, return, pl011_getc, pl011_geth, pl011_putc, pl011_puth,
}
use armcortex_a7os.Uart.Hex.{
  hex, hex_byte, feed, feed-append, with_input, geth_of, >>=-of, then-of, putc_lem, puth_lem,
}
use armcortex_a7os.Disk.{
  data_geth, word_at, query_loop, disk_get_block_num, disk_get_block_len, wr_answer, wr_loop,
  disk_wr,
}
use armcortex_a7os.Disk.Protocol.{AllBytes, data_geth-Spells, wr_request, wr_loop_step}
use armcortex_a7os.Disk.Server.{
  Server, Ack, answer, hexlify, conf, wr_block, process, is_space, split, lstrip, rstrip, handle,
  request, Request, req_conf, serve,
}
use armcortex_a7os.Disk.Server.Requests.{up, sent, hex-InLine, answers_line, wr_request-answer}
use armcortex_a7os.Disk.Server.Stores.{ready, hexlify-Spells, zero_zero}

words_of_query : split (lstrip (rstrip (hex (0x00 ∷ [])))) ≡ hex (0x00 ∷ []) ∷ []
unfolding split lstrip rstrip itox is_space
words_of_query = refl

command_conf : request (hex (0x00 ∷ [])) ≡ req_conf
unfolding request itox
command_conf = refl

-- The two numbers as the server sends them.
abbrev geometry : Server → List ℕ
geometry s = le32 s.block_num ++ le32 s.block_len

-- Both numbers are signed words that are not negative.
abbrev IsSigned : Server → Type 0
IsSigned s = (s.block_num < 2 ^ 31) × (s.block_len < 2 ^ 31)

conf-ready :
    (s : Server)
    → IsSigned s
    → conf (up s []) ≡ some (b'0' ∷ b'0' ∷ b' ' ∷ hexlify (geometry s), up s [])
unfolding conf
conf-ready s (h, l) =
    let c₁ : ltb s.block_num (2 ^ 31) ≡ true = ground (arith, h) in
    let c₂ : ltb s.block_len (2 ^ 31) ≡ true = ground (arith, l) in rw (c₁, c₂) refl

conf-raises : (s : Server) → (2 ^ 31 ≤ s.block_num) ⊎ (2 ^ 31 ≤ s.block_len) → conf (up s []) ≡ none
unfolding conf
conf-raises s (inl h) = let c : ltb s.block_num (2 ^ 31) ≡ false = ground (arith, h) in rw c refl
conf-raises s (inr h) =
    let c : ltb s.block_len (2 ^ 31) ≡ false = ground (arith, h) in
    rw c (elim (Bool-cases (ltb s.block_num (2 ^ 31))) [ inl e ↦ rw e refl | inr e ↦ rw e refl ])

query_line :
    (s : Server)
    → feed serve (hex (0x00 ∷ []) ++ (b'\n' ∷ [])) (ready s)
      ≡ sent (answer (up s []) (conf (up s [])))
query_line s =
    answers_line (hex (0x00 ∷ [])) s (hex-InLine (0x00 ∷ []))
    ∙ ap (λ (ws : List (List ℕ)). sent (answer (up s []) (process ws (up s [])))) words_of_query
    ∙ ap (λ (r : Request). sent (answer (up s []) (handle r [] (up s [])))) command_conf

query-answer :
    (s : Server)
    → IsSigned s
    → feed serve (hex (0x00 ∷ []) ++ (b'\n' ∷ [])) (ready s)
      ≡ sent (b'0' ∷ b'0' ∷ b' ' ∷ (hexlify (geometry s) ++ (b'\n' ∷ [])), up s [])
query-answer s h = query_line s ∙ ap (λ (o : Ack). sent (answer (up s []) o)) (conf-ready s h)

-- What an attempt does with the first byte of the answer.
abbrev query_answer : ℕ → Io Server ℕ → ℕ → Io Server ℕ
query_answer i again c = elim c [
  | zero ↦ do pl011_getc; x ← data_geth 8; pl011_getc; return (word_at x i)
  | suc _ ↦ pl011_getc >> again
]

query_loop_step :
    (k i : ℕ) (d : Port Server)
    → query_loop serve (suc k) i d
      ≡ (pl011_geth >>= query_answer i (query_loop serve k i))
          (feed serve (hex (0x00 ∷ []) ++ (b'\n' ∷ [])) d)
unfolding query_loop
query_loop_step k i d =
    then-of serve (hex_byte 0) (pl011_puth serve 0) _ d (puth_lem serve 0)
    ∙ then-of serve (10 ∷ []) (pl011_putc serve 10) _ _ (putc_lem serve 10)
    ∙ ap (pl011_geth >>= query_answer i (query_loop serve k i))
        (sym (feed-append serve (hex_byte 0) (10 ∷ []) d))

geometry_bytes : (s : Server) → AllBytes (geometry s)
geometry_bytes s = omega arith

query_answer-ready :
    (i : ℕ) (again : Io Server ℕ) (s : Server)
    → query_answer i again 0 (with_input (b' ' ∷ (hexlify (geometry s) ++ (b'\n' ∷ []))) (ready s))
      ≡ some (word_at (geometry s) i, ready s)
unfolding pl011_getc
query_answer-ready i again s =
    >>=-of (data_geth 8) (λ x. pl011_getc >> return (word_at x i))
      (with_input (hexlify (geometry s) ++ (b'\n' ∷ [])) (ready s))
      (data_geth-Spells (hexlify (geometry s)) (geometry s) (b'\n' ∷ []) (ready s)
        (hexlify-Spells (geometry s) (geometry_bytes s)))

query_loop-ready :
    (k i : ℕ) (s : Server)
    → IsSigned s
    → query_loop serve (suc k) i (ready s) ≡ some (word_at (geometry s) i, ready s)
query_loop-ready k i s h =
    let f = query_answer i (query_loop serve k i) in
    let waits = b' ' ∷ (hexlify (geometry s) ++ (b'\n' ∷ [])) in
    query_loop_step k i (ready s)
    ∙ ap (pl011_geth >>= f) (query-answer s h)
    ∙ >>=-of pl011_geth f (with_input (b'0' ∷ b'0' ∷ waits) (ready s))
        (geth_of b'0' b'0' waits (ready s))
    ∙ ap (λ (c : ℕ). f c (with_input waits (ready s))) zero_zero
    ∙ query_answer-ready i (query_loop serve k i) s

-- The two queries of the driver give the numbers of blocks and of bytes of a block that the server was
-- started with, if they are below 2 ^ 31, and leave the server and the line ready.
pub disk_geometry :
    (s : Server)
    → s.block_num < 2 ^ 31
    → s.block_len < 2 ^ 31
    → (disk_get_block_num serve (ready s) ≡ some (s.block_num, ready s))
      × (disk_get_block_len serve (ready s) ≡ some (s.block_len, ready s))
unfolding disk_get_block_num disk_get_block_len
disk_geometry s h l =
    let num : word_at (geometry s) 0 ≡ s.block_num = omega arith in
    let len : word_at (geometry s) 4 ≡ s.block_len = omega arith in
    (
      query_loop-ready 2 0 s (h, l) ∙ ap (λ (n : ℕ). some (n, ready s)) num,
      query_loop-ready 2 4 s (h, l) ∙ ap (λ (n : ℕ). some (n, ready s)) len,
    )

-- The server has ended: no byte waits, and whatever it is sent from then on changes nothing.
abbrev pub ended : Server → Port Server
ended s = sent ([], record s { line = []; alive = false })

pub ended-feed : (bs : List ℕ) (s : Server) → feed serve bs (ended s) ≡ ended s
unfolding feed serve
ended-feed [] s = refl
ended-feed (b ∷ bs) s = ended-feed bs s

query_loop-ended :
    (k i : ℕ) (s : Server)
    → (2 ^ 31 ≤ s.block_num) ⊎ (2 ^ 31 ≤ s.block_len)
    → query_loop serve (suc k) i (ready s) ≡ none
unfolding pl011_geth
query_loop-ended k i s h =
    query_loop_step k i (ready s)
    ∙ ap (pl011_geth >>= query_answer i (query_loop serve k i))
        (query_line s ∙ ap (λ (o : Ack). sent (answer (up s []) o)) (conf-raises s h))

-- Where the number of blocks or the number of bytes of a block is 2 ^ 31 or more, a query ends the
-- server, which answers nothing from then on, and both queries of the driver wait for ever.
pub disk_geometry_raises :
    (s : Server) (bs : List ℕ)
    → (2 ^ 31 ≤ s.block_num) ⊎ (2 ^ 31 ≤ s.block_len)
    → (feed serve ((hex (0x00 ∷ []) ++ (b'\n' ∷ [])) ++ bs) (ready s) ≡ ended s)
      × (disk_get_block_num serve (ready s) ≡ none)
      × (disk_get_block_len serve (ready s) ≡ none)
unfolding disk_get_block_num disk_get_block_len
disk_geometry_raises s bs h = (
  feed-append serve (hex (0x00 ∷ []) ++ (b'\n' ∷ [])) bs (ready s)
      ∙ ap (feed serve bs)
          (query_line s ∙ ap (λ (o : Ack). sent (answer (up s []) o)) (conf-raises s h))
      ∙ ended-feed bs s,
  query_loop-ended 2 0 s h,
  query_loop-ended 2 4 s h,
)

wr_block-negative :
    (a : ℕ) (x : List ℕ) (s : Server)
    → 2 ^ 31 ≤ a
    → length x ≡ s.block_len
    → wr_block a x (up s []) ≡ none
unfolding wr_block
wr_block-negative a x s h e =
    let c₁ : ltb a (2 ^ 31) ≡ false = ground (arith, h) in
    let c₂ : (length x == s.block_len) ≡ true = ground (arith, e) in
    let c₃ : leb (2 ^ 31) a ≡ true = ground (arith, h) in rw (c₁, c₂, c₃) refl

-- A block of the disk's length written at an address from 2 ^ 31 on ends the server: once it has the
-- request, whatever bytes come after it, it runs no more and has sent nothing; its image is as it was.
-- The driver waits for ever for an answer.
pub disk_wr-negative :
    (a b : ℕ) (x bs : List ℕ) (s : Server)
    → 2 ^ 31 ≤ a
    → a < 2 ^ 32
    → length (b ∷ x) ≡ s.block_len
    → AllBytes (b ∷ x)
    → (feed serve (wr_request serve a (b ∷ x) ++ bs) (ready s) ≡ ended s)
      × (disk_wr serve a (b ∷ x) (ready s) ≡ none)
unfolding disk_wr pl011_geth
disk_wr-negative a b x bs s h l e k = (
  feed-append serve (wr_request serve a (b ∷ x)) bs (ready s)
      ∙ ap (feed serve bs) received
      ∙ ended-feed bs s,
  wr_loop_step serve 2 a (b ∷ x) (ready s)
      ∙ ap (pl011_geth >>= λ c. wr_answer c (wr_loop serve 2 a (b ∷ x))) received,
)
  where
    received : feed serve (wr_request serve a (b ∷ x)) (ready s) ≡ ended s
    received =
        wr_request-answer a b x s l k
        ∙ ap (λ (o : Ack). sent (answer (up s []) o)) (wr_block-negative a (b ∷ x) s h e)
