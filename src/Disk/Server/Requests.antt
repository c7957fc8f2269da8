-- ===== src/Disk/Server/Requests.antt =====
-- What device/disk.py answers to the requests of device/disk.c.
use mathlib.Core.List.{append_assoc, append-nil}
use armcortex_a7os.Base.{
  ℕ, ◌^◌, ◌/◌, ◌%◌, ◌<◌, ◌≡◌, ◌≢◌, refl, sym, ◌∙◌, ap, ap₂, true, List, [], ◌∷◌, ◌++◌, Option,
  ==_ne, le32, of_le32, arith,
}
use armcortex_a7os.Uart.{Port, itox}
use armcortex_a7os.Uart.Hex.{hex, feed, feed-append}
use armcortex_a7os.Disk.Protocol.{AllBytes, wr_request, rd_request}
use armcortex_a7os.Disk.Server.{
  Server, Ack, rstrip, lstrip, split, wr_block, rd_block, wr_with, rd_with, wr, rd, Request, req_wr,
  req_rd, request, handle, process, answer, is_space, at_end_of_line, serve,
}
use armcortex_a7os.Disk.Server.Lines.{
  IsWord, hex-IsWord, unhexlify-hex, words_of_three, words_of_two,
}

-- The server once it runs, with `text` as what it has of the line.
abbrev pub up : Server → List ℕ → Server
up s text = record s { line = text; alive = true }

-- The line once the server has sent an answer that the driver has not read.
abbrev pub sent : List ℕ × Server → Port Server
sent (bytes, s) = record { input = bytes; peer = s }

-- No byte ends the line.
abbrev InLine : List ℕ → Type 0
InLine [] = Unit {0}
InLine (b ∷ bs) = (b ≢ b'\n') × InLine bs

InLine-append : (xs ys : List ℕ) → InLine xs → InLine ys → InLine (xs ++ ys)
InLine-append [] ys h k = k
InLine-append (x ∷ xs) ys h k = (h.0, InLine-append xs ys h.1 k)

word-InLine : (w : List ℕ) → IsWord w → InLine w
unfolding is_space
word-InLine [] h = tt
word-InLine (c ∷ cs) (p, h) = (ground (arith, p), word-InLine cs h)

gathers-one :
    (b : ℕ) (s : Server) (text : List ℕ)
    → b ≢ b'\n'
    → serve b (up s text) ≡ ([], up s (text ++ (b ∷ [])))
unfolding serve
gathers-one b s text n = rw (==_ne b b'\n' n) refl

gathers :
    (bs : List ℕ) (s : Server) (text : List ℕ)
    → InLine bs
    → feed serve bs (sent ([], up s text)) ≡ sent ([], up s (text ++ bs))
unfolding feed
gathers [] s text h = ap (λ (l : List ℕ). sent ([], up s l)) (sym (append-nil text))
gathers (b ∷ bs) s text (n, h) =
    ap (λ (r : List ℕ × Server). feed serve bs (sent r)) (gathers-one b s text n)
    ∙ gathers bs s (text ++ (b ∷ [])) h
    ∙ ap (λ (l : List ℕ). sent ([], up s l)) (append_assoc text (b ∷ []) bs)

-- The answer to a whole line.
pub answers_line :
    (text : List ℕ) (s : Server)
    → InLine text
    → feed serve (text ++ (b'\n' ∷ [])) (sent ([], up s []))
      ≡ sent (answer (up s []) (process (split (lstrip (rstrip text))) (up s [])))
unfolding feed serve at_end_of_line
answers_line text s h =
    feed-append serve text (b'\n' ∷ []) (sent ([], up s []))
    ∙ ap (feed serve (b'\n' ∷ [])) (gathers text s [] h)

space_or_word : (cs : List ℕ) → InLine cs → InLine (b' ' ∷ cs)
space_or_word cs h = (omega arith, h)

pub hex-InLine : (bs : List ℕ) → InLine (hex bs)
hex-InLine bs = word-InLine (hex bs) (hex-IsWord bs)

command_wr : request (hex (0x01 ∷ [])) ≡ req_wr
unfolding request itox
command_wr = refl

command_rd : request (hex (0x02 ∷ [])) ≡ req_rd
unfolding request itox
command_rd = refl

le32_bytes : (a : ℕ) → AllBytes (le32 a)
le32_bytes a = omega arith

value_of-le32 :
    (a : ℕ)
    → a < 2 ^ 32
    → of_le32 (a % 256) (a / 2 ^ 8 % 256) (a / 2 ^ 16 % 256) (a / 2 ^ 24 % 256) ≡ a
value_of-le32 a l = omega arith

wr_of-hex :
    (a : ℕ) (x : List ℕ) (s : Server)
    → a < 2 ^ 32
    → AllBytes x
    → wr (hex (le32 a) ∷ hex x ∷ []) s ≡ wr_block a x s
unfolding wr
wr_of-hex a x s l h =
    ap₂ (λ (u v : Option (List ℕ)). wr_with u v s) (unhexlify-hex (le32 a) (le32_bytes a))
      (unhexlify-hex x h)
    ∙ ap (λ (n : ℕ). wr_block n x s) (value_of-le32 a l)

rd_of-hex : (a : ℕ) (s : Server) → a < 2 ^ 32 → rd (hex (le32 a) ∷ []) s ≡ rd_block a s
unfolding rd
rd_of-hex a s l =
    ap (λ (u : Option (List ℕ)). rd_with u s) (unhexlify-hex (le32 a) (le32_bytes a))
    ∙ ap (λ (n : ℕ). rd_block n s) (value_of-le32 a l)

-- The requests of the driver, as the server answers them.
pub wr_request-answer :
    (a b : ℕ) (x : List ℕ) (s : Server)
    → a < 2 ^ 32
    → AllBytes (b ∷ x)
    → feed serve (wr_request serve a (b ∷ x)) (sent ([], up s []))
      ≡ sent (answer (up s []) (wr_block a (b ∷ x) (up s [])))
wr_request-answer a b x s l h =
    ap (λ (bs : List ℕ). feed serve bs (sent ([], up s []))) regroup
    ∙ answers_line text s (
        InLine-append (hex (0x01 ∷ [])) (b' ' ∷ (hex (le32 a) ++ (b' ' ∷ hex (b ∷ x))))
          (hex-InLine (0x01 ∷ []))
          (space_or_word (hex (le32 a) ++ (b' ' ∷ hex (b ∷ x))) (
            InLine-append (hex (le32 a)) (b' ' ∷ hex (b ∷ x)) (hex-InLine (le32 a))
              (space_or_word (hex (b ∷ x)) (hex-InLine (b ∷ x))))))
    ∙ ap (λ (ws : List (List ℕ)). sent (answer (up s []) (process ws (up s []))))
        (words_of_three (itox 0) (itox 1 ∷ []) (hex (le32 a)) (itox (b / 16 % 16))
          (itox (b % 16) ∷ hex x) (hex-IsWord (0x01 ∷ [])) (hex-IsWord (le32 a))
          (hex-IsWord (b ∷ x)))
    ∙ ap
        (λ (r : Request).
          sent (answer (up s []) (handle r (hex (le32 a) ∷ hex (b ∷ x) ∷ []) (up s []))))
        command_wr
    ∙ ap (λ (o : Ack). sent (answer (up s []) o)) (wr_of-hex a (b ∷ x) (up s []) l h)
  where
    text : List ℕ
    text = hex (0x01 ∷ []) ++ (b' ' ∷ (hex (le32 a) ++ (b' ' ∷ hex (b ∷ x))))

    regroup : wr_request serve a (b ∷ x) ≡ text ++ (b'\n' ∷ [])
    regroup = simp append_assoc

pub rd_request-answer :
    (a : ℕ) (s : Server)
    → a < 2 ^ 32
    → feed serve (rd_request serve a) (sent ([], up s []))
      ≡ sent (answer (up s []) (rd_block a (up s [])))
rd_request-answer a s l =
    answers_line text s (
      InLine-append (hex (0x02 ∷ [])) (b' ' ∷ hex (le32 a)) (hex-InLine (0x02 ∷ []))
        (space_or_word (hex (le32 a)) (hex-InLine (le32 a))))
    ∙ ap (λ (ws : List (List ℕ)). sent (answer (up s []) (process ws (up s []))))
        (words_of_two (itox 0) (itox 2 ∷ []) (itox (a % 256 / 16 % 16))
          (itox (a % 256 % 16)
            ∷ hex ((a / 2 ^ 8 % 256) ∷ (a / 2 ^ 16 % 256) ∷ (a / 2 ^ 24 % 256) ∷ []))
          (hex-IsWord (0x02 ∷ [])) (hex-IsWord (le32 a)))
    ∙ ap (λ (r : Request). sent (answer (up s []) (handle r (hex (le32 a) ∷ []) (up s []))))
        command_rd
    ∙ ap (λ (o : Ack). sent (answer (up s []) o)) (rd_of-hex a (up s []) l)
  where
    text : List ℕ
    text = hex (0x02 ∷ []) ++ (b' ' ∷ hex (le32 a))
