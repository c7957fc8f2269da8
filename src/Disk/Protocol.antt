-- ===== src/Disk/Protocol.antt =====
-- What the calls of device/disk.c send, and what they make of the answers.
use armcortex_a7os.Base.{
  ℕ, zero, suc, ◌<◌, ◌≡◌, refl, sym, ◌∙◌, ap, List, [], ◌∷◌, ◌++◌, some, length, le32,
}
use armcortex_a7os.Uart.{
  Peer, Port, Io, ◌>>=◌, return, pl011_getc, pl011_geth, pl011_putc, pl011_puth,
}
use armcortex_a7os.Uart.Hex.{
  hex, hex_byte, unhex, unhex-hex, with_input, geth_of, feed, feed-append, putc_lem, puth_lem,
  >>=-of, Sends, Sends-then, then-of,
}
use armcortex_a7os.Disk.{
  data_geth, addr_puth, data_puth, wr_loop, disk_wr, disk_success, disk_failure, wr_answer,
}

-- Each is a byte.
abbrev pub AllBytes : List ℕ → Type 0
AllBytes [] = Unit {0}
AllBytes (b ∷ bs) = (b < 256) × AllBytes bs

-- The characters are two digits for each byte.
abbrev pub Spells : List ℕ → List ℕ → Type 0
Spells [] [] = Unit {0}
Spells (h ∷ l ∷ ds) (b ∷ bs) = (unhex h l ≡ b) × Spells ds bs
Spells (h ∷ []) bs = ⊥
Spells [] (b ∷ bs) = ⊥
Spells (h ∷ l ∷ ds) [] = ⊥

-- `data_geth` reads back exactly the bytes whose digits wait, and leaves what follows them.
pub data_geth-Spells :
    {P : Type 0} (ds bs rest : List ℕ) (d : Port P)
    → Spells ds bs
    → data_geth (length bs) (with_input (ds ++ rest) d) ≡ some (bs, with_input rest d)
unfolding data_geth
data_geth-Spells [] [] rest d h = refl
data_geth-Spells (x ∷ y ∷ ds) (b ∷ bs) rest d h =
    >>=-of pl011_geth _ (with_input (x ∷ y ∷ (ds ++ rest)) d) (geth_of x y (ds ++ rest) d)
    ∙ >>=-of (data_geth (length bs)) (λ xs. return (unhex x y ∷ xs)) (with_input (ds ++ rest) d)
        (data_geth-Spells ds bs rest d h.1)
    ∙ ap (λ (c : ℕ). some (c ∷ bs, with_input rest d)) h.0
data_geth-Spells (x ∷ []) bs rest d h = absurd h
data_geth-Spells [] (b ∷ bs) rest d h = absurd h
data_geth-Spells (x ∷ y ∷ ds) [] rest d h = absurd h

pub hex-Spells : (bs : List ℕ) → AllBytes bs → Spells (hex bs) bs
hex-Spells [] h = tt
hex-Spells (b ∷ bs) (l, h) = (unhex-hex b l, hex-Spells bs h)

module _ {P : Type 0} (dev : Peer P) where
  data_puth-Sends : (bs : List ℕ) → Sends dev (hex bs) (data_puth dev bs)
  unfolding data_puth
  data_puth-Sends [] d = unfold feed in refl
  data_puth-Sends (b ∷ bs) d =
      Sends-then dev (hex_byte b) (hex bs) (pl011_puth dev b) (data_puth dev bs) (puth_lem dev b)
        (data_puth-Sends bs) d

  pub addr_puth-Sends : (a : ℕ) → Sends dev (hex (le32 a)) (addr_puth dev a)
  unfolding addr_puth pl011_puth feed
  addr_puth-Sends a d = refl

  -- The requests: a write of the bytes `x` at the block address `a`, and a read of that block.
  abbrev pub wr_request : ℕ → List ℕ → List ℕ
  wr_request a x = hex (0x01 ∷ []) ++ (b' ' ∷ (hex (le32 a) ++ (b' ' ∷ (hex x ++ (b'\n' ∷ [])))))

  abbrev pub rd_request : ℕ → List ℕ
  rd_request a = hex (0x02 ∷ []) ++ (b' ' ∷ (hex (le32 a) ++ (b'\n' ∷ [])))

  -- One attempt sends the request and goes on with the answer.
  pub wr_loop_step :
      (k a : ℕ) (x : List ℕ) (d : Port P)
      → wr_loop dev (suc k) a x d
        ≡ (pl011_geth >>= λ c. wr_answer c (wr_loop dev k a x)) (feed dev (wr_request a x) d)
  unfolding wr_loop feed
  wr_loop_step k a x d =
      then-of dev (hex_byte 1) (pl011_puth dev 1) _ d (puth_lem dev 1)
      ∙ then-of dev (32 ∷ []) (pl011_putc dev 32) _ _ (putc_lem dev 32)
      ∙ then-of dev (hex (le32 a)) (addr_puth dev a) _ _ (addr_puth-Sends a)
      ∙ then-of dev (32 ∷ []) (pl011_putc dev 32) _ _ (putc_lem dev 32)
      ∙ then-of dev (hex x) (data_puth dev x) _ _ (data_puth-Sends x)
      ∙ then-of dev (10 ∷ []) (pl011_putc dev 10) _ _ (putc_lem dev 10)
      ∙ ap (pl011_geth >>= λ c. wr_answer c (wr_loop dev k a x))
          (sym (feed-append dev (hex x) (10 ∷ []) _))

  -- What the device answers to a request: the first byte, and the bytes from its end of line on.
  abbrev pub Answers : List ℕ → Port P → ℕ → Port P → Type 0
  Answers request d c d' =
      (h : ℕ) × (l : ℕ) × (eol : ℕ) × (feed dev request d ≡ with_input (h ∷ l ∷ eol ∷ d'.input) d')
      × (unhex h l ≡ c)

  -- The outcome of at most `k` attempts at a write, by the answers of the device: success at the
  -- first answer 0, failure if every attempt is refused.
  pub data WrOutcome (a : ℕ) (x : List ℕ) : ℕ → Port P → ℕ → Port P → Type 0 where
    accepted :
        {k : ℕ} {d d' : Port P}
        → Answers (wr_request a x) d 0 d'
        → WrOutcome a x (suc k) d disk_success d'
    refused :
        {k r : ℕ} {d e d' : Port P} (c : ℕ)
        → Answers (wr_request a x) d (suc c) e
        → WrOutcome a x k e r d'
        → WrOutcome a x (suc k) d r d'
    given_up : {d : Port P} → WrOutcome a x zero d disk_failure d

  answered :
      (request : List ℕ) (d : Port P) {c : ℕ} {d' : Port P} (f : ℕ → Io P ℕ)
      → Answers request d c d'
      → (eol : ℕ) × ((pl011_geth >>= f) (feed dev request d) ≡ f c (with_input (eol ∷ d'.input) d'))
  answered request d {c} {d'} f (h, l, eol, e, u) = (
    eol,
    rw e (
          >>=-of pl011_geth f (with_input (h ∷ l ∷ eol ∷ d'.input) d')
            (geth_of h l (eol ∷ d'.input) d'))
        ∙ ap (λ (b : ℕ). f b (with_input (eol ∷ d'.input) d')) u,
  )

  wr_answer_lem :
      (c eol : ℕ) (again : Io P ℕ) (d : Port P)
      → wr_answer c again (with_input (eol ∷ d.input) d)
        ≡ elim c [ zero ↦ some (disk_success, d) | suc _ ↦ again d ]
  unfolding wr_answer pl011_getc
  wr_answer_lem zero eol again d = refl
  wr_answer_lem (suc c) eol again d = refl

  wr_loop-WrOutcome :
      {a : ℕ} {x : List ℕ} {k r : ℕ} {d d' : Port P}
      → WrOutcome a x k d r d'
      → wr_loop dev k a x d ≡ some (r, d')
  wr_loop-WrOutcome {a} {x} {d' = d'} (accepted {k} {d} h) =
      let (eol, e) = answered (wr_request a x) d (λ c. wr_answer c (wr_loop dev k a x)) h in
      wr_loop_step k a x d ∙ e ∙ wr_answer_lem 0 eol (wr_loop dev k a x) d'
  wr_loop-WrOutcome {a} {x} (refused {k} {r} {d} {e} c h o) =
      let (eol, q) = answered (wr_request a x) d (λ c. wr_answer c (wr_loop dev k a x)) h in
      wr_loop_step k a x d
      ∙ q
      ∙ wr_answer_lem (suc c) eol (wr_loop dev k a x) e
      ∙ wr_loop-WrOutcome o
  wr_loop-WrOutcome given_up = unfold wr_loop in refl

  -- `disk_wr` sends its request at most three times: it gives 0 at the first answer 0, and -1 when the
  -- device refuses all three; each answer is read up to its end of line.
  pub disk_wr_lem :
      {a r : ℕ} {x : List ℕ} {d d' : Port P}
      → WrOutcome a x 3 d r d'
      → disk_wr dev a x d ≡ some (r, d')
  unfolding disk_wr
  disk_wr_lem o = wr_loop-WrOutcome o
