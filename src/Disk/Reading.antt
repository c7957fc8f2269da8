-- ===== src/Disk/Reading.antt =====
-- What `disk_rd` of device/disk.c sends, and what it makes of the answers.
use armcortex_a7os.Base.{ℕ, zero, suc, ◌≡◌, refl, ◌∙◌, ap, List, [], ◌∷◌, ◌++◌, some, length}
use armcortex_a7os.Uart.{
  Peer, Port, Io, ◌>>=◌, ◌>>◌, return, pl011_getc, pl011_geth, pl011_putc, pl011_puth,
}
use armcortex_a7os.Uart.Hex.{
  hex, hex_byte, unhex, with_input, geth_of, feed, putc_lem, puth_lem, >>=-of, then-of,
}
use armcortex_a7os.Base.{le32}
use armcortex_a7os.Disk.{data_geth, addr_puth, rd_loop, disk_rd, disk_success, disk_failure}
use armcortex_a7os.Disk.Protocol.{Spells, data_geth-Spells, addr_puth-Sends, rd_request, Answers}

module _ {P : Type 0} (dev : Peer P) where
  -- What an attempt does with the first byte of the answer.
  abbrev rd_answer : (n : ℕ) → List ℕ → Io P (ℕ × List ℕ) → ℕ → Io P (ℕ × List ℕ)
  rd_answer n x again c = elim c [
    | zero ↦ do pl011_getc; y ← data_geth n; pl011_getc; return (disk_success, y)
    | suc _ ↦ pl011_getc >> again
  ]

  rd_loop_step :
      (k a n : ℕ) (x : List ℕ) (d : Port P)
      → rd_loop dev (suc k) a n x d
        ≡ (pl011_geth >>= rd_answer n x (rd_loop dev k a n x)) (feed dev (rd_request dev a) d)
  unfolding rd_loop feed
  rd_loop_step k a n x d =
      then-of dev (hex_byte 2) (pl011_puth dev 2) _ d (puth_lem dev 2)
      ∙ then-of dev (32 ∷ []) (pl011_putc dev 32) _ _ (putc_lem dev 32)
      ∙ then-of dev (hex (le32 a)) (addr_puth dev a) _ _ (addr_puth-Sends dev a)
      ∙ then-of dev (10 ∷ []) (pl011_putc dev 10) _ _ (putc_lem dev 10)

  -- A served answer: the byte 00, a separator, two digits for each byte of the block `bs`, and an end
  -- of line.
  pub data RdOutcome (a : ℕ) (x bs : List ℕ) : ℕ → Port P → ℕ × List ℕ → Port P → Type 0 where
    served :
        {k : ℕ} {d d' : Port P} (h l sep eol : ℕ) (ds : List ℕ)
        → feed dev (rd_request dev a) d ≡ with_input (h ∷ l ∷ sep ∷ (ds ++ (eol ∷ d'.input))) d'
        → Spells ds bs
        → unhex h l ≡ 0
        → RdOutcome a x bs (suc k) d (disk_success, bs) d'
    declined :
        {k : ℕ} {r : ℕ × List ℕ} {d e d' : Port P} (c : ℕ)
        → Answers dev (rd_request dev a) d (suc c) e
        → RdOutcome a x bs k e r d'
        → RdOutcome a x bs (suc k) d r d'
    exhausted : {d : Port P} → RdOutcome a x bs zero d (disk_failure, x) d

  serve :
      (ds bs x : List ℕ) (sep eol : ℕ) (again : Io P (ℕ × List ℕ)) (d : Port P)
      → Spells ds bs
      → rd_answer (length bs) x again 0 (with_input (sep ∷ (ds ++ (eol ∷ d.input))) d)
        ≡ some ((disk_success, bs), d)
  unfolding pl011_getc
  serve ds bs x sep eol again d h =
      >>=-of (data_geth (length bs)) (λ y. pl011_getc >> return (disk_success, y))
        (with_input (ds ++ (eol ∷ d.input)) d) (data_geth-Spells ds bs (eol ∷ d.input) d h)

  refuse :
      (n c : ℕ) (x : List ℕ) (eol : ℕ) (again : Io P (ℕ × List ℕ)) (d : Port P)
      → rd_answer n x again (suc c) (with_input (eol ∷ d.input) d) ≡ again d
  unfolding pl011_getc
  refuse n c x eol again d = refl

  -- The byte that an attempt goes on with.
  first_byte :
      (f : ℕ → Io P (ℕ × List ℕ)) (h l c : ℕ) (rest : List ℕ) (e d : Port P)
      → e ≡ with_input (h ∷ l ∷ rest) d
      → unhex h l ≡ c
      → (pl011_geth >>= f) e ≡ f c (with_input rest d)
  first_byte f h l c rest e d q u =
      rw q (>>=-of pl011_geth f (with_input (h ∷ l ∷ rest) d) (geth_of h l rest d))
      ∙ ap (λ (b : ℕ). f b (with_input rest d)) u

  rd_loop-RdOutcome :
      {a : ℕ} {x bs : List ℕ} {k : ℕ} {r : ℕ × List ℕ} {d d' : Port P}
      → RdOutcome a x bs k d r d'
      → rd_loop dev k a (length bs) x d ≡ some (r, d')
  rd_loop-RdOutcome {a} {x} {bs} {d' = d'} (served {k} {d} h l sep eol ds q v u) =
      let again = rd_loop dev k a (length bs) x in
      rd_loop_step k a (length bs) x d
      ∙ first_byte (rd_answer (length bs) x again) h l 0 (sep ∷ (ds ++ (eol ∷ d'.input)))
          (feed dev (rd_request dev a) d) d' q u
      ∙ serve ds bs x sep eol again d' v
  rd_loop-RdOutcome {a} {x} {bs} (declined {k} {r} {d} {e} c (h, l, eol, q, u) o) =
      let again = rd_loop dev k a (length bs) x in
      rd_loop_step k a (length bs) x d
      ∙ first_byte (rd_answer (length bs) x again) h l (suc c) (eol ∷ e.input)
          (feed dev (rd_request dev a) d) e q u
      ∙ refuse (length bs) c x eol again e
      ∙ rd_loop-RdOutcome o
  rd_loop-RdOutcome exhausted = unfold rd_loop in refl

  -- `disk_rd` of as many bytes as the block has sends its request at most three times. At the first
  -- answer 0 it gives 0 and exactly the bytes of the block, and has read up to the end of line; when
  -- the device refuses all three, it gives -1 and leaves the buffer as it was.
  pub disk_rd_lem :
      (a : ℕ) (x bs : List ℕ) (r : ℕ × List ℕ) (d d' : Port P)
      → RdOutcome a x bs 3 d r d'
      → disk_rd dev a (length bs) x d ≡ some (r, d')
  unfolding disk_rd
  disk_rd_lem a x bs r d d' o = rd_loop-RdOutcome o
