-- ===== src/Uart/Hex.antt =====
-- Bytes as two hexadecimal digits on the line: device/PL011.c and the byte loops of device/disk.c.
use Prim.Native.Nat.{bit_or}
use armcortex_a7os.Base.{
  ℕ, zero, suc, ◌*◌, ◌/◌, ◌%◌, ◌<◌, ◌≡◌, refl, sym, ◌∙◌, ap, Bool, true, ◌&&◌, List, [], ◌∷◌, ◌++◌,
  Option, some, ◌==◌, ==_iff, arith, ℕ_discrete,
}
use armcortex_a7os.Uart.{
  xtoi, itox, Peer, Port, Io, ◌>>=◌, ◌>>◌, pl011_getc, pl011_geth, pl011_putc, pl011_puth, print,
}

-- A test of every number under a bound, by evaluation.
tests_under : (ℕ → Bool) → ℕ → Bool
tests_under test zero = true
tests_under test (suc bound) = tests_under test bound && test bound

test_of_under :
    (test : ℕ → Bool) (bound i : ℕ) → i < bound → tests_under test bound ≡ true → test i ≡ true
unfolding tests_under
test_of_under test zero i under passed = absurd (omega arith)
test_of_under test (suc bound) i under passed = elim (ℕ_discrete i bound) [
  | yes last ↦ rw last (ground arith)
  | no earlier ↦ test_of_under test bound i (omega arith) (ground arith)
]

-- The two digits of a byte, as `pl011_puth` sends them.
abbrev pub hex_byte : ℕ → List ℕ
hex_byte b = itox (b / 16 % 16) ∷ itox (b % 16) ∷ []

abbrev pub hex : List ℕ → List ℕ
hex [] = []
hex (b ∷ bs) = hex_byte b ++ hex bs

-- What `pl011_geth` makes of two digits.
abbrev pub unhex : ℕ → ℕ → ℕ
unhex a b = bit_or (xtoi a * 16 % 256) (xtoi b) % 256

unhex_table : tests_under (λ b. unhex (itox (b / 16 % 16)) (itox (b % 16)) == b) 256 ≡ true
unfolding tests_under xtoi itox
unhex_table = refl

-- `pl011_geth` reads back the byte that `pl011_puth` sends.
pub unhex-hex : (b : ℕ) → b < 256 → unhex (itox (b / 16 % 16)) (itox (b % 16)) ≡ b
unhex-hex b small = (==_iff _ b).0 (test_of_under _ 256 b small unhex_table)

module _ {P : Type 0} where
  -- The port once `bs` are the bytes that wait.
  abbrev pub with_input : List ℕ → Port P → Port P
  with_input bs d = record d { input = bs }

  pub getc_of :
      (b : ℕ) (bs : List ℕ) (d : Port P)
      → pl011_getc (with_input (b ∷ bs) d) ≡ some (b, with_input bs d)
  unfolding pl011_getc
  getc_of b bs d = refl

  pub geth_of :
      (a b : ℕ) (bs : List ℕ) (d : Port P)
      → pl011_geth (with_input (a ∷ b ∷ bs) d) ≡ some (unhex a b, with_input bs d)
  unfolding pl011_geth
  geth_of a b bs d = refl

  pub geth-hex :
      (b : ℕ) (bs : List ℕ) (d : Port P)
      → b < 256
      → pl011_geth (with_input (hex_byte b ++ bs) d) ≡ some (b, with_input bs d)
  geth-hex b bs d l = geth_of _ _ bs d ∙ ap (λ (c : ℕ). some (c, with_input bs d)) (unhex-hex b l)

-- A call that has an outcome is followed by the rest.
pub >>=-of :
    {P A B : Type 0} (m : Io P A) (f : A → Io P B) (d : Port P) {a : A} {d' : Port P}
    → m d ≡ some (a, d')
    → (m >>= f) d ≡ f a d'
>>=-of m f d e = rw (e, ◌>>=◌)

module _ {P : Type 0} (dev : Peer P) where
  -- The port once the other end was fed these bytes.
  unfoldable pub feed : List ℕ → Port P → Port P
  feed [] d = d
  feed (b ∷ bs) d =
      let (more, p) = dev b d.peer in feed bs (record d { input = d.input ++ more; peer = p })

  pub feed-append : (xs ys : List ℕ) (d : Port P) → feed (xs ++ ys) d ≡ feed ys (feed xs d)
  unfolding feed
  feed-append [] ys d = refl
  feed-append (x ∷ xs) ys d = feed-append xs ys _

  pub putc_lem : (b : ℕ) (d : Port P) → pl011_putc dev b d ≡ some (tt, feed (b ∷ []) d)
  unfolding pl011_putc feed
  putc_lem b d = refl

  pub puth_lem : (b : ℕ) (d : Port P) → pl011_puth dev b d ≡ some (tt, feed (hex_byte b) d)
  unfolding pl011_puth feed
  puth_lem b d = refl

  -- `print` sends exactly the bytes of its text, in order.
  pub print_lem : (bs : List ℕ) (d : Port P) → print dev bs d ≡ some (tt, feed bs d)
  unfolding print feed
  print_lem [] d = refl
  print_lem (b ∷ bs) d = print_lem bs _

  -- The call sends these bytes, and nothing else.
  abbrev pub Sends : List ℕ → Io P (Unit {0}) → Type 0
  Sends bs m = (d : Port P) → m d ≡ some (tt, feed bs d)

  pub then-of :
      {B : Type 0} (bs : List ℕ) (m : Io P (Unit {0})) (k : Io P B) (d : Port P)
      → Sends bs m
      → (m >> k) d ≡ k (feed bs d)
  then-of bs m k d h = >>=-of m (λ _. k) d (h d)

  pub Sends-then :
      (xs ys : List ℕ) (m k : Io P (Unit {0})) → Sends xs m → Sends ys k → Sends (xs ++ ys) (m >> k)
  Sends-then xs ys m k h g d =
      then-of xs m k d h ∙ g (feed xs d) ∙ ap answer (sym (feed-append xs ys d))
    where
      answer : Port P → Option (Unit {0} × Port P)
      answer e = some (tt, e)
