-- ===== src/P5/Steps.antt =====
-- The first three steps of `weight` of user/P5.c act on each byte of the word by itself.
use Prim.Native.Nat.{bit_and}
use armcortex_a7os.Base.{
  ℕ, zero, suc, ◌+◌, ◌*◌, ◌/◌, ◌%◌, ◌^◌, ◌<◌, ◌≡◌, refl, ap, ap₂, ◌∙◌, arith, true, ltb, ltb→lt,
  ◌==◌, ==_iff, all_below, all_below_at,
}
use armcortex_a7os.P5.{fold}
use armcortex_a7os.P5.Masks.{
  Splits, Splits-16, Splits-64, Splits-128, Splits-256, Splits-65536, low_digits,
}

-- The ones among the lowest `n` digits.
unfoldable pub ones : ℕ → ℕ → ℕ
ones zero x = 0
ones (suc n) x = x % 2 + ones n (x / 2)

-- A word from its bytes.
abbrev pub word : ℕ → ℕ → ℕ → ℕ → ℕ
word a b c d = a + b * 256 + (c + d * 256) * 65536

-- The mask with the byte `m` everywhere.
abbrev pub everywhere : ℕ → ℕ
everywhere m = m * 0x01010101

and_bytes :
    (a b c d m : ℕ)
    → a < 256
    → b < 256
    → c < 256
    → d < 256
    → m < 256
    → bit_and (word a b c d) (everywhere m)
      ≡ word (bit_and a m) (bit_and b m) (bit_and c m) (bit_and d m)
and_bytes a b c d m ha hb hc hd hm =
    Splits-65536 (word a b c d) (everywhere m)
    ∙ omega (
      arith,
      ap₂ bit_and high mask_high,
      ap₂ bit_and low mask_low,
      pair a b ha hb,
      pair c d hc hd,
    )
  where
    high : word a b c d / 65536 ≡ c + d * 256
    high = omega arith

    low : word a b c d % 65536 ≡ a + b * 256
    low = omega arith

    mask_high : everywhere m / 65536 ≡ m + m * 256
    mask_high = omega arith

    mask_low : everywhere m % 65536 ≡ m + m * 256
    mask_low = omega arith

    pair :
        (e f : ℕ)
        → e < 256
        → f < 256
        → bit_and (e + f * 256) (m + m * 256) ≡ bit_and e m + bit_and f m * 256
    pair e f he hf =
        let q : (e + f * 256) / 256 ≡ f = omega arith in
        let r : (e + f * 256) % 256 ≡ e = omega arith in
        let s : (m + m * 256) / 256 ≡ m = omega arith in
        let t : (m + m * 256) % 256 ≡ m = omega arith in
        omega (arith, Splits-256 (e + f * 256) (m + m * 256), ap₂ bit_and q s, ap₂ bit_and r t)

-- A byte of the word shifted by `k` places, with the digits that come down from the byte `b`.
abbrev pub shifted : ℕ → ℕ → ℕ → ℕ → ℕ
shifted k r a b = a / 2 ^ k + b % 2 ^ k * r

-- What one step does to a byte.
abbrev pub step : ℕ → ℕ → ℕ → ℕ
step m k a = bit_and a m + bit_and (a / 2 ^ k) m

-- What is needed of a shift and a mask: the digits that come down lie outside of the mask.
pub record IsStep (k r m : ℕ) : Type 0 where
  splits : Splits r
  shifts :
      (a b c d : ℕ)
      → a < 256
      → b < 256
      → c < 256
      → d < 256
      → word a b c d / 2 ^ k
        ≡ word (shifted k r a b) (shifted k r b c) (shifted k r c d) (d / 2 ^ k)
  bounded : (a b : ℕ) → a < 256 → shifted k r a b < 256
  top : (a : ℕ) → a < 256 → a / 2 ^ k < 256
  apart : (a b : ℕ) → a < 256 → shifted k r a b % r ≡ a / 2 ^ k
  mask_high : m / r ≡ 0
  mask_low : m % r ≡ m
  mask_byte : m < 256
  fits : all_below 256 (λ a. ltb (step m k a) 256) ≡ true

module _ (k r m : ℕ) (s : IsStep k r m) where
  come_down : (a b : ℕ) → a < 256 → bit_and (shifted k r a b) m ≡ bit_and (a / 2 ^ k) m
  come_down a b h =
      low_digits r (s.splits) (shifted k r a b) m (s.mask_high) (s.mask_low)
      ∙ ap (λ n. bit_and n m) (s.apart a b h)

  pub step_fits : (a : ℕ) → a < 256 → step m k a < 256
  step_fits a h = ltb→lt _ _ (all_below_at 256 (λ n. ltb (step m k n) 256) a (s.fits) h)

  pub fold-word :
      (a b c d : ℕ)
      → a < 256
      → b < 256
      → c < 256
      → d < 256
      → fold (everywhere m) k (word a b c d)
        ≡ word (step m k a) (step m k b) (step m k c) (step m k d)
  fold-word a b c d ha hb hc hd = omega (
    arith,
    and_bytes a b c d m ha hb hc hd (s.mask_byte),
    ap (λ n. bit_and n (everywhere m)) (s.shifts a b c d ha hb hc hd)
        ∙ and_bytes (shifted k r a b) (shifted k r b c) (shifted k r c d) (d / 2 ^ k) m
            (s.bounded a b ha) (s.bounded b c hb) (s.bounded c d hc) (s.top d hd) (s.mask_byte),
    come_down a b ha,
    come_down b c hb,
    come_down c d hc,
    step_fits a ha,
    step_fits b hb,
    step_fits c hc,
    step_fits d hd,
  )

pub pairs-IsStep : IsStep 1 128 0x55
unfolding all_below
pairs-IsStep = record {
  splits = Splits-128;
  shifts = λ a b c d p q r s. omega arith;
  bounded = λ a b p. omega arith;
  top = λ a p. omega arith;
  apart = λ a b p. omega arith;
  mask_high = refl;
  mask_low = refl;
  mask_byte = omega arith;
  fits = refl;
}

pub nibbles-IsStep : IsStep 2 64 0x33
unfolding all_below
nibbles-IsStep = record {
  splits = Splits-64;
  shifts = λ a b c d p q r s. omega arith;
  bounded = λ a b p. omega arith;
  top = λ a p. omega arith;
  apart = λ a b p. omega arith;
  mask_high = refl;
  mask_low = refl;
  mask_byte = omega arith;
  fits = refl;
}

pub bytes-IsStep : IsStep 4 16 0x0F
unfolding all_below
bytes-IsStep = record {
  splits = Splits-16;
  shifts = λ a b c d p q r s. omega arith;
  bounded = λ a b p. omega arith;
  top = λ a p. omega arith;
  apart = λ a b p. omega arith;
  mask_high = refl;
  mask_low = refl;
  mask_byte = omega arith;
  fits = refl;
}

-- The three steps within a byte count its ones.
abbrev pub in_byte : ℕ → ℕ
in_byte a = step 0x0F 4 (step 0x33 2 (step 0x55 1 a))

pub in_byte_lem : (a : ℕ) → a < 256 → in_byte a ≡ ones 8 a
in_byte_lem a h = (==_iff _ _).0 (all_below_at 256 (λ n. in_byte n == ones 8 n) a table h)
  where
    table : all_below 256 (λ n. in_byte n == ones 8 n) ≡ true
    table = unfold all_below ones in refl
