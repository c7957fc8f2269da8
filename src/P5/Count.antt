-- ===== src/P5/Count.antt =====
-- `weight` of user/P5.c counts the ones of a word.
use Prim.Native.Nat.{bit_and}
use armcortex_a7os.Base.{
  ℕ, zero, suc, ◌+◌, ◌*◌, ◌/◌, ◌%◌, ◌^◌, ◌≤◌, ◌<◌, ◌≡◌, refl, ap, ◌∙◌, arith, true, ◌==◌, ==_iff,
  all_below, all_below_at,
}
use armcortex_a7os.P5.{fold, weight}
use armcortex_a7os.P5.Masks.{Splits-256, Splits-65536, low_digits}
use armcortex_a7os.P5.Steps.{
  ones, word, step, step_fits, fold-word, pairs-IsStep, nibbles-IsStep, bytes-IsStep, in_byte,
  in_byte_lem,
}

ones_byte :
    (n x : ℕ)
    → ones (suc (suc (suc (suc (suc (suc (suc (suc n)))))))) x ≡ ones 8 (x % 256) + ones n (x / 256)
unfolding ones
ones_byte n x =
    let e : x / 2 / 2 / 2 / 2 / 2 / 2 / 2 / 2 ≡ x / 256 = omega arith in
    omega (arith, ap (ones n) e)

ones_zero : (x : ℕ) → ones 0 x ≡ 0
unfolding ones
ones_zero x = refl

-- The number of ones of a byte is at most 8.
ones-le : (n x : ℕ) → ones n x ≤ n
unfolding ones
ones-le zero x = omega arith
ones-le (suc n) x = omega (arith, ones-le n (x / 2))

mask_byte_table : all_below 256 (λ n. bit_and n 0xFF == n) ≡ true
unfolding all_below
mask_byte_table = refl

mask_half_table : all_below 256 (λ n. bit_and n 0xFFFF == n) ≡ true
unfolding all_below
mask_half_table = refl

and_byte : (a b : ℕ) → a < 256 → bit_and (a + b * 256) 0xFF ≡ a
and_byte a b h =
    let e : (a + b * 256) % 256 ≡ a = omega arith in
    low_digits 256 Splits-256 (a + b * 256) 0xFF refl refl
    ∙ ap (λ n. bit_and n 0xFF) e
    ∙ (==_iff _ _).0 (all_below_at 256 (λ n. bit_and n 0xFF == n) a mask_byte_table h)

and_half : (a b : ℕ) → a < 256 → bit_and (a + b * 65536) 0xFFFF ≡ a
and_half a b h =
    let e : (a + b * 65536) % 65536 ≡ a = omega arith in
    low_digits 65536 Splits-65536 (a + b * 65536) 0xFFFF refl refl
    ∙ ap (λ n. bit_and n 0xFFFF) e
    ∙ (==_iff _ _).0 (all_below_at 256 (λ n. bit_and n 0xFFFF == n) a mask_half_table h)

and_bytes_0_2 :
    (a b c d : ℕ) → a < 256 → b < 256 → c < 256 → bit_and (word a b c d) 0x00FF00FF ≡ a + c * 65536
and_bytes_0_2 a b c d ha hb hc =
    let high : word a b c d / 65536 ≡ c + d * 256 = omega arith in
    let low : word a b c d % 65536 ≡ a + b * 256 = omega arith in
    omega (
      arith,
      Splits-65536 (word a b c d) 0x00FF00FF,
      ap (λ n. bit_and n 0xFF) high,
      ap (λ n. bit_and n 0xFF) low,
      and_byte a b ha,
      and_byte c d hc,
    )

-- The last two steps add up four small bytes.
fold_last :
    (a b c d : ℕ)
    → a ≤ 8
    → b ≤ 8
    → c ≤ 8
    → d ≤ 8
    → fold 0x0000FFFF 16 (fold 0x00FF00FF 8 (word a b c d)) ≡ a + b + c + d
fold_last a b c d ha hb hc hd = rw bytes halves
  where
    down : word a b c d / 2 ^ 8 ≡ word b c d 0
    down = omega arith

    bytes : fold 0x00FF00FF 8 (word a b c d) ≡ (a + b) + (c + d) * 65536
    bytes = omega (
      arith,
      and_bytes_0_2 a b c d (omega arith) (omega arith) (omega arith),
      ap (λ n. bit_and n 0x00FF00FF) down,
      and_bytes_0_2 b c d 0 (omega arith) (omega arith) (omega arith),
    )

    down' : ((a + b) + (c + d) * 65536) / 2 ^ 16 ≡ (c + d) + 0 * 65536
    down' = omega arith

    halves : fold 0x0000FFFF 16 ((a + b) + (c + d) * 65536) ≡ a + b + c + d
    halves = omega (
      arith,
      and_half (a + b) (c + d) (omega arith),
      ap (λ n. bit_and n 0xFFFF) down',
      and_half (c + d) 0 (omega arith),
    )

weight-word :
    (a b c d : ℕ)
    → a < 256
    → b < 256
    → c < 256
    → d < 256
    → weight (word a b c d) ≡ in_byte a + in_byte b + in_byte c + in_byte d
unfolding weight
weight-word a b c d ha hb hc hd =
    ap (λ n. rest (fold 0x0F0F0F0F 4 (fold 0x33333333 2 n)))
      (fold-word 1 128 0x55 pairs-IsStep a b c d ha hb hc hd)
    ∙ ap (λ n. rest (fold 0x0F0F0F0F 4 n))
        (fold-word 2 64 0x33 nibbles-IsStep (s1 a) (s1 b) (s1 c) (s1 d) (b1 a ha) (b1 b hb)
          (b1 c hc) (b1 d hd))
    ∙ ap rest (
        fold-word 4 16 0x0F bytes-IsStep (s2 a) (s2 b) (s2 c) (s2 d) (b2 a ha) (b2 b hb) (b2 c hc)
          (b2 d hd))
    ∙ fold_last (in_byte a) (in_byte b) (in_byte c) (in_byte d) (small a ha) (small b hb)
        (small c hc) (small d hd)
  where
    rest : ℕ → ℕ
    rest n = fold 0x0000FFFF 16 (fold 0x00FF00FF 8 n)

    s1 : ℕ → ℕ
    s1 n = step 0x55 1 n

    s2 : ℕ → ℕ
    s2 n = step 0x33 2 (s1 n)

    b1 : (n : ℕ) → n < 256 → s1 n < 256
    b1 n h = step_fits 1 128 0x55 pairs-IsStep n h

    b2 : (n : ℕ) → n < 256 → s2 n < 256
    b2 n h = step_fits 2 64 0x33 nibbles-IsStep (s1 n) (b1 n h)

    small : (n : ℕ) → n < 256 → in_byte n ≤ 8
    small n h = omega (arith, in_byte_lem n h, ones-le 8 n)

-- For every 32-bit word, weight is the number of ones among its 32 digits.
pub weight-ones : (x : ℕ) → x < 2 ^ 32 → weight x ≡ ones 32 x
weight-ones x h =
    let a = x % 256 in
    let b = x / 256 % 256 in
    let c = x / 256 / 256 % 256 in
    let d = x / 256 / 256 / 256 in
    let e : x ≡ word a b c d = omega arith in
    let e' : d % 256 ≡ d = omega arith in
    omega (
      arith,
      ap weight e,
      weight-word a b c d (omega arith) (omega arith) (omega arith) (omega arith),
      in_byte_lem a (omega arith),
      in_byte_lem b (omega arith),
      in_byte_lem c (omega arith),
      in_byte_lem d (omega arith),
      ones_byte 24 x,
      ones_byte 16 (x / 256),
      ones_byte 8 (x / 256 / 256),
      ones_byte 0 d,
      ap (ones 8) e',
      ones_zero (d / 256),
    )
